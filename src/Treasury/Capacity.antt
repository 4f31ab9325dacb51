-- ===== src/Treasury/Capacity.antt =====
-- The shared capacity window of src/purchase/journal.ts: what reservations, settlements, recoveries
-- and direct operations use of the hourly limit.
use sompi.Base.{
  ℕ, ◌+◌, Bool, true, false, ◌||◌, String, Option, none, some, map, leb, ltb, ◌==◌, str_eq,
  if◌then◌else◌, sum_by, length, includes, Result, ◌>>◌, require, policy_reservation,
}
use sompi.Treasury.Types.{
  OperationKind, vault_deposit, batch_refund, same_kind, completed, failed_terminal, same_state,
  RequestedAmount, exact, maximum, Operation, active, in_flight, expired, Reservation, Settlement,
  RecoveryAccounting, PolicySnapshot, Journal,
}

abbrev pub hour_ms : ℕ
hour_ms = 3600000

-- `at >= now - 60 * 60 * 1000`, in the integers.
abbrev pub in_window : ℕ → ℕ → Bool
in_window now at = leb now (at + hour_ms)

-- Deposits into the vault and refunds from a channel do not spend policy capacity.
abbrev pub keeps_principal : OperationKind → Bool
keeps_principal kind = same_kind kind vault_deposit || same_kind kind batch_refund

unfoldable pub expire_reservation : ℕ → Reservation → Reservation
expire_reservation now r = elim r.state [
  | active ↦
      if leb r.expires_at_ms now then record r { state = expired; updated_at_ms = now } else r
  | _ ↦ r
]

unfoldable pub expire_reservations : ℕ → Journal → Journal
unfolding expire_reservation
expire_reservations now j = record j { reservations = map (expire_reservation now) j.reservations }

unfoldable pub reservation_use : ℕ → Reservation → ℕ
reservation_use now r = elim r.state [
  | active ↦ if ltb now r.expires_at_ms then r.amount + r.additional_cost_ceiling else 0
  | in_flight ↦ r.amount + r.additional_cost_ceiling
  | _ ↦ 0
]

unfoldable pub settlement_use : ℕ → Settlement → ℕ
settlement_use now s =
    if in_window now s.observed_at_ms then s.actual_amount + s.actual_additional_cost else 0

unfoldable pub recovery_use : ℕ → RecoveryAccounting → ℕ
recovery_use now r = if in_window now r.observed_at_ms then r.actual_additional_cost else 0

abbrev pub requested_or_zero : RequestedAmount → ℕ
requested_or_zero (exact n) = n
requested_or_zero maximum = 0

abbrev pub get_or : Option ℕ → ℕ → ℕ
get_or none d = d
get_or (some n) d = n

-- The principal that an operation counts for.
unfoldable pub operation_amount : Operation → ℕ
operation_amount r =
    if keeps_principal r.kind
    then 0
    else get_or r.resolved_amount (requested_or_zero r.requested_amount)

unfoldable pub operation_fee : Operation → ℕ
operation_fee r = if same_state r.state completed then get_or r.fee r.fee_ceiling else r.fee_ceiling

-- The WHERE clause over treasury_operations.
unfoldable pub operation_counts : ℕ → Operation → Bool
operation_counts now r = elim r.state [
  | failed_terminal ↦ false
  | completed ↦ elim r.completed_at_ms [ none ↦ false | some at ↦ in_window now at ]
  | _ ↦ true
]

unfoldable pub operation_use : ℕ → Operation → ℕ
unfolding operation_counts operation_amount operation_fee
operation_use now r = if operation_counts now r then operation_amount r + operation_fee r else 0

abbrev pub excluded_key : Option String → String
excluded_key none = ""
excluded_key (some key) = key

unfoldable pub operation_use_except : ℕ → Option String → Operation → ℕ
operation_use_except now exclude r =
    if str_eq r.operation_key (excluded_key exclude) then 0 else operation_use now r

unfoldable pub policy_capacity_used : ℕ → Option String → Journal → ℕ
policy_capacity_used now exclude j =
    sum_by (reservation_use now) j.reservations
    + sum_by (settlement_use now) j.settlements
    + sum_by (recovery_use now) j.recoveries
    + sum_by (operation_use_except now exclude) j.operations

-- What a new movement of this kind would add.
unfoldable pub gross_movement : OperationKind → ℕ → ℕ → ℕ
gross_movement kind amount fee = (if keeps_principal kind then 0 else amount) + fee

unfoldable pub assert_direct_treasury_capacity :
    Journal
    → PolicySnapshot
    → OperationKind
    → String
    → (amount fee now : ℕ) → Option String
    → Result (Unit {0})
unfolding gross_movement
assert_direct_treasury_capacity j policy kind destination amount fee now exclude = do
  require
      (keeps_principal kind
        || length policy.allowlist == 0
        || includes destination policy.allowlist)
      policy_reservation
  require (same_kind kind vault_deposit || ltb 0 amount) policy_reservation
  require (ltb 0 policy.max_per_payment) policy_reservation
  require (ltb 0 policy.max_per_hour) policy_reservation
  require (leb (if keeps_principal kind then 0 else amount) policy.max_per_payment)
      policy_reservation
  require
      (leb (policy_capacity_used now exclude j + gross_movement kind amount fee)
        policy.max_per_hour)
      policy_reservation
