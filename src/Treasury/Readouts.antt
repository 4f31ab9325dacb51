-- ===== src/Treasury/Readouts.antt =====
-- The read-outs of capacity in src/purchase/journal.ts: treasuryPolicyCapacityUsed,
-- treasuryPendingCapacityUsed and treasuryOperationSpentLastHour. The amounts of a completed row are the ones
-- its table requires.
use sompi.Base.{
  ℕ, ◌+◌, ◌≡◌, refl, Bool, true, false, not, ◌&&◌, ◌||◌, none, some, List, [], ◌∷◌, str_eq, is_some,
  if◌then◌else◌, sum_by, arith,
}
use sompi.Treasury.Types.{Operation, completed, same_state, Journal}
use sompi.Treasury.Rows.{is_terminal}
use sompi.Treasury.Capacity.{
  expire_reservations, policy_capacity_used, reservation_use, settlement_use, recovery_use,
  operation_amount, operation_fee, operation_counts, operation_use, operation_use_except,
  keeps_principal, get_or, in_window,
}

-- treasuryPolicyCapacityUsed, with the tables that it leaves.
unfoldable pub treasury_policy_capacity_used : ℕ → Journal → Journal × ℕ
treasury_policy_capacity_used now j =
    let base = expire_reservations now j in (base, policy_capacity_used now none base)

-- An unresolved operation at its principal and its fee ceiling.
unfoldable pub pending_use : Operation → ℕ
pending_use r = if is_terminal r.state then 0 else operation_amount r + r.fee_ceiling

-- treasuryPendingCapacityUsed, with the tables that it leaves.
unfoldable pub treasury_pending_capacity_used : ℕ → Journal → Journal × ℕ
treasury_pending_capacity_used now j =
    let base = expire_reservations now j in
    (base, sum_by (reservation_use now) base.reservations + sum_by pending_use base.operations)

-- A completed operation of the last hour at its real amount and fee.
unfoldable pub spent_use : ℕ → Operation → ℕ
spent_use now r = elim r.completed_at_ms [
  | none ↦ 0
  | some at ↦
      if same_state r.state completed && in_window now at
      then (if keeps_principal r.kind then 0 else get_or r.resolved_amount 0) + get_or r.fee 0
      else 0
]

-- treasuryOperationSpentLastHour.
unfoldable pub treasury_operation_spent_last_hour : ℕ → Journal → ℕ
treasury_operation_spent_last_hour now j = sum_by (spent_use now) j.operations

-- A row as its table keeps it: a key that is not empty, and a completed row with its amounts.
abbrev pub is_kept : Operation → Bool
is_kept r =
    not (str_eq r.operation_key "")
    && (not (same_state r.state completed) || (is_some r.resolved_amount && is_some r.fee))

abbrev pub all_kept : List Operation → Bool
all_kept [] = true
all_kept (r ∷ rs) = is_kept r && all_kept rs

row_use :
    (now : ℕ) (r : Operation)
    → is_kept r ≡ true
    → operation_use_except now none r ≡ pending_use r + spent_use now r
unfolding operation_use_except operation_use operation_counts operation_amount operation_fee
    pending_use spent_use
row_use now r h = ground arith

rows_use :
    (now : ℕ) (rs : List Operation)
    → all_kept rs ≡ true
    → sum_by (operation_use_except now none) rs ≡ sum_by pending_use rs + sum_by (spent_use now) rs
rows_use now [] h = refl
rows_use now (r ∷ rs) h =
    let (here, there) = both (is_kept r) (all_kept rs) h in
    omega (arith, row_use now r here, rows_use now rs there)
  where
    both : (a b : Bool) → (a && b) ≡ true → (a ≡ true) × (b ≡ true)
    both true b k = (refl, k)
    both false b k = cc

-- The read-outs agree: where every key is not empty and every completed row has its amounts, the capacity
-- in use is what is pending, what direct operations spent in the last hour, and the settlements
-- and recoveries of that hour.
pub treasury_policy_capacity_used-split :
    (now : ℕ) (j : Journal)
    → all_kept j.operations ≡ true
    → (treasury_policy_capacity_used now j).1
      ≡ (treasury_pending_capacity_used now j).1
        + treasury_operation_spent_last_hour now j
        + sum_by (settlement_use now) j.settlements
        + sum_by (recovery_use now) j.recoveries
unfolding treasury_policy_capacity_used treasury_pending_capacity_used
    treasury_operation_spent_last_hour policy_capacity_used expire_reservations
treasury_policy_capacity_used-split now j h = omega (arith, rows_use now j.operations h)
