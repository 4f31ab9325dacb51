-- ===== src/Treasury/Preflight.antt =====
-- preflightTreasuryOperation of src/purchase/journal.ts, and what it promises of the intent that follows.
use sompi.Base.{
  ℕ, ◌≡◌, refl, ◌∙◌, true, ◌||◌, String, Option, none, some, List, [], ◌∷◌, map, ltb, str_eq,
  sum_by, Result, ok, ◌>>=◌, ◌>>◌, require, or_throw, invariant, policy_reservation, is_digest,
  is_bounded_text, arith,
}
use sompi.Treasury.Types.{
  OperationKind, OperationIntent, PolicySnapshot, Reservation, Journal, vault_deposit, same_kind,
}
use sompi.Treasury.Capacity.{
  expire_reservation, expire_reservations, reservation_use, policy_capacity_used,
  assert_direct_treasury_capacity, requested_or_zero,
}
use sompi.Treasury.Tables.{find_operation}
use sompi.Treasury.Intake.{
  validate_intent, transfer_approved, insert_allowed, insert_operation, claim_new_intent,
  claim_treasury_operation_intent,
}

-- TreasuryOperationPreflight, without the expectation of an approval that the Journal does not read.
pub record OperationPreflight : Type 0 where
  pub kind : OperationKind
  pub destination : String
  pub amount : ℕ
  pub fee_ceiling : ℕ
  pub policy_digest : String

-- validateTreasuryOperationPreflight.
unfoldable pub validate_preflight : OperationPreflight → Result (Unit {0})
validate_preflight input = do
  require (is_bounded_text input.destination 300) invariant
  require (same_kind input.kind vault_deposit || ltb 0 input.amount) policy_reservation
  require (is_digest input.policy_digest) invariant

-- preflightTreasuryOperation.
unfoldable pub preflight_treasury_operation :
    OperationPreflight → (now : ℕ) → Journal → Result (Unit {0})
preflight_treasury_operation input now j = do
  validate_preflight input
  policy ← or_throw j.active_policy policy_reservation
  require (str_eq policy.digest input.policy_digest) policy_reservation
  assert_direct_treasury_capacity j policy input.kind input.destination input.amount
      input.fee_ceiling now none

expired_use :
    (now : ℕ) (r : Reservation)
    → reservation_use now (expire_reservation now r) ≡ reservation_use now r
unfolding reservation_use expire_reservation
expired_use now r = ground arith

expired_uses :
    (now : ℕ) (rs : List Reservation)
    → sum_by (reservation_use now) (map (expire_reservation now) rs)
      ≡ sum_by (reservation_use now) rs
expired_uses now [] = refl
expired_uses now (r ∷ rs) = omega (arith, expired_use now r, expired_uses now rs)

-- The expiry of reservations frees no capacity that was still counted.
used-expire :
    (now : ℕ) (exclude : Option String) (j : Journal)
    → policy_capacity_used now exclude (expire_reservations now j)
      ≡ policy_capacity_used now exclude j
unfolding policy_capacity_used expire_reservations
used-expire now exclude j = omega (arith, expired_uses now j.reservations)

fits-expire :
    (j : Journal) (policy : PolicySnapshot) (kind : OperationKind) (destination : String)
    (amount fee now : ℕ)
    → assert_direct_treasury_capacity
        (expire_reservations now j)
        policy
        kind
        destination
        amount
        fee
        now
        none
      ≡ assert_direct_treasury_capacity j policy kind destination amount fee now none
unfolding assert_direct_treasury_capacity
fits-expire j policy kind destination amount fee now = rw (used-expire now none j) refl

-- The preflight of an intent.
abbrev pub preflight_of : OperationIntent → OperationPreflight
preflight_of input = record {
  kind = input.kind;
  destination = input.destination;
  amount = requested_or_zero input.requested_amount;
  fee_ceiling = input.fee_ceiling;
  policy_digest = input.policy_digest;
}

preflight-fits :
    (input : OperationPreflight) (now : ℕ) (j : Journal)
    → preflight_treasury_operation input now j ≡ ok tt
    → (policy : PolicySnapshot) × (j.active_policy ≡ some policy)
      × (str_eq policy.digest input.policy_digest ≡ true)
      × (assert_direct_treasury_capacity j policy input.kind input.destination input.amount
            input.fee_ceiling now none
          ≡ ok tt)
unfolding preflight_treasury_operation
preflight-fits input now j h = ground arith

-- A preflight that passes is kept: a valid intent under a new key with the same movement, with its approval where
-- it names one and with no other operation in the way, is admitted at that moment.
pub preflight-claim_intent :
    (input : OperationIntent) (now : ℕ) (j : Journal)
    → preflight_treasury_operation (preflight_of input) now j ≡ ok tt
    → validate_intent input ≡ ok tt
    → find_operation input.operation_key j.operations ≡ none
    → insert_allowed input j.operations ≡ true
    → transfer_approved input.operation_key input.authorization_evidence_digest j.approved_transfers
      ≡ true
    → claim_treasury_operation_intent input now j
      ≡ ok (insert_operation input now (expire_reservations now j))
unfolding claim_treasury_operation_intent claim_new_intent
preflight-claim_intent input now j h valid absent free approved =
    let (policy, active, digest, fits) = preflight-fits (preflight_of input) now j h in
    let still_fits =
      fits-expire j policy input.kind input.destination (requested_or_zero input.requested_amount)
        input.fee_ceiling now
      ∙ fits in
    simp (valid, absent, active, digest, approved, still_fits, free)
