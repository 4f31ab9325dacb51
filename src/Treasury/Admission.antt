-- ===== src/Treasury/Admission.antt =====
-- What an admitted direct movement guarantees: claimTreasuryOperationIntent of src/purchase/journal.ts
-- against the capacity window.
use sompi.Base.{
  ℕ, ◌+◌, ◌≤◌, ◌≡◌, ◌≢◌, refl, true, false, String, Option, none, some, List, [], ◌∷◌, str_eq,
  any_by, Bool-cases, Error, Result, ok, err, arith, inl, inr, ◌⊎◌, eq_iff, includes, length,
  is_operation_key,
}
use sompi.Treasury.Types.{Operation, OperationKind, OperationIntent, PolicySnapshot, Journal}
use sompi.Treasury.Capacity.{
  expire_reservations, policy_capacity_used, gross_movement, assert_direct_treasury_capacity,
  operation_use, operation_use_except, keeps_principal, requested_or_zero,
}
use sompi.Treasury.Tables.{find_operation}
use sompi.Treasury.Intake.{
  claim_treasury_operation_intent, claim_new_intent, insert_operation, new_operation,
  validate_intent, unresolved, insert_allowed,
}

-- What assertDirectTreasuryCapacity lets through.
pub assert_direct_treasury_capacity-ok :
    (j : Journal) (policy : PolicySnapshot) (kind : OperationKind) (destination : String)
    (amount fee now : ℕ) (exclude : Option String)
    → assert_direct_treasury_capacity j policy kind destination amount fee now exclude ≡ ok tt
    → (policy_capacity_used now exclude j + gross_movement kind amount fee ≤ policy.max_per_hour)
      × ((keeps_principal kind ≡ true)
          ⊎ ((amount ≤ policy.max_per_payment)
              × ((length policy.allowlist ≡ 0) ⊎ (includes destination policy.allowlist ≡ true))))
unfolding assert_direct_treasury_capacity
assert_direct_treasury_capacity-ok j policy kind destination amount fee now exclude h = ground arith

new_operation-use :
    (input : OperationIntent) (now : ℕ)
    → operation_use now (new_operation input now)
      ≡ gross_movement input.kind (requested_or_zero input.requested_amount) input.fee_ceiling
unfolding operation_use new_operation gross_movement
new_operation-use input now = ground arith

key_not_empty : (key : String) → is_operation_key key ≡ true → str_eq key "" ≡ false
key_not_empty key h = elim (Bool-cases (str_eq key "")) [
  | inl same ↦ absurd (empty_refused (rw ((eq_iff key "").0 same) at h))
  | inr other ↦ other
]
  where
    empty_refused : is_operation_key "" ≡ true → ⊥
    empty_refused k = unfold is_operation_key in cc k

insert-used :
    (input : OperationIntent) (now : ℕ) (j : Journal)
    → str_eq input.operation_key "" ≡ false
    → policy_capacity_used now none (insert_operation input now j)
      ≡ policy_capacity_used now none j
        + gross_movement input.kind (requested_or_zero input.requested_amount) input.fee_ceiling
unfolding policy_capacity_used insert_operation operation_use_except
insert-used input now j named =
    let held : operation_use_except now none (new_operation input now)
        ≡ gross_movement input.kind (requested_or_zero input.requested_amount) input.fee_ceiling =
      own_use in
    omega (arith, held)
  where
    own_key : (new_operation input now).operation_key ≡ input.operation_key
    own_key = unfold new_operation in refl

    own_use :
        operation_use_except now none (new_operation input now)
        ≡ gross_movement input.kind (requested_or_zero input.requested_amount) input.fee_ceiling
    own_use = rw (own_key, named) (new_operation-use input now)

-- The facts behind a new intent that the Journal admits.
claim_new_intent-ok :
    (input : OperationIntent) (now : ℕ) (j j' : Journal)
    → claim_new_intent input now j ≡ ok j'
    → (policy : PolicySnapshot) × (j.active_policy ≡ some policy)
      × (str_eq policy.digest input.policy_digest ≡ true)
      × (assert_direct_treasury_capacity
            (expire_reservations now j)
            policy
            input.kind
            input.destination
            (requested_or_zero input.requested_amount)
            input.fee_ceiling
            now
            none
          ≡ ok tt)
      × (j' ≡ insert_operation input now (expire_reservations now j))
unfolding claim_new_intent
claim_new_intent-ok input now j j' h = ground arith

claim_valid :
    (input : OperationIntent) (now : ℕ) (j j' : Journal)
    → find_operation input.operation_key j.operations ≡ none
    → claim_treasury_operation_intent input now j ≡ ok j'
    → (is_operation_key input.operation_key ≡ true) × (claim_new_intent input now j ≡ ok j')
unfolding claim_treasury_operation_intent validate_intent
claim_valid input now j j' absent h = ground arith

-- A new intent that the Journal admits fits the policy that was active, and the one that it names: with it the
-- capacity in use, its principal and whole fee ceiling included, is within the hourly limit, and
-- unless it is a deposit or a channel refund its amount is within the payment limit and its
-- destination is on the allowlist, if there is one.
pub claim_intent-within_policy :
    (input : OperationIntent) (now : ℕ) (j j' : Journal)
    → find_operation input.operation_key j.operations ≡ none
    → claim_treasury_operation_intent input now j ≡ ok j'
    → (policy : PolicySnapshot) × (j.active_policy ≡ some policy)
      × (policy.digest ≡ input.policy_digest)
      × (policy_capacity_used now none j' ≤ policy.max_per_hour)
      × ((keeps_principal input.kind ≡ true)
          ⊎ ((requested_or_zero input.requested_amount ≤ policy.max_per_payment)
              × ((length policy.allowlist ≡ 0)
                  ⊎ (includes input.destination policy.allowlist ≡ true))))
claim_intent-within_policy input now j j' absent h =
    let (valid, k) = claim_valid input now j j' absent h in
    let (policy, active, digest, fits, e) = claim_new_intent-ok input now j j' k in
    let base = expire_reservations now j in
    let (hour, payee) =
      assert_direct_treasury_capacity-ok base policy input.kind input.destination
        (requested_or_zero input.requested_amount) input.fee_ceiling now none fits in
    let used = insert-used input now base (key_not_empty input.operation_key valid) in
    (policy, active, (eq_iff policy.digest input.policy_digest).0 digest, rw (e, used) hour, payee)

count_unresolved :
    (rs : List Operation) (key : String) (r : Operation)
    → find_operation key rs ≡ some r
    → unresolved r ≡ true
    → any_by unresolved rs ≡ true
unfolding find_operation
count_unresolved [] key r h u = cc
count_unresolved (x ∷ rs) key r h u = ground (arith, count_unresolved rs key r)

blocked :
    (input : OperationIntent) (now : ℕ) (j j' : Journal)
    → any_by unresolved j.operations ≡ true
    → claim_new_intent input now j ≡ ok j'
    → ⊥
unfolding claim_new_intent insert_allowed
blocked input now j j' u h = ground arith

refused : (m : Result Journal) → ((j' : Journal) → m ≢ ok j') → (e : Error) × (m ≡ err e)
refused (ok j') h = absurd (h j' refl)
refused (err e) h = (e, refl)

-- While any operation is unresolved, every intent under a new key is refused with an error.
pub claim_intent-exclusive :
    (input : OperationIntent) (now : ℕ) (j : Journal) (key : String) (r : Operation)
    → find_operation key j.operations ≡ some r
    → unresolved r ≡ true
    → find_operation input.operation_key j.operations ≡ none
    → (e : Error) × (claim_treasury_operation_intent input now j ≡ err e)
claim_intent-exclusive input now j key r held open_row absent =
    refused (claim_treasury_operation_intent input now j) (λ j' h.
      blocked input now j j' (count_unresolved j.operations key r held open_row)
        (claim_valid input now j j' absent h).1)
