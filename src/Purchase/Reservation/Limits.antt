-- ===== src/Purchase/Reservation/Limits.antt =====
-- What a reservation that reservePolicy of src/purchase/journal.ts admits promises: its Purchase, and the limits of the policy.
use sompi.Base.{
  ℕ, ◌+◌, ◌≤◌, ◌≡◌, refl, ◌⊎◌, Bool, true, false, String, Option, none, some, List, [], ◌∷◌, any_by,
  map, ltb, length, includes, str_eq, ok, >>=-eq-ok, require, or_throw, Error, find_row, not_found,
  policy_reservation, arith, eq_iff,
}
use sompi.Treasury.Types.{Reservation, Journal, PolicySnapshot}
use sompi.Treasury.Capacity.{
  expire_reservation, expire_reservations, policy_capacity_used, reservation_use,
}
use sompi.Purchase.Reservation.{
  Tables, Purchase, CheckoutTerms, PurchaseDecision, ReservationInput, open_for, new_reservation,
  insert_reservation, reserve_new, reserve_or_find, reserve_policy, bound_to_purchase,
  validate_reservation, find_reservation, verified_evidence_linked,
}

pub reserve_new-ok :
    (evidence : Bool) (policy : PolicySnapshot) (input : ReservationInput) (now : ℕ)
    (j j' : Journal)
    → reserve_new evidence policy input now j ≡ ok j'
    → (any_by (open_for input.purchase_id) j.reservations ≡ false)
      × ((length policy.allowlist ≡ 0) ⊎ (includes input.payee policy.allowlist ≡ true))
      × (input.amount + input.additional_cost_ceiling ≤ policy.max_per_payment)
      × (evidence ≡ true)
      × (policy_capacity_used now none j + (input.amount + input.additional_cost_ceiling)
          ≤ policy.max_per_hour)
      × (j' ≡ insert_reservation input now j)
unfolding reserve_new
reserve_new-ok evidence policy input now j j' h = ground arith

pub reserve_or_find-cases :
    (evidence : Bool) (policy : PolicySnapshot) (input : ReservationInput) (now : ℕ)
    (j j' : Journal)
    → reserve_or_find evidence policy input now j ≡ ok j'
    → (j' ≡ j) ⊎ (reserve_new evidence policy input now j ≡ ok j')
unfolding reserve_or_find
reserve_or_find-cases evidence policy input now j j' h = ground arith

-- reservePolicy reaches the tests of the policy's limits with the active policy, for a Purchase that it is bound to.
pub reserve_policy-ok :
    (store : String → Bool) (input : ReservationInput) (now : ℕ) (s s' : Tables)
    → reserve_policy store input now s ≡ ok s'
    → (p : Purchase) × (policy : PolicySnapshot) × (j : Journal) × (find_row
          (λ p. p.id)
          input.purchase_id
          s.purchases
        ≡ some p)
      × (bound_to_purchase input p ≡ ok tt)
      × (s.journal.active_policy ≡ some policy)
      × (str_eq policy.digest input.policy_digest ≡ true)
      × (ltb now input.expires_at_ms ≡ true)
      × (reserve_or_find
            (verified_evidence_linked store input.purchase_id input.approval_evidence_digest
              input.approval_verification_profile input.approval_verifier_id s)
            policy
            input
            now
            (expire_reservations now s.journal)
          ≡ ok j)
      × (s' ≡ record s { journal = j })
unfolding reserve_policy
reserve_policy-ok store input now s s' h =
    let (valid, _, h1) = >>=-eq-ok (validate_reservation input) _ h in
    let (p, found, h2) =
      >>=-eq-ok (or_throw (find_row (λ p. p.id) input.purchase_id s.purchases) not_found) _ h1 in
    let (bound, is_bound, h3) = >>=-eq-ok (bound_to_purchase input p) _ h2 in
    let (policy, is_active, h4) =
      >>=-eq-ok (or_throw s.journal.active_policy policy_reservation) _ h3 in
    let (same, is_same, h5) =
      >>=-eq-ok (require (str_eq policy.digest input.policy_digest) policy_reservation) _ h4 in
    let (later, is_later, h6) =
      >>=-eq-ok (require (ltb now input.expires_at_ms) policy_reservation) _ h5 in
    let (j, reserved, h7) =
      >>=-eq-ok (reserve_or_find _ policy input now (expire_reservations now s.journal)) _ h6 in
    (
      p,
      policy,
      j,
      thrown_unless _ _ found,
      is_bound,
      thrown_unless _ _ is_active,
      required _ _ is_same,
      required _ _ is_later,
      reserved,
      returns h7,
    )
  where
    thrown_unless :
        {A : Type 0} {a : A} (e : Error) (o : Option A) → or_throw o e ≡ ok a → o ≡ some a
    thrown_unless e none k = cc
    thrown_unless e (some a) k = cc

    required : {u : Unit {0}} (e : Error) (b : Bool) → require b e ≡ ok u → b ≡ true
    required e true k = refl
    required e false k = cc

    returns : {a b : Tables} → ok a ≡ ok b → b ≡ a
    returns k = cc

-- What a reservation's Purchase says of it.
bound_to_purchase-ok :
    (input : ReservationInput) (p : Purchase)
    → bound_to_purchase input p ≡ ok tt
    → (terms : CheckoutTerms) × (decision : PurchaseDecision) × (p.terms ≡ some terms)
      × (p.decision ≡ some decision)
      × (decision.approved ≡ true)
      × (input.amount ≡ terms.amount)
      × (str_eq input.payee terms.pay_to ≡ true)
      × (input.expires_at_ms ≤ terms.expires_at_ms)
unfolding bound_to_purchase
bound_to_purchase-ok input p h = ground (arith, h)

new_reservation-use :
    (input : ReservationInput) (now : ℕ)
    → ltb now input.expires_at_ms ≡ true
    → reservation_use now (new_reservation input now) ≡ input.amount + input.additional_cost_ceiling
unfolding reservation_use new_reservation
new_reservation-use input now later = ground (arith, later)

insert-used :
    (input : ReservationInput) (now : ℕ) (j : Journal)
    → ltb now input.expires_at_ms ≡ true
    → policy_capacity_used now none (insert_reservation input now j)
      ≡ policy_capacity_used now none j + (input.amount + input.additional_cost_ceiling)
unfolding policy_capacity_used insert_reservation
insert-used input now j later = omega (arith, new_reservation-use input now later)

find-expired :
    (id : String) (now : ℕ) (rs : List Reservation)
    → find_row (λ r. r.id) id rs ≡ none
    → find_row (λ r. r.id) id (map (expire_reservation now) rs) ≡ none
unfolding find_row
find-expired id now [] h = refl
find-expired id now (r ∷ rs) h = ground (arith, h, same_id r, find-expired id now rs)
  where
    same_id : (r : Reservation) → (expire_reservation now r).id ≡ r.id
    same_id r = unfold expire_reservation in ground arith

reserve_new_if_absent :
    (evidence : Bool) (policy : PolicySnapshot) (input : ReservationInput) (now : ℕ)
    (j j' : Journal)
    → find_reservation input.id j.reservations ≡ none
    → reserve_or_find evidence policy input now (expire_reservations now j) ≡ ok j'
    → reserve_new evidence policy input now (expire_reservations now j) ≡ ok j'
unfolding reserve_or_find expire_reservations find_reservation
reserve_new_if_absent evidence policy input now j j' absent h =
    rw (reserve_or_find, find-expired input.id now j.reservations absent) at h

-- A new reservation that reservePolicy admits is for a Purchase whose approved decision and terms the Journal
-- holds, over exactly their amount and payee and no longer than they last, under the active policy, which it names: with it the
-- capacity in use, its additional costs included, is within the hourly limit, it is within the payment limit,
-- and its payee is on the allowlist, if there is one.
pub reserve_policy-within_policy :
    (store : String → Bool) (input : ReservationInput) (now : ℕ) (s s' : Tables)
    → find_reservation input.id s.journal.reservations ≡ none
    → reserve_policy store input now s ≡ ok s'
    → (p : Purchase) × (terms : CheckoutTerms) × (decision : PurchaseDecision)
      × (policy : PolicySnapshot) × (find_row (λ p. p.id) input.purchase_id s.purchases ≡ some p)
      × (p.terms ≡ some terms)
      × (p.decision ≡ some decision)
      × (decision.approved ≡ true)
      × (input.amount ≡ terms.amount)
      × (input.payee ≡ terms.pay_to)
      × (input.expires_at_ms ≤ terms.expires_at_ms)
      × (s.journal.active_policy ≡ some policy)
      × (policy.digest ≡ input.policy_digest)
      × (policy_capacity_used now none s'.journal ≤ policy.max_per_hour)
      × (input.amount + input.additional_cost_ceiling ≤ policy.max_per_payment)
      × ((length policy.allowlist ≡ 0) ⊎ (includes input.payee policy.allowlist ≡ true))
reserve_policy-within_policy store input now s s' absent h =
    let (p, policy, j, found, bound, is_active, digest, later, reserved, e) =
      reserve_policy-ok store input now s s' h in
    let base = expire_reservations now s.journal in
    let (_, payees, payment, _, hour, new) =
      reserve_new-ok _ policy input now base j
        (reserve_new_if_absent _ policy input now s.journal j absent reserved) in
    let (terms, decision, has_terms, has_decision, approved, amount, payee, lasts) =
      bound_to_purchase-ok input p bound in
    let used = insert-used input now base later in
    (
      p,
      terms,
      decision,
      policy,
      found,
      has_terms,
      has_decision,
      approved,
      amount,
      (eq_iff input.payee terms.pay_to).0 payee,
      lasts,
      is_active,
      (eq_iff policy.digest input.policy_digest).0 digest,
      rw (e, new, used) hour,
      payment,
      payees,
    )
