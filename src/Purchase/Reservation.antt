-- ===== src/Purchase/Reservation.antt =====
-- Treasury reservations of Purchases: reservePolicy, releaseActiveReservation and the UPDATE statements on
-- treasury_reservations in src/purchase/journal.ts. Whether the evidence store reads an artifact back is an argument.
pub mod Calls
pub mod Open
pub mod Limits
use sompi.Base.{
  ℕ, Bool, true, false, ◌&&◌, ◌||◌, not, String, Option, none, some, List, [], ◌∷◌, leb, ltb, ◌+◌,
  ◌==◌, str_eq, opt_eq, is_some, if◌then◌else◌, any_by, length, includes, map, Result, ok, err,
  ◌>>=◌, ◌>>◌, require, or_throw, invariant, not_found, policy_reservation, is_digest, is_code,
  is_bounded_text, is_safe_identity, find_row,
}
use sompi.Purchase.Lifecycle.{PurchaseState, authorised, execution_prepared, same_state}
use sompi.Treasury.Types.{
  Reservation, ReservationState, active, in_flight, spent, released, PolicySnapshot, Journal,
}
use sompi.Treasury.Capacity.{expire_reservations, policy_capacity_used}

-- A row of purchase_checkout_terms, as far as a reservation reads it.
pub record CheckoutTerms : Type 0 where
  pub amount : ℕ
  pub pay_to : String
  pub expires_at_ms : ℕ

-- The decision on a Purchase.
pub record PurchaseDecision : Type 0 where
  pub approved : Bool
  pub evidence_digest : String
  pub verification_profile : String
  pub verifier_id : String

-- A Purchase and the rows that belong to it; the request is its ceiling of additional costs.
pub record Purchase : Type 0 where
  pub id : String
  pub state : PurchaseState
  pub terms : Option CheckoutTerms
  pub decision : Option PurchaseDecision
  pub request_cost_ceiling : Option ℕ

-- A row of evidence_links, and one of evidence_verifications.
pub record EvidenceLink : Type 0 where
  pub purchase_id : String
  pub digest : String
  pub attempt : Option ℕ
  pub kind : String

pub record Verification : Type 0 where
  pub digest : String
  pub profile : String
  pub verifier_id : String

pub record Tables : Type 0 where
  pub journal : Journal
  pub purchases : List Purchase
  pub links : List EvidenceLink
  pub verifications : List Verification

-- PolicyReservationInput.
pub record ReservationInput : Type 0 where
  pub id : String
  pub purchase_id : String
  pub policy_digest : String
  pub payee : String
  pub amount : ℕ
  pub additional_cost_ceiling : ℕ
  pub expires_at_ms : ℕ
  pub approval_evidence_digest : Option String
  pub approval_verification_profile : Option String
  pub approval_verifier_id : Option String

-- `if (value) assert(value)`, where an empty text is no value.
abbrev pub unless_empty : (String → Bool) → Option String → Bool
unless_empty test none = true
unless_empty test (some s) = str_eq s "" || test s

abbrev same_presence : Option String → Option String → Bool
same_presence none b = not (is_some b)
same_presence (some a) b = is_some b

-- validatePolicyReservationInput.
unfoldable pub validate_reservation : ReservationInput → Result (Unit {0})
validate_reservation input = do
  require (is_code input.id && is_digest input.policy_digest && is_bounded_text input.payee 300)
      invariant
  require (ltb 0 input.amount) policy_reservation
  require (leb input.expires_at_ms 9007199254740991) policy_reservation
  require (unless_empty is_digest input.approval_evidence_digest) invariant
  require
      (same_presence input.approval_evidence_digest input.approval_verification_profile
        && same_presence input.approval_evidence_digest input.approval_verifier_id)
      policy_reservation
  require
      (unless_empty (λ s. is_safe_identity s 200) input.approval_verification_profile
        && unless_empty (λ s. is_safe_identity s 200) input.approval_verifier_id)
      invariant

-- assertSameReservation.
unfoldable pub same_reservation : Reservation → ReservationInput → Bool
same_reservation r input =
    str_eq r.purchase_id input.purchase_id
    && str_eq r.policy_digest input.policy_digest
    && opt_eq str_eq r.approval_evidence_digest input.approval_evidence_digest
    && opt_eq str_eq r.approval_verification_profile input.approval_verification_profile
    && opt_eq str_eq r.approval_verifier_id input.approval_verifier_id
    && str_eq r.payee input.payee
    && r.amount == input.amount
    && r.additional_cost_ceiling == input.additional_cost_ceiling
    && r.expires_at_ms == input.expires_at_ms

-- `state IN ('active', 'in_flight', 'spent')`.
unfoldable pub is_open : Reservation → Bool
is_open r = elim r.state [ active ↦ true | in_flight ↦ true | spent ↦ true | _ ↦ false ]

-- `WHERE purchase_id = ? AND state IN ('active', 'in_flight', 'spent')`.
unfoldable pub open_for : String → Reservation → Bool
unfolding is_open
open_for purchase_id r = str_eq r.purchase_id purchase_id && is_open r

-- A clause of the SELECT, which an option that is not given leaves out.
abbrev asked_for : Option String → String → Bool
asked_for none value = true
asked_for (some s) value = str_eq value s

-- isVerifiedEvidenceLinked, for a decision on a Purchase; `store` says which artifacts read back.
unfoldable pub verified_evidence_linked :
    (store : String → Bool) → String → Option String → Option String → Option String → Tables → Bool
verified_evidence_linked store purchase_id none profile verifier s = false
verified_evidence_linked store purchase_id (some digest) profile verifier s =
    not (str_eq digest "")
    && any_by
        (λ l.
          str_eq l.purchase_id purchase_id
          && str_eq l.digest digest
          && not (is_some l.attempt)
          && str_eq l.kind "purchase-authorization")
        s.links
    && any_by
        (λ v.
          str_eq v.digest digest && asked_for profile v.profile && asked_for verifier v.verifier_id)
        s.verifications
    && store digest

-- What a reservation must say of its Purchase: the tests ahead of the policy.
unfoldable pub bound_to_purchase : ReservationInput → Purchase → Result (Unit {0})
bound_to_purchase input p = do
  require (same_state p.state authorised || same_state p.state execution_prepared)
      policy_reservation
  terms ← or_throw p.terms not_found
  decision ← or_throw p.decision not_found
  ceiling ← or_throw p.request_cost_ceiling not_found
  require decision.approved policy_reservation
  require (input.amount == terms.amount && str_eq input.payee terms.pay_to) policy_reservation
  require (leb input.additional_cost_ceiling ceiling) policy_reservation
  require
      (opt_eq str_eq input.approval_evidence_digest (some decision.evidence_digest)
        && opt_eq str_eq input.approval_verification_profile (some decision.verification_profile)
        && opt_eq str_eq input.approval_verifier_id (some decision.verifier_id))
      policy_reservation
  require (leb input.expires_at_ms terms.expires_at_ms) policy_reservation

unfoldable pub new_reservation : ReservationInput → ℕ → Reservation
new_reservation input now = record {
  id = input.id;
  purchase_id = input.purchase_id;
  policy_digest = input.policy_digest;
  approval_evidence_digest = input.approval_evidence_digest;
  approval_verification_profile = input.approval_verification_profile;
  approval_verifier_id = input.approval_verifier_id;
  payee = input.payee;
  amount = input.amount;
  additional_cost_ceiling = input.additional_cost_ceiling;
  state = active;
  expires_at_ms = input.expires_at_ms;
  created_at_ms = now;
  updated_at_ms = now;
  in_flight_at_ms = none;
  spent_at_ms = none;
  release_evidence_digest = none;
}

unfoldable pub insert_reservation : ReservationInput → ℕ → Journal → Journal
unfolding new_reservation
insert_reservation input now j = record j {
  reservations = new_reservation input now ∷ j.reservations;
}

-- reservePolicy under a new ID: the tests of the policy's limits, and the INSERT. `evidence` is the test of the
-- linked evidence.
unfoldable pub reserve_new :
    (evidence : Bool) → PolicySnapshot → ReservationInput → ℕ → Journal → Result Journal
unfolding open_for insert_reservation
reserve_new evidence policy input now j = do
  require (not (any_by (open_for input.purchase_id) j.reservations)) policy_reservation
  require (length policy.allowlist == 0 || includes input.payee policy.allowlist) policy_reservation
  require (ltb 0 policy.max_per_payment) policy_reservation
  require (ltb 0 policy.max_per_hour) policy_reservation
  require (leb (input.amount + input.additional_cost_ceiling) policy.max_per_payment)
      policy_reservation
  require evidence policy_reservation
  require
      (leb (policy_capacity_used now none j + (input.amount + input.additional_cost_ceiling))
        policy.max_per_hour)
      policy_reservation
  ok (insert_reservation input now j)

-- findReservation.
unfoldable pub find_reservation : String → List Reservation → Option Reservation
find_reservation id rs = find_row (λ r. r.id) id rs

unfoldable pub reserve_or_find :
    (evidence : Bool) → PolicySnapshot → ReservationInput → ℕ → Journal → Result Journal
unfolding find_reservation
reserve_or_find evidence policy input now j = elim (find_reservation input.id j.reservations) [
  | some r ↦ if same_reservation r input then ok j else err invariant
  | none ↦ reserve_new evidence policy input now j
]

-- reservePolicy, up to the tables that it leaves.
unfoldable pub reserve_policy :
    (store : String → Bool) → ReservationInput → ℕ → Tables → Result Tables
unfolding bound_to_purchase verified_evidence_linked
reserve_policy store input now s = do
  validate_reservation input
  p ← or_throw (find_row (λ p. p.id) input.purchase_id s.purchases) not_found
  bound_to_purchase input p
  policy ← or_throw s.journal.active_policy policy_reservation
  require (str_eq policy.digest input.policy_digest) policy_reservation
  require (ltb now input.expires_at_ms) policy_reservation
  j ←
      reserve_or_find
        (verified_evidence_linked store input.purchase_id input.approval_evidence_digest
          input.approval_verification_profile input.approval_verifier_id s)
        policy input now (expire_reservations now s.journal)
  ok (record s { journal = j })
