-- ===== src/Examples/Reserved.antt =====
-- The theorems on reservations of Purchases (src/purchase/journal.ts) at a concrete Purchase.
use sompi.Base.{
  Bool, true, false, String, Option, none, some, List, [], ◌∷◌, ◌≡◌, refl, ℕ, ◌+◌, ◌≤◌, ◌⊎◌,
  count_by, length, includes, Result, ok, arith, find_row,
}
use sompi.Base
use sompi.Treasury.Types.{PolicySnapshot}
use sompi.Treasury.Capacity
use sompi.Treasury.Capacity.{policy_capacity_used}
use sompi.Purchase.Lifecycle.{authorised}
use sompi.Purchase.Reservation
use sompi.Purchase.Reservation.{
  Tables, Purchase, CheckoutTerms, PurchaseDecision, EvidenceLink, Verification, ReservationInput,
  reserve_policy, find_reservation, insert_reservation, new_reservation,
}
use sompi.Purchase.Reservation.Calls.{
  ReservationCall, reserve, release, change, expire, in_flight_claimed, settlement_final, run,
}
use sompi.Purchase.Reservation.Open.{OneOpen, run-OneOpen}
use sompi.Purchase.Reservation.Limits.{reserve_policy-within_policy}
use sompi.Examples.Data

abbrev terms : CheckoutTerms
terms = record { amount = 700; pay_to = Data.payee; expires_at_ms = 9000 }

abbrev decision : PurchaseDecision
decision = record {
  approved = true;
  evidence_digest = Data.other_digest;
  verification_profile = "owner-key";
  verifier_id = "owner";
}

abbrev purchase : Purchase
purchase = record {
  id = "purchase-1";
  state = authorised;
  terms = some terms;
  decision = some decision;
  request_cost_ceiling = some 50;
}

abbrev tables : Tables
tables = record {
  journal = Data.start;
  purchases = purchase ∷ [];
  links =
      record {
        purchase_id = "purchase-1";
        digest = Data.other_digest;
        attempt = none;
        kind = "purchase-authorization";
      }
      ∷ [];
  verifications =
      record { digest = Data.other_digest; profile = "owner-key"; verifier_id = "owner" } ∷ [];
}

abbrev input : ReservationInput
input = record {
  id = "reservation-1";
  purchase_id = "purchase-1";
  policy_digest = Data.policy_digest;
  payee = Data.payee;
  amount = 700;
  additional_cost_ceiling = 30;
  expires_at_ms = 8000;
  approval_evidence_digest = some Data.other_digest;
  approval_verification_profile = some "owner-key";
  approval_verifier_id = some "owner";
}

abbrev reads_back : String → Bool
reads_back digest = true

abbrev reserved_tables : Tables
unfolding Reservation.insert_reservation
reserved_tables = record tables { journal = insert_reservation input 1000 Data.start }

admitted : reserve_policy reads_back input 1000 tables ≡ ok reserved_tables
unfolding Reservation.reserve_policy Reservation.validate_reservation Reservation.bound_to_purchase
    Reservation.reserve_or_find Reservation.reserve_new Reservation.find_reservation
    Reservation.insert_reservation Reservation.verified_evidence_linked Reservation.open_for
    Capacity.expire_reservations Capacity.policy_capacity_used Base.find_row Base.is_digest
    Base.is_code Base.is_bounded_text Base.is_safe_identity
admitted = refl

absent : find_reservation "reservation-1" Data.start.reservations ≡ none
unfolding Reservation.find_reservation Base.find_row
absent = refl

reserve_policy-within_policy_example :
    (p : Purchase) × (terms : CheckoutTerms) × (decision : PurchaseDecision)
    × (policy : PolicySnapshot) × (find_row (λ p. p.id) "purchase-1" tables.purchases ≡ some p)
    × (p.terms ≡ some terms)
    × (p.decision ≡ some decision)
    × (decision.approved ≡ true)
    × (700 ≡ terms.amount)
    × (Data.payee ≡ terms.pay_to)
    × (8000 ≤ terms.expires_at_ms)
    × (Data.start.active_policy ≡ some policy)
    × (policy.digest ≡ Data.policy_digest)
    × (policy_capacity_used 1000 none reserved_tables.journal ≤ policy.max_per_hour)
    × (700 + 30 ≤ policy.max_per_payment)
    × ((length policy.allowlist ≡ 0) ⊎ (includes Data.payee policy.allowlist ≡ true))
reserve_policy-within_policy_example =
    reserve_policy-within_policy reads_back input 1000 tables reserved_tables absent admitted

abbrev calls : List (ReservationCall × ℕ)
calls =
    (reserve reads_back input, 1000)
    ∷ (reserve reads_back (record input { id = "reservation-2" }), 1001)
    ∷ (change in_flight_claimed "reservation-1", 1002)
    ∷ (release "reservation-1", 1003)
    ∷ (change settlement_final "reservation-1", 1004)
    ∷ (expire, 9000)
    ∷ []

empty : OneOpen tables.journal.reservations
empty purchase_id = omega arith

run-OneOpen_example : OneOpen (run calls tables).journal.reservations
run-OneOpen_example = run-OneOpen calls tables empty
