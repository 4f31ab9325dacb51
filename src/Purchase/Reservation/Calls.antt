-- ===== src/Purchase/Reservation/Calls.antt =====
-- The calls of src/purchase/journal.ts that write treasury_reservations, in the order of their transactions.
use sompi.Base.{
  ℕ, Bool, String, some, List, [], ◌∷◌, map, str_eq, if◌then◌else◌, Result, ok, err, ◌>>=◌,
  or_throw, not_found, policy_reservation,
}
use sompi.Treasury.Types.{Reservation, active, in_flight, spent, released, Journal}
use sompi.Treasury.Capacity.{expire_reservations}
use sompi.Purchase.Reservation.{Tables, ReservationInput, find_reservation, reserve_policy}

-- The changes of a reservation's state in the effects of a payment: a staging or a submission is claimed, a
-- settlement is final, a payment or its staging is given up on the evidence of a digest, and a Purchase ends
-- before it had an effect.
pub data Change : Type 0 where
  in_flight_claimed : Change
  settlement_final : Change
  abandoned_on : (digest : String) → Change
  purchase_ended : Change

-- The UPDATE of each, `WHERE id = ? AND state = ...`.
unfoldable pub changed : Change → ℕ → Reservation → Reservation
changed in_flight_claimed now r = elim r.state [
  | active ↦ record r { state = in_flight; in_flight_at_ms = some now; updated_at_ms = now }
  | _ ↦ r
]
changed settlement_final now r = elim r.state [
  | in_flight ↦ record r { state = spent; spent_at_ms = some now; updated_at_ms = now }
  | _ ↦ r
]
changed (abandoned_on digest) now r = elim r.state [
  | in_flight ↦ record r {
    state = released;
    release_evidence_digest = some digest;
    updated_at_ms = now;
  }
  | _ ↦ r
]
changed purchase_ended now r = elim r.state [
  | active ↦ record r { state = released; updated_at_ms = now }
  | _ ↦ r
]

unfoldable pub change_one : Change → String → ℕ → Reservation → Reservation
unfolding changed
change_one c id now r = if str_eq r.id id then changed c now r else r

unfoldable pub change_reservation : Change → String → ℕ → Journal → Journal
unfolding change_one
change_reservation c id now j = record j { reservations = map (change_one c id now) j.reservations }

-- releaseActiveReservation.
unfoldable pub release_active_reservation : String → ℕ → Journal → Result Journal
unfolding find_reservation change_reservation
release_active_reservation id now j = do
  r ← or_throw (find_reservation id j.reservations) not_found
  elim r.state [
    | released ↦ ok j
    | active ↦ ok (change_reservation purchase_ended id now j)
    | _ ↦ err policy_reservation
  ]

-- A call, with the reading of the clock and what the evidence store reads back. `elsewhere` is any other write:
-- of Purchases, evidence, policies, operations or settlements, but not of reservations.
pub data ReservationCall : Type 0 where
  reserve : (store : String → Bool) → ReservationInput → ReservationCall
  release : (id : String) → ReservationCall
  change : Change → (id : String) → ReservationCall
  expire : ReservationCall
  elsewhere : Tables → ReservationCall

-- A call that throws leaves the tables as they were.
abbrev pub kept_on_error {ℓ} : {A : Type ℓ} → A → Result A → A
kept_on_error a (ok b) = b
kept_on_error a (err thrown) = a

unfoldable pub call : ReservationCall → ℕ → Tables → Tables
unfolding reserve_policy release_active_reservation change_reservation
call (reserve store input) now s = kept_on_error s (reserve_policy store input now s)
call (release id) now s = record s {
  journal = kept_on_error s.journal (release_active_reservation id now s.journal);
}
call (change c id) now s = record s { journal = change_reservation c id now s.journal }
call expire now s = record s { journal = expire_reservations now s.journal }
call (elsewhere next) now s = record next {
  journal = record next.journal { reservations = s.journal.reservations };
}

unfoldable pub run : List (ReservationCall × ℕ) → Tables → Tables
unfolding call
run [] s = s
run ((c, now) ∷ cs) s = run cs (call c now s)
