-- ===== src/Purchase/Reservation/Open.antt =====
-- How many reservations of a Purchase are open over the calls of src/purchase/journal.ts: what the index
-- one_payment_reservation_per_purchase demands.
use sompi.Base.{
  ℕ, ◌≤◌, ◌≡◌, refl, inl, inr, Bool, Bool-cases, true, false, String, List, [], ◌∷◌, map, count_by,
  any_by, str_eq, ◌⊎◌, Error, Result, ok, err, arith, eq_iff,
}
use sompi.Purchase.Reservation.Limits.{reserve_new-ok, reserve_or_find-cases, reserve_policy-ok}
use sompi.Treasury.Types.{Reservation, Journal}
use sompi.Treasury.Capacity.{expire_reservation, expire_reservations}
use sompi.Purchase.Reservation.{
  Tables, ReservationInput, is_open, open_for, new_reservation, insert_reservation, reserve_policy,
}
use sompi.Purchase.Reservation.Calls.{
  Change, in_flight_claimed, settlement_final, abandoned_on, purchase_ended, changed, change_one,
  change_reservation, release_active_reservation, ReservationCall, reserve, release, change, expire,
  elsewhere, call, run, kept_on_error,
}

-- Each Purchase has at most one open reservation.
abbrev pub OneOpen : List Reservation → Type 0
OneOpen rs = (purchase_id : String) → count_by (open_for purchase_id) rs ≤ 1

map-count :
    (f : Reservation → Reservation)
    → ((p : String) (r : Reservation) → open_for p (f r) ≡ true → open_for p r ≡ true)
    → (p : String) (rs : List Reservation)
    → count_by (open_for p) (map f rs) ≤ count_by (open_for p) rs
map-count f closes p [] = omega arith
map-count f closes p (r ∷ rs) = elim (Bool-cases (open_for p (f r))) [
  | inl here ↦ ground (arith, here, closes p r here, map-count f closes p rs)
  | inr shut ↦ ground (arith, shut, map-count f closes p rs)
]

expire_closes :
    (now : ℕ) (p : String) (r : Reservation)
    → open_for p (expire_reservation now r) ≡ true
    → open_for p r ≡ true
unfolding open_for is_open expire_reservation
expire_closes now p r h = ground (arith, h)

change_closes :
    (c : Change) (id : String) (now : ℕ) (p : String) (r : Reservation)
    → open_for p (change_one c id now r) ≡ true
    → open_for p r ≡ true
unfolding open_for is_open change_one changed
change_closes in_flight_claimed id now p r h = ground (arith, h)
change_closes settlement_final id now p r h = ground (arith, h)
change_closes (abandoned_on digest) id now p r h = ground (arith, h)
change_closes purchase_ended id now p r h = ground (arith, h)

none_open :
    (p : String) (rs : List Reservation)
    → any_by (open_for p) rs ≡ false
    → count_by (open_for p) rs ≡ 0
none_open p [] h = refl
none_open p (r ∷ rs) h = ground (arith, h, none_open p rs)

other_purchase :
    (input : ReservationInput) (now : ℕ) (p : String)
    → str_eq input.purchase_id p ≡ false
    → open_for p (new_reservation input now) ≡ false
unfolding open_for new_reservation
other_purchase input now p h = ground (arith, h)

insert-OneOpen :
    (input : ReservationInput) (now : ℕ) (j : Journal)
    → any_by (open_for input.purchase_id) j.reservations ≡ false
    → OneOpen j.reservations
    → OneOpen (insert_reservation input now j).reservations
unfolding insert_reservation
insert-OneOpen input now j free one p = elim (Bool-cases (str_eq input.purchase_id p)) [
  | inl same ↦
      let free_of_p : any_by (open_for p) j.reservations ≡ false =
        rw ((eq_iff input.purchase_id p).0 same) at free in
      ground (arith, none_open p j.reservations free_of_p)
  | inr other ↦ ground (arith, other_purchase input now p other, one p)
]

map-OneOpen :
    (f : Reservation → Reservation) (rs : List Reservation)
    → ((p : String) (r : Reservation) → open_for p (f r) ≡ true → open_for p r ≡ true)
    → OneOpen rs
    → OneOpen (map f rs)
map-OneOpen f rs closes one p = omega (arith, map-count f closes p rs, one p)

expire-OneOpen :
    (now : ℕ) (j : Journal)
    → OneOpen j.reservations
    → OneOpen (expire_reservations now j).reservations
unfolding expire_reservations
expire-OneOpen now j one =
    map-OneOpen (expire_reservation now) j.reservations (expire_closes now) one

change-OneOpen :
    (c : Change) (id : String) (now : ℕ) (j : Journal)
    → OneOpen j.reservations
    → OneOpen (change_reservation c id now j).reservations
unfolding change_reservation
change-OneOpen c id now j one =
    map-OneOpen (change_one c id now) j.reservations (change_closes c id now) one

release-cases :
    (id : String) (now : ℕ) (j : Journal)
    → (kept_on_error j (release_active_reservation id now j) ≡ j)
      ⊎ (kept_on_error j (release_active_reservation id now j)
          ≡ change_reservation purchase_ended id now j)
unfolding release_active_reservation
release-cases id now j = ground arith

reserve-OneOpen :
    (store : String → Bool) (input : ReservationInput) (now : ℕ) (s s' : Tables)
    → reserve_policy store input now s ≡ ok s'
    → OneOpen s.journal.reservations
    → OneOpen s'.journal.reservations
reserve-OneOpen store input now s s' h one =
    let (p, policy, j, _, _, _, _, _, reserved, e) = reserve_policy-ok store input now s s' h in
    let base = expire_reservations now s.journal in
    let kept = expire-OneOpen now s.journal one in
    elim (reserve_or_find-cases _ policy input now base j reserved) [
      | inl found ↦ rw (e, found) kept
      | inr inserted ↦
          let (free, _, _, _, _, new) = reserve_new-ok _ policy input now base j inserted in
          rw (e, new) (insert-OneOpen input now base free kept)
    ]

returns_or_throws :
    {A : Type 0} (result : Result A)
    → ((a : A) × (result ≡ ok a)) ⊎ ((thrown : Error) × (result ≡ err thrown))
returns_or_throws (ok a) = inl (a, refl)
returns_or_throws (err thrown) = inr (thrown, refl)

call-OneOpen :
    (c : ReservationCall) (now : ℕ) (s : Tables)
    → OneOpen s.journal.reservations
    → OneOpen (call c now s).journal.reservations
unfolding call
call-OneOpen (reserve store input) now s one =
    elim (returns_or_throws (reserve_policy store input now s)) [
      | inl (s', h) ↦ rw h (reserve-OneOpen store input now s s' h one)
      | inr (thrown, h) ↦ rw h one
    ]
call-OneOpen (release id) now s one = elim (release-cases id now s.journal) [
  | inl same ↦ rw same one
  | inr shut ↦ rw shut (change-OneOpen purchase_ended id now s.journal one)
]
call-OneOpen (change c id) now s one = change-OneOpen c id now s.journal one
call-OneOpen expire now s one = expire-OneOpen now s.journal one
call-OneOpen (elsewhere next) now s one = one

-- From tables in which each Purchase has at most one open reservation (active, in flight or spent), as in
-- empty ones, no calls in any order, with any other writes between them, leave a Purchase with two.
pub run-OneOpen :
    (cs : List (ReservationCall × ℕ)) (s : Tables)
    → OneOpen s.journal.reservations
    → OneOpen (run cs s).journal.reservations
unfolding run
run-OneOpen [] s one = one
run-OneOpen ((c, now) ∷ cs) s one = run-OneOpen cs (call c now s) (call-OneOpen c now s one)
