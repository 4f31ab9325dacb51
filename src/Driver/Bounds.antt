-- ===== src/Driver/Bounds.antt =====
-- A bound on the requests of a driver of src/treasury/operations.ts, through the steps that its loop is made of.
use sompi.Base.{
  ℕ, zero, suc, ◌≤◌, ◌≡◌, refl, true, false, not, Bool, String, Option, none, some, if◌then◌else◌,
  is_some, Result, ok, err, is_operation_key, arith,
}
use sompi.Treasury.Types.{Operation, DriverLease, Journal}
use sompi.Treasury.Tables.{find_operation}
use sompi.Treasury.Commands.{Command, observe}
use sompi.Driver.Process.{
  Preparation, Probe, Drive, returned, threw, read, read_capacity, transact, ask_prepare,
  ask_submit, ask_observe, ask,
}
use sompi.Driver.Loop.{with_row, required, recorded, commit_observed, reconcile, is_launched}
use sompi.Driver.Schedule.{advance}
use sompi.Driver.Runs.{Surroundings, answer_to, finish}

-- The driver is at its end after at most `n` requests, however they are answered.
abbrev pub EndsWithin : ℕ → Drive → Type 0
EndsWithin n (returned r) = Unit {0}
EndsWithin n threw = Unit {0}
EndsWithin zero _ = ⊥
EndsWithin (suc n) (read next) = (j : Journal) → EndsWithin n (next j)
EndsWithin (suc n) (read_capacity next) = (used : ℕ) → EndsWithin n (next used)
EndsWithin (suc n) (transact c next) = (m : Result Journal) (b : Bool) → EndsWithin n (next m b)
EndsWithin (suc n) (ask_prepare r next) = (a : Preparation) → EndsWithin n (next a)
EndsWithin (suc n) (ask_submit k r next) = (a : Option String) → EndsWithin n (next a)
EndsWithin (suc n) (ask_observe r next) = (a : Option Probe) → EndsWithin n (next a)
EndsWithin (suc n) (ask q next) = (b : Bool) → EndsWithin n (next b)

pub finish-EndsWithin :
    (s : Surroundings) (n i : ℕ) (d : Drive) (j : Journal)
    → EndsWithin n d
    → is_some (finish s n i d j) ≡ true
unfolding finish answer_to advance
finish-EndsWithin s n i (returned r) j h = refl
finish-EndsWithin s n i threw j h = refl
finish-EndsWithin s zero i _ j h = elim h [ ]
finish-EndsWithin s (suc n) i (read next) j h = finish-EndsWithin s n (suc i) _ _ (h _)
finish-EndsWithin s (suc n) i (read_capacity next) j h = finish-EndsWithin s n (suc i) _ _ (h _)
finish-EndsWithin s (suc n) i (transact c next) j h = finish-EndsWithin s n (suc i) _ _ (h _ _)
finish-EndsWithin s (suc n) i (ask_prepare r next) j h = finish-EndsWithin s n (suc i) _ _ (h _)
finish-EndsWithin s (suc n) i (ask_submit k r next) j h = finish-EndsWithin s n (suc i) _ _ (h _)
finish-EndsWithin s (suc n) i (ask_observe r next) j h = finish-EndsWithin s n (suc i) _ _ (h _)
finish-EndsWithin s (suc n) i (ask q next) j h = finish-EndsWithin s n (suc i) _ _ (h _)

pub sooner : (n m : ℕ) (d : Drive) → n ≤ m → EndsWithin n d → EndsWithin m d
sooner n m (returned r) le h = tt
sooner n m threw le h = tt
sooner zero m _ le h = elim h [ ]
sooner (suc n) zero d le h = absurd (omega (arith, le))
sooner (suc n) (suc m) (read next) le h = λ j. sooner n m (next j) (omega (arith, le)) (h j)
sooner (suc n) (suc m) (read_capacity next) le h =
    λ u. sooner n m (next u) (omega (arith, le)) (h u)
sooner (suc n) (suc m) (transact c next) le h =
    λ r b. sooner n m (next r b) (omega (arith, le)) (h r b)
sooner (suc n) (suc m) (ask_prepare r next) le h =
    λ a. sooner n m (next a) (omega (arith, le)) (h a)
sooner (suc n) (suc m) (ask_submit k r next) le h =
    λ a. sooner n m (next a) (omega (arith, le)) (h a)
sooner (suc n) (suc m) (ask_observe r next) le h =
    λ a. sooner n m (next a) (omega (arith, le)) (h a)
sooner (suc n) (suc m) (ask q next) le h = λ b. sooner n m (next b) (omega (arith, le)) (h b)

pub row_ends :
    (n : ℕ) (o : Option Operation) (next : Operation → Drive)
    → ((r : Operation) → EndsWithin n (next r))
    → EndsWithin n (with_row o next)
row_ends n none next h = tt
row_ends n (some r) next h = h r

pub if_ends :
    (n : ℕ) (b : Bool) (d e : Drive)
    → EndsWithin n d
    → EndsWithin n e
    → EndsWithin n (if b then d else e)
if_ends n true d e h k = h
if_ends n false d e h k = k

pub required_ends :
    (n : ℕ) (k : String) (next : Operation → Drive)
    → ((r : Operation) → EndsWithin n (next r))
    → EndsWithin (suc n) (required k next)
unfolding required
required_ends n k next h j =
    if_ends n (is_operation_key k) _ _ (row_ends n (find_operation k j.operations) next h) tt

pub result_ends :
    (n : ℕ) (m : Result Journal) (next : Journal → Drive)
    → ((j : Journal) → EndsWithin n (next j))
    → EndsWithin n (elim m [ err _ ↦ threw | ok j ↦ next j ])
result_ends n (err e) next h = tt
result_ends n (ok j) next h = h j

pub recorded_ends :
    (n : ℕ) (k : String) (c : (seen_at now : ℕ) → Command) (next : Operation → Drive)
    → ((r : Operation) → EndsWithin n (next r))
    → EndsWithin (suc n) (recorded k c next)
unfolding recorded
recorded_ends n k c next h m _ =
    result_ends n m _ λ j. row_ends n (find_operation k j.operations) next h

pub returned_ends :
    (n : ℕ) (k : String) (c : (seen_at now : ℕ) → Command)
    → EndsWithin (suc n) (recorded k c returned)
returned_ends n k c = recorded_ends n k c returned λ _. tt

pub committed_ends :
    (n : ℕ) (k : String) (lease : DriverLease) (r : Operation)
    → EndsWithin (suc (suc (suc n))) (commit_observed k lease r)
unfolding commit_observed
committed_ends n k lease r = λ stored.
    if_ends (suc (suc n)) (not stored) _ _ tt
      λ done. if_ends (suc n) (not done) _ _ tt (returned_ends n k _)

pub probed_ends :
    (n : ℕ) (k : String) (lease : DriverLease) (next : Operation → Drive)
    → ((r : Operation) → EndsWithin n (next r))
    → (p : Option Probe)
    → EndsWithin (suc n) (elim p [
      | none ↦ threw
      | some p ↦
          recorded k
            (λ seen_at now.
              observe k p.status p.digest p.json p.byte_length (some lease) seen_at now)
            next
    ])
probed_ends n k lease next h none = tt
probed_ends n k lease next h (some p) = recorded_ends n k _ next h

pub reconcile_ends :
    (n : ℕ) (k : String) (lease : DriverLease) (r : Operation) (next : Operation → Drive)
    → ((r : Operation) → EndsWithin n (next r))
    → EndsWithin (suc (suc (suc n))) (reconcile k lease r next)
unfolding reconcile
reconcile_ends n k lease r next h =
    if_ends (suc (suc (suc n))) (not (is_launched r.state)) _ _
      (sooner n (suc (suc (suc n))) (next r) (omega arith) (h r))
      λ stored.
        if_ends (suc (suc n)) (not stored) _ _ tt λ probe. probed_ends n k lease next h probe
