-- ===== src/Driver/Schedule.antt =====
-- Any number of drivers of src/treasury/operations.ts, in one process or in many, over one Journal: a
-- schedule says who moves next and how its request is answered.
use sompi.Base.{ℕ, zero, suc, Bool, String, Option, List, [], ◌∷◌, ◌++◌, str_eq, count_by}
use sompi.Treasury.Types.{Journal}
use sompi.Treasury.Readouts.{treasury_policy_capacity_used}
use sompi.Treasury.Commands.{Command, call, committed}
use sompi.Driver.Process.{
  Preparation, Probe, Drive, read, read_capacity, transact, ask_prepare, ask_submit, ask_observe,
  ask, answered,
}
use sompi.Driver.Loop.{drive}

-- How the surroundings answer a request; of a transaction they choose the clock.
pub data Answer : Type 0 where
  clock : (seen_at now : ℕ) → Answer
  preparation : Preparation → Answer
  submission : Option String → Answer
  observation : Option Probe → Answer
  reply : Bool → Answer

-- One driver after its next request, with the tables and the key whose bytes it handed to an adapter, if it did.
pub record Advanced : Type 0 where
  pub driver : Drive
  pub journal : Journal
  pub handed : List String

abbrev pub silent : Drive → Journal → Advanced
silent d j = record { driver = d; journal = j; handed = [] }

-- An answer to another question leaves the driver waiting.
unfoldable pub advance : Answer → Drive → Journal → Advanced
unfolding call answered treasury_policy_capacity_used
advance (clock seen_at now) (read next) j = silent (next j) j
advance (clock seen_at now) (read_capacity next) j =
    let (base, used) = treasury_policy_capacity_used now j in silent (next used) base
advance (clock seen_at now) (transact c next) j =
    silent (next (call (c seen_at now) j) (answered (c seen_at now) j))
      (committed j (call (c seen_at now) j))
advance (preparation p) (ask_prepare r next) j = silent (next p) j
advance (submission s) (ask_submit key r next) j = record {
  driver = next s;
  journal = j;
  handed = key ∷ [];
}
advance (observation p) (ask_observe r next) j = silent (next p) j
advance (reply b) (ask q next) j = silent (next b) j
advance _ d j = silent d j

-- The Journal with the drivers at work on it, and the keys handed to `adapter.submit` so far.
pub record Scene : Type 0 where
  pub journal : Journal
  pub drivers : List Drive
  pub handed : List String

-- `starts`: a call of `drive`. `others`: a transaction of anybody else, as the heartbeat of a lease or a
-- cancellation.
pub data Event : Type 0 where
  starts : (key owner : String) → Event
  moves : (index : ℕ) → Answer → Event
  others : Command → Event

-- The driver of a place in the list moves.
unfoldable pub move_at : ℕ → Answer → List Drive → Journal → List String → Scene
unfolding advance
move_at n a [] j handed = record { journal = j; drivers = []; handed = handed }
move_at zero a (d ∷ ds) j handed =
    let moved = advance a d j in
    record { journal = moved.journal; drivers = moved.driver ∷ ds; handed = moved.handed ++ handed }
move_at (suc n) a (d ∷ ds) j handed =
    let scene = move_at n a ds j handed in record scene { drivers = d ∷ scene.drivers }

unfoldable pub step : Event → Scene → Scene
unfolding drive call
step (starts key owner) s = record s { drivers = drive key owner ∷ s.drivers }
step (moves index a) s = move_at index a s.drivers s.journal s.handed
step (others c) s = record s { journal = committed s.journal (call c s.journal) }

unfoldable pub play : List Event → Scene → Scene
play [] s = s
play (e ∷ es) s = play es (step e s)

-- How often an operation's bytes were handed to an adapter.
abbrev pub handed_count : String → List String → ℕ
handed_count key keys = count_by (λ k. str_eq k key) keys

-- A Journal without drivers.
abbrev pub opened : Journal → Scene
opened j = record { journal = j; drivers = []; handed = [] }
