-- ===== src/Driver/Steps.antt =====
-- The requests of a driver of src/treasury/operations.ts one by one, in surroundings that cooperate.
use sompi.Base.{
  ℕ, suc, ◌≡◌, refl, ◌∙◌, ap, true, false, Bool, String, Option, some, [], leb, Result, ok,
  is_operation_key, arith, eq_iff,
}
use sompi.Treasury.Types.{Operation, Observation, seen, DriverLease, Journal, observed, completed}
use sompi.Treasury.Rows.{moved, driver_owns, driver_admitted, observe_row, complete_row}
use sompi.Treasury.Tables.{find_operation, write_outcome, on_operation}
use sompi.Treasury.Handlers.{
  record_treasury_operation_observation, observe_operation, insert_observation, observation_row,
  complete_treasury_operation,
}
use sompi.Treasury.Sound.{find-replace, operations-write}
use sompi.Treasury.Commands.{Command, observe, complete, call, run}
use sompi.Driver.Process.{Question, Probe, Drive, read, transact, ask_observe, ask, answered}
use sompi.Driver.Loop.{required, recorded, is_launched}
use sompi.Driver.Schedule.{advance}
use sompi.Driver.Runs.{Surroundings, answer_to, finish}

-- Nobody interferes, the evidence store and `adapter.commit` answer, `adapter.observe` sees the effect,
-- and the lease does not run out.
pub record IsKind (s : Surroundings) (p : Probe) (lease : DriverLease) (r : Operation)
    : Type 0 where
  pub alone : (i : ℕ) → s.meanwhile i ≡ []
  pub yes : (i : ℕ) → s.replies i ≡ true
  pub sees : (i : ℕ) → s.observes i ≡ some p
  pub is_seen : p.status ≡ seen
  pub small : leb p.byte_length 16384 ≡ true
  pub owned : (i : ℕ) → driver_owns r lease (s.seen_at i) ≡ true

-- The row that an observation leaves.
abbrev pub seen_row : ℕ → Operation → Operation
seen_row now r = record r { state = observed; submission_in_flight = false; updated_at_ms = now }

pub written_row :
    (key : String) (now : ℕ) (r r' : Operation) (why : Option String) (j base : Journal)
    → base.operations ≡ j.operations
    → find_operation key j.operations ≡ some r
    → r'.operation_key ≡ r.operation_key
    → find_operation key (write_outcome key now r (moved r' why) base).operations ≡ some r'
written_row key now r r' why j base same found kept =
    ap (find_operation key) (operations-write key now r r' why base)
    ∙ find-replace key key r r' base.operations (ap (find_operation key) same ∙ found) kept
    ∙ ground (arith, eq_iff key key)

pub observed-inserted :
    (o : Observation) (j : Journal) → (insert_observation o j).operations ≡ j.operations
unfolding insert_observation
observed-inserted o j = ground arith

module _ (s : Surroundings) (p : Probe) (lease : DriverLease) where
  pub ask_step :
      (f i : ℕ) (q : Question) (next : Bool → Drive) (j : Journal)
      → s.meanwhile i ≡ []
      → s.replies i ≡ true
      → finish s (suc f) i (ask q next) j ≡ finish s f (suc i) (next true) j
  unfolding finish answer_to advance run
  ask_step f i q next j alone replied = rw (alone, replied) refl

  pub observe_step :
      (f i : ℕ) (r : Operation) (next : Option Probe → Drive) (j : Journal)
      → s.meanwhile i ≡ []
      → s.observes i ≡ some p
      → finish s (suc f) i (ask_observe r next) j ≡ finish s f (suc i) (next (some p)) j
  unfolding finish answer_to advance run
  observe_step f i r next j alone sees = rw (alone, sees) refl

  pub read_step :
      (f i : ℕ) (next : Journal → Drive) (j : Journal)
      → s.meanwhile i ≡ []
      → finish s (suc f) i (read next) j ≡ finish s f (suc i) (next j) j
  unfolding finish answer_to advance run
  read_step f i next j alone = rw alone refl

  pub transact_step :
      (f i : ℕ) (c : (seen_at now : ℕ) → Command) (next : Result Journal → Bool → Drive)
      (j j' : Journal)
      → s.meanwhile i ≡ []
      → call (c (s.seen_at i) (s.now i)) j ≡ ok j'
      → finish s (suc f) i (transact c next) j
        ≡ finish s f (suc i) (next (ok j') (answered (c (s.seen_at i) (s.now i)) j)) j'
  unfolding finish answer_to advance run
  transact_step f i c next j j' alone done = rw (alone, done) refl

  pub required_step :
      (f i : ℕ) (key : String) (next : Operation → Drive) (j : Journal) (r : Operation)
      → s.meanwhile i ≡ []
      → is_operation_key key ≡ true
      → find_operation key j.operations ≡ some r
      → finish s (suc f) i (required key next) j ≡ finish s f (suc i) (next r) j
  unfolding required
  required_step f i key next j r alone named found =
      read_step f i _ j alone ∙ rw (named, found) refl

  pub recorded_step :
      (f i : ℕ) (key : String) (c : (seen_at now : ℕ) → Command) (next : Operation → Drive)
      (j j' : Journal) (r : Operation)
      → s.meanwhile i ≡ []
      → call (c (s.seen_at i) (s.now i)) j ≡ ok j'
      → find_operation key j'.operations ≡ some r
      → finish s (suc f) i (recorded key c next) j ≡ finish s f (suc i) (next r) j'
  unfolding recorded
  recorded_step f i key c next j j' r alone done found =
      transact_step f i c _ j j' alone done ∙ rw found refl

-- Whatever is under way, an observation of the effect is recorded by the driver that owns it.
pub observe-call :
    (key : String) (p : Probe) (lease : DriverLease) (seen_at now : ℕ) (j : Journal) (r : Operation)
    → is_operation_key key ≡ true
    → find_operation key j.operations ≡ some r
    → is_launched r.state ≡ true
    → driver_owns r lease seen_at ≡ true
    → p.status ≡ seen
    → leb p.byte_length 16384 ≡ true
    → call (observe key p.status p.digest p.json p.byte_length (some lease) seen_at now) j
      ≡ ok (
          write_outcome key now r
            (moved (seen_row now r) (some "chain_observed"))
            (insert_observation (observation_row key p.status p.digest p.json now) j))
unfolding call record_treasury_operation_observation observe_operation observe_row driver_admitted
observe-call key p lease seen_at now j r named found under_way owned sees small =
    ground (arith, named, found, under_way, owned, sees, small)

abbrev pub completed_row : ℕ → Operation → Operation
completed_row now r = record r {
  state = completed;
  updated_at_ms = now;
  completed_at_ms = some now;
}

pub complete-call :
    (key : String) (lease : DriverLease) (seen_at now : ℕ) (j : Journal) (r : Operation)
    → is_operation_key key ≡ true
    → find_operation key j.operations ≡ some r
    → r.state ≡ observed
    → driver_owns r lease seen_at ≡ true
    → call (complete key (some lease) seen_at now) j
      ≡ ok (write_outcome key now r (moved (completed_row now r) (some "local_commit_complete")) j)
unfolding call complete_treasury_operation on_operation complete_row driver_admitted
complete-call key lease seen_at now j r named found is_observed owned =
    ground (arith, named, found, is_observed, owned)
