-- ===== src/Treasury/Rows.antt =====
-- What each handler of src/purchase/journal.ts does with the row that it reads. A handler reads the row
-- by its primary key and updates it under that key in one immediate transaction, so its UPDATE sees
-- the row just read: the conditions of the WHERE clause stand here as tests of that row. Where
-- the source reads the clock twice, `seen` is the first reading and `now` the second.
use sompi.Base.{
  ℕ, ◌+◌, Bool, true, false, not, ◌&&◌, ◌||◌, String, Option, none, some, leb, ltb, ◌==◌, str_eq,
  opt_eq, is_some, if◌then◌else◌, Result, ok, err, ◌>>◌, require, invariant, policy_reservation,
}
use sompi.Treasury.Types.{
  OperationState, intent, prepared, submission_planned, submitted, observed, completed,
  failed_terminal, same_state, RequestedAmount, exact, maximum, Operation, DriverLease,
  PreparedOperation, ObservationStatus, seen, not_submitted, pending, superseded,
}

-- `kept`: no write. `moved r why`: the row becomes `r`, and a transition row is inserted if a reason
-- is given.
pub data Outcome : Type 0 where
  kept : Outcome
  moved : Operation → Option String → Outcome

unfoldable pub driver_owns : Operation → DriverLease → ℕ → Bool
driver_owns r driver now =
    opt_eq str_eq r.driver_owner (some driver.owner)
    && r.driver_generation == driver.generation
    && elim r.driver_lease_expires_at_ms [ none ↦ false | some at ↦ ltb now at ]

-- `driver && !driverOwns(...)` is the refusal.
unfoldable pub driver_admitted : Option DriverLease → Operation → ℕ → Bool
driver_admitted none r at = true
driver_admitted (some driver) r at = driver_owns r driver at

abbrev pub is_terminal : OperationState → Bool
is_terminal completed = true
is_terminal failed_terminal = true
is_terminal _ = false

abbrev pub is_open_preparation : OperationState → Bool
is_open_preparation intent = true
is_open_preparation prepared = true
is_open_preparation _ = false

abbrev pub lease_live : Option ℕ → ℕ → Bool
lease_live none now = false
lease_live (some at) now = ltb now at

-- `driver_lease_expires_at_ms <= now`, which NULL does not satisfy.
abbrev pub lease_lapsed : Option ℕ → ℕ → Bool
lease_lapsed none now = false
lease_lapsed (some at) now = leb at now

-- claimTreasuryOperationDriver: `kept` is `acquired: false`.
unfoldable pub claim_driver_row : String → (ttl now : ℕ) → Operation → Outcome
claim_driver_row owner ttl now r =
    let mine = opt_eq str_eq r.driver_owner (some owner) in
    let live = lease_live r.driver_lease_expires_at_ms now in
    if is_terminal r.state
    then kept
    else if not
        (not (is_some r.driver_owner) || lease_lapsed r.driver_lease_expires_at_ms now || mine)
    then kept
    else moved
        (record r {
          driver_owner = some owner;
          driver_generation = if mine && live then r.driver_generation else r.driver_generation + 1;
          driver_lease_expires_at_ms = some (now + ttl);
          effect_capability_generation =
              if is_open_preparation r.state then none else r.effect_capability_generation;
          updated_at_ms = now;
        })
        none

-- renewTreasuryOperationDriver, with its fixed minute.
unfoldable pub renew_driver_row : DriverLease → ℕ → Operation → Result Outcome
unfolding driver_owns
renew_driver_row lease now r = do
  require (driver_owns r lease now) invariant
  ok (
      moved (record r { driver_lease_expires_at_ms = some (now + 60000); updated_at_ms = now })
        none)

-- releaseTreasuryOperationDriver: a stale owner changes nothing.
unfoldable pub release_driver_row : DriverLease → ℕ → Operation → Outcome
release_driver_row lease now r =
    if opt_eq str_eq r.driver_owner (some lease.owner) && r.driver_generation == lease.generation
    then moved
        (record r { driver_owner = none; driver_lease_expires_at_ms = none; updated_at_ms = now })
        none
    else kept

abbrev pub amount_matches : RequestedAmount → ℕ → Bool
amount_matches (exact n) amount = n == amount
amount_matches maximum amount = true

-- recordPreparedTreasuryOperation on an operation that is already prepared.
unfoldable pub same_material : PreparedOperation → Operation → Bool
same_material p r =
    opt_eq str_eq r.prepared_digest (some p.digest)
    && opt_eq str_eq r.transaction_id (some p.transaction_id)
    && opt_eq ◌==◌ r.resolved_amount (some p.amount)
    && opt_eq ◌==◌ r.fee (some p.fee)
    && str_eq r.policy_digest p.policy_digest

-- recordPreparedTreasuryOperation on an intent. `policy` is the policy lookup, `fits` the capacity
-- check and `unused` the UNIQUE constraints on the transaction and the material, all on the tables of
-- the moment.
unfoldable pub prepare_intent_row :
    PreparedOperation → ℕ → (policy fits unused : Result (Unit {0})) → Operation → Result Outcome
prepare_intent_row p now policy fits unused r = do
  require (not r.cancellation_requested) invariant
  policy
  require (str_eq r.policy_digest p.policy_digest) policy_reservation
  require (amount_matches r.requested_amount p.amount) invariant
  require (leb p.fee r.fee_ceiling) policy_reservation
  fits
  unused
  ok (
      moved
        (record r {
          resolved_amount = some p.amount;
          fee = some p.fee;
          transaction_id = some p.transaction_id;
          prepared_digest = some p.digest;
          prepared_ref = some p.storage_ref;
          prepared_byte_length = some p.byte_length;
          state = prepared;
          updated_at_ms = now;
        })
        (some "signed_material_persisted"))

-- recordPreparedTreasuryOperation.
unfoldable pub prepare_row :
    PreparedOperation
    → Option DriverLease
    → ℕ
    → ℕ
    → (policy fits unused : Result (Unit {0})) → Operation
    → Result Outcome
unfolding driver_admitted same_material
prepare_row p driver seen_at now policy fits unused r = do
  require (driver_admitted driver r seen_at) invariant
  require (not r.preparation_fenced) invariant
  if same_state r.state intent
      then prepare_intent_row p now policy fits unused r
      else if same_material p r
      then ok kept
      else err invariant

-- recordTreasuryPreparationRetry.
unfoldable pub retry_row : String → Option DriverLease → ℕ → ℕ → Operation → Result Outcome
unfolding driver_admitted
retry_row reason driver seen_at now r = do
  require (driver_admitted driver r seen_at) invariant
  require (same_state r.state intent) invariant
  require (ltb r.retry_count r.retry_limit) invariant
  ok (moved (record r { retry_count = r.retry_count + 1; updated_at_ms = now }) (some reason))

-- failTreasuryOperationPreparation, after the test of its reason.
unfoldable pub fail_row : String → Option DriverLease → ℕ → ℕ → Operation → Result Outcome
unfolding driver_admitted
fail_row reason driver seen_at now r = do
  require (driver_admitted driver r seen_at) invariant
  if same_state r.state failed_terminal then ok kept else (do
    require (same_state r.state intent) invariant
    ok (moved (record r { state = failed_terminal; updated_at_ms = now }) (some reason)))

-- fenceTreasuryOperationPreparation.
unfoldable pub fence_row : String → Option DriverLease → ℕ → ℕ → Operation → Result Outcome
unfolding driver_admitted
fence_row reason driver seen_at now r = do
  require (driver_admitted driver r seen_at) invariant
  if r.preparation_fenced then ok kept else (do
    require (same_state r.state intent) invariant
    require (not r.cancellation_requested) invariant
    ok (moved (record r { preparation_fenced = true; updated_at_ms = now }) (some reason)))

-- requestTreasuryOperationCancellation.
unfoldable pub request_cancellation_row : ℕ → Operation → Outcome
request_cancellation_row now r =
    if is_terminal r.state || r.cancellation_requested
    then kept
    else moved (record r { cancellation_requested = true; updated_at_ms = now })
        (some "cancellation_requested")

-- The transaction of cancelTreasuryOperation itself: a terminal row is marked as well.
unfoldable pub mark_cancelled_row : ℕ → Operation → Outcome
mark_cancelled_row now r =
    if r.cancellation_requested
    then kept
    else moved (record r { cancellation_requested = true; updated_at_ms = now })
        (some "cancellation_requested")

-- cancelTreasuryOperation: an unprepared operation fails unless it is fenced, any other is marked. `earlier` is the
-- row as it was read ahead of the transaction.
unfoldable pub cancel_row : (earlier : Operation) → ℕ → ℕ → Operation → Result Outcome
cancel_row earlier seen_at now r =
    if is_terminal earlier.state
    then ok kept
    else if same_state earlier.state intent && earlier.preparation_fenced
    then ok (request_cancellation_row now r)
    else if same_state earlier.state intent
    then fail_row "cancelled_before_effect" none seen_at now r
    else ok (mark_cancelled_row now r)

-- planTreasuryOperationSubmission: `kept` is `false`.
unfoldable pub plan_row :
    Option DriverLease → ℕ → ℕ → (policy fits : Result (Unit {0})) → Operation → Result Outcome
unfolding driver_admitted
plan_row driver seen_at now policy fits r =
    if not (same_state r.state prepared) || r.cancellation_requested || r.preparation_fenced
    then ok kept
    else if not (driver_admitted driver r seen_at)
    then ok kept
    else (do
      policy
      require (is_some r.resolved_amount && is_some r.fee) invariant
      fits
      ok (
          moved (record r { state = submission_planned; updated_at_ms = now })
            (some "submission_intent_committed")))

-- claimTreasuryOperationEffectCapability: `kept` is `false`.
unfoldable pub claim_capability_row : DriverLease → ℕ → ℕ → Operation → Outcome
unfolding driver_owns
claim_capability_row driver seen_at now r =
    if driver_owns r driver seen_at
      && same_state r.state submission_planned
      && not r.cancellation_requested
      && not r.preparation_fenced
      && not r.submission_in_flight
      && not (is_some r.effect_capability_generation)
    then moved
        (record r {
          effect_capability_generation = some driver.generation;
          submission_in_flight = true;
          updated_at_ms = now;
        })
        (some "submission_in_flight")
    else kept

abbrev pub capability_is : Option DriverLease → Operation → Bool
capability_is none r = true
capability_is (some driver) r = opt_eq ◌==◌ r.effect_capability_generation (some driver.generation)

abbrev pub was_accepted : OperationState → Bool
was_accepted submitted = true
was_accepted observed = true
was_accepted completed = true
was_accepted _ = false

-- recordTreasuryOperationSubmissionAccepted.
unfoldable pub accepted_row : String → Option DriverLease → ℕ → ℕ → Operation → Result Outcome
unfolding driver_admitted
accepted_row transaction_id driver seen_at now r = do
  require (driver_admitted driver r seen_at) invariant
  require (opt_eq str_eq r.transaction_id (some transaction_id)) invariant
  if was_accepted r.state then ok kept else (do
    require (same_state r.state submission_planned) invariant
    require (not r.preparation_fenced && capability_is driver r) invariant
    require (r.submission_in_flight && is_some r.effect_capability_generation) invariant
    ok (
        moved (record r { state = submitted; submission_in_flight = false; updated_at_ms = now })
          (some "rpc_accepted")))

abbrev pub awaits_observation : OperationState → Bool
awaits_observation submission_planned = true
awaits_observation submitted = true
awaits_observation observed = true
awaits_observation _ = false

-- recordTreasuryOperationObservation from where the observation row is inserted.
unfoldable pub observe_row :
    ObservationStatus → Option DriverLease → ℕ → ℕ → Operation → Result Outcome
unfolding driver_admitted
observe_row status driver seen_at now r = do
  require (awaits_observation r.state) invariant
  require (driver_admitted driver r seen_at) invariant
  if same_state r.state observed then ok kept else elim status [
    | pending ↦ ok kept
    | not_submitted ↦ ok kept
    | superseded ↦ ok (
        moved
          (record r {
            state = failed_terminal;
            submission_in_flight = false;
            effect_capability_generation = none;
            completed_at_ms = some now;
            updated_at_ms = now;
          })
          (some "mutually_exclusive_chain_effect_accepted"))
    | seen ↦ ok (
        moved (record r { state = observed; submission_in_flight = false; updated_at_ms = now })
          (some "chain_observed"))
  ]

-- completeTreasuryOperation.
unfoldable pub complete_row : Option DriverLease → ℕ → ℕ → Operation → Result Outcome
unfolding driver_admitted
complete_row driver seen_at now r = if same_state r.state completed then ok kept else (do
  require (same_state r.state observed) invariant
  require (driver_admitted driver r seen_at) invariant
  ok (
      moved (record r { state = completed; updated_at_ms = now; completed_at_ms = some now })
        (some "local_commit_complete")))
