-- ===== src/Treasury/Handlers.antt =====
-- The handlers for direct Treasury Operations in src/purchase/journal.ts, over the whole Journal.
-- An error is thrown inside the transaction, so the tables are as before: the result has no journal.
-- Validity of texts is checked where the source checks it.
use sompi.Base.{
  ℕ, Bool, false, not, ◌&&◌, ◌||◌, String, Option, none, some, List, [], ◌∷◌, ◌++◌, leb, ltb, ◌==◌,
  str_eq, opt_eq, if◌then◌else◌, any_by, count_by, Result, ok, ◌>>=◌, ◌>>◌, require, or_throw,
  invariant, not_found, policy_reservation, sqlite_constraint, is_digest, is_operation_key, is_code,
  is_transaction_id,
}
use sompi.Treasury.Types.{
  failed_terminal, same_state, Operation, DriverLease, PreparedOperation, ObservationStatus,
  superseded, status_rank, Observation, PolicySnapshot, Journal,
}
use sompi.Treasury.Capacity.{expire_reservations, assert_direct_treasury_capacity}
use sompi.Treasury.Rows.{
  Outcome, kept, claim_driver_row, renew_driver_row, release_driver_row, prepare_row, retry_row,
  fail_row, fence_row, request_cancellation_row, cancel_row, plan_row, claim_capability_row,
  accepted_row, observe_row, complete_row,
}
use sompi.Treasury.Tables.{find_operation, find_policy, write_outcome, on_operation}
use sompi.Treasury.Intake.{unresolved}

unfoldable pub claim_treasury_operation_driver :
    String → String → (ttl now : ℕ) → Journal → Result (Journal × Outcome)
claim_treasury_operation_driver key owner ttl now j = do
  require (is_operation_key owner) invariant
  require (leb 1000 ttl && leb ttl 600000) invariant
  on_operation key now j j (λ r. ok (claim_driver_row owner ttl now r))

unfoldable pub renew_treasury_operation_driver :
    DriverLease → String → ℕ → Journal → Result (Journal × Outcome)
renew_treasury_operation_driver lease key now j =
    on_operation key now j j (renew_driver_row lease now)

unfoldable pub release_treasury_operation_driver :
    DriverLease → String → ℕ → Journal → Result (Journal × Outcome)
release_treasury_operation_driver lease key now j =
    on_operation key now j j (λ r. ok (release_driver_row lease now r))

-- validatePreparedTreasuryOperation.
unfoldable pub validate_prepared : PreparedOperation → Result (Unit {0})
validate_prepared p = do
  require (ltb 0 p.byte_length && leb p.byte_length 2000000) invariant
  require (is_transaction_id p.transaction_id) invariant
  require (ltb 0 p.amount) policy_reservation
  require (is_digest p.policy_digest) invariant

-- The UNIQUE columns transaction_id and prepared_ref over the other rows.
unfoldable pub material_unused : String → PreparedOperation → List Operation → Bool
material_unused key p rs = not (
    any_by
      (λ r.
        not (str_eq r.operation_key key)
        && (opt_eq str_eq r.transaction_id (some p.transaction_id)
            || opt_eq str_eq r.prepared_ref (some p.storage_ref)))
      rs)

-- requirePolicy.
unfoldable pub require_policy : String → Journal → Result PolicySnapshot
unfolding find_policy
require_policy digest j = or_throw (find_policy digest j.policies) not_found

-- The capacity check of an operation that is already in the tables, itself left out of the count.
unfoldable pub recheck_capacity : Journal → Operation → ℕ → ℕ → Result (Unit {0})
unfolding require_policy
recheck_capacity j r amount now = do
  policy ← require_policy r.policy_digest j
  assert_direct_treasury_capacity j policy r.kind r.destination amount r.fee_ceiling now
      (some r.operation_key)

unfoldable pub record_prepared_treasury_operation :
    String
    → PreparedOperation
    → Option DriverLease
    → (seen_at now : ℕ) → Journal
    → Result (Journal × Outcome)
unfolding validate_prepared material_unused recheck_capacity
record_prepared_treasury_operation key p driver seen_at now j = do
  require (is_operation_key key) invariant
  validate_prepared p
  let base = expire_reservations now j
  on_operation key now j base (λ r.
      prepare_row p driver seen_at now (require_policy r.policy_digest j >>= λ _. ok tt)
        (recheck_capacity base r p.amount now)
        (require (material_unused key p j.operations) sqlite_constraint) r)

unfoldable pub record_treasury_preparation_retry :
    String → String → Option DriverLease → (seen_at now : ℕ) → Journal → Result (Journal × Outcome)
record_treasury_preparation_retry key reason driver seen_at now j = do
  require (is_code reason) invariant
  on_operation key now j j (retry_row reason driver seen_at now)

-- The reasons with which a preparation may fail for good.
unfoldable pub terminal_reason : String → Bool
terminal_reason reason =
    str_eq reason "invalid_destination"
    || str_eq reason "invalid_transaction_shape"
    || str_eq reason "insufficient_funds"
    || str_eq reason "not_funded"
    || str_eq reason "invalid_runtime_state"
    || str_eq reason "cancelled_before_effect"
    || str_eq reason "retry_exhausted"

unfoldable pub fail_treasury_operation_preparation :
    String → String → Option DriverLease → (seen_at now : ℕ) → Journal → Result (Journal × Outcome)
unfolding terminal_reason
fail_treasury_operation_preparation key reason driver seen_at now j = do
  require (terminal_reason reason) invariant
  on_operation key now j j (fail_row reason driver seen_at now)

unfoldable pub fence_treasury_operation_preparation :
    String → String → Option DriverLease → (seen_at now : ℕ) → Journal → Result (Journal × Outcome)
fence_treasury_operation_preparation key reason driver seen_at now j = do
  require (is_code reason) invariant
  on_operation key now j j (fence_row reason driver seen_at now)

unfoldable pub cancel_treasury_operation :
    String → (earlier : Operation) → (seen_at now : ℕ) → Journal → Result (Journal × Outcome)
cancel_treasury_operation key earlier seen_at now j =
    on_operation key now j j (cancel_row earlier seen_at now)

unfoldable pub request_treasury_operation_cancellation :
    String → ℕ → Journal → Result (Journal × Outcome)
request_treasury_operation_cancellation key now j =
    on_operation key now j j (λ r. ok (request_cancellation_row now r))

abbrev pub amount_of : Option ℕ → ℕ
amount_of none = 0
amount_of (some n) = n

unfoldable pub plan_treasury_operation_submission :
    String → Option DriverLease → (seen_at now : ℕ) → Journal → Result (Journal × Outcome)
plan_treasury_operation_submission key driver seen_at now j =
    let base = expire_reservations now j in
    on_operation key now j base (λ r.
      plan_row driver seen_at now (require_policy r.policy_digest j >>= λ _. ok tt)
        (recheck_capacity base r (amount_of r.resolved_amount) now) r)

unfoldable pub claim_treasury_operation_effect_capability :
    String → DriverLease → (seen_at now : ℕ) → Journal → Result (Journal × Outcome)
claim_treasury_operation_effect_capability key driver seen_at now j =
    on_operation key now j j (λ r. ok (claim_capability_row driver seen_at now r))

unfoldable pub record_treasury_operation_submission_accepted :
    String → String → Option DriverLease → (seen_at now : ℕ) → Journal → Result (Journal × Outcome)
record_treasury_operation_submission_accepted key transaction_id driver seen_at now j = do
  require (is_transaction_id transaction_id) invariant
  on_operation key now j j (accepted_row transaction_id driver seen_at now)

-- INSERT OR IGNORE under UNIQUE (operation_key, status, detail_digest).
unfoldable pub insert_observation : Observation → Journal → Journal
insert_observation o j =
    if any_by
      (λ x.
        str_eq x.operation_key o.operation_key
        && status_rank x.status == status_rank o.status
        && str_eq x.detail_digest o.detail_digest)
      j.observations
    then j
    else record j { observations = j.observations ++ o ∷ [] }

-- The last superseding observation of an operation.
unfoldable pub last_superseded : String → List Observation → Option Observation
last_superseded key [] = none
last_superseded key (o ∷ os) = elim (last_superseded key os) [
  | some later ↦ some later
  | none ↦
      if str_eq o.operation_key key && status_rank o.status == status_rank superseded
      then some o
      else none
]

abbrev pub same_detail : Option Observation → String → String → Bool
same_detail none digest json = false
same_detail (some o) digest json = str_eq o.detail_digest digest && str_eq o.detail_json json

abbrev pub observation_row :
    String → ObservationStatus → (detail_digest detail_json : String) → ℕ → Observation
observation_row key status digest json now = record {
  operation_key = key;
  status = status;
  detail_digest = digest;
  detail_json = json;
  observed_at_ms = now;
}

-- recordTreasuryOperationObservation on the row that it reads.
unfoldable pub observe_operation :
    Observation
    → Option DriverLease
    → (seen_at now : ℕ) → Journal
    → Operation
    → Result (Journal × Outcome)
observe_operation o driver seen_at now j r =
    if same_state r.state failed_terminal && status_rank o.status == status_rank superseded
    then (do
      require
          (same_detail (last_superseded o.operation_key j.observations) o.detail_digest
            o.detail_json)
          invariant
      ok (j, kept))
    else (do
      outcome ← observe_row o.status driver seen_at now r
      ok (write_outcome o.operation_key now r outcome (insert_observation o j), outcome))

-- recordTreasuryOperationObservation of a canonical JSON text of `byte_length` bytes.
unfoldable pub record_treasury_operation_observation :
    String
    → ObservationStatus
    → (detail_digest detail_json : String) → (byte_length : ℕ) → Option DriverLease
    → (seen_at now : ℕ) → Journal
    → Result (Journal × Outcome)
record_treasury_operation_observation key status digest json byte_length driver seen_at now j = do
  require (is_operation_key key && leb byte_length 16384) invariant
  r ← or_throw (find_operation key j.operations) not_found
  observe_operation (observation_row key status digest json now) driver seen_at now j r

unfoldable pub complete_treasury_operation :
    String → Option DriverLease → (seen_at now : ℕ) → Journal → Result (Journal × Outcome)
complete_treasury_operation key driver seen_at now j =
    on_operation key now j j (complete_row driver seen_at now)

-- unresolvedTreasuryOperationCount.
unfoldable pub unresolved_treasury_operation_count : Journal → ℕ
unresolved_treasury_operation_count j = count_by unresolved j.operations
