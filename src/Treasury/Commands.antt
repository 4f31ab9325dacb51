-- ===== src/Treasury/Commands.antt =====
-- A history of the tables: the handlers of src/purchase/journal.ts for direct Treasury Operations as
-- the calls of any number of drivers, in the order in which their transactions are committed.
use sompi.Base.{ℕ, String, Option, List, [], ◌∷◌, Result, ok, err}
use sompi.Treasury.Types.{
  Operation, OperationIntent, DriverLease, PreparedOperation, ObservationStatus, Journal,
}
use sompi.Treasury.Rows.{Outcome}
use sompi.Treasury.Intake.{claim_treasury_operation_intent}
use sompi.Treasury.Handlers.{
  claim_treasury_operation_driver, renew_treasury_operation_driver,
  release_treasury_operation_driver, record_prepared_treasury_operation,
  record_treasury_preparation_retry, fail_treasury_operation_preparation,
  fence_treasury_operation_preparation, cancel_treasury_operation,
  request_treasury_operation_cancellation, plan_treasury_operation_submission,
  claim_treasury_operation_effect_capability, record_treasury_operation_submission_accepted,
  record_treasury_operation_observation, complete_treasury_operation,
}

-- A call with its arguments: the key, the driver that makes it, and the two readings of the clock.
pub data Command : Type 0 where
  claim_intent : OperationIntent → (now : ℕ) → Command
  claim_driver : (key owner : String) → (ttl now : ℕ) → Command
  renew_driver : DriverLease → (key : String) → (now : ℕ) → Command
  release_driver : DriverLease → (key : String) → (now : ℕ) → Command
  prepare : (key : String) → PreparedOperation → Option DriverLease → (seen_at now : ℕ) → Command
  retry : (key reason : String) → Option DriverLease → (seen_at now : ℕ) → Command
  fail : (key reason : String) → Option DriverLease → (seen_at now : ℕ) → Command
  fence : (key reason : String) → Option DriverLease → (seen_at now : ℕ) → Command
  cancel : (key : String) → (earlier : Operation) → (seen_at now : ℕ) → Command
  request_cancellation : (key : String) → (now : ℕ) → Command
  plan : (key : String) → Option DriverLease → (seen_at now : ℕ) → Command
  claim_capability : (key : String) → DriverLease → (seen_at now : ℕ) → Command
  accept : (key transaction_id : String) → Option DriverLease → (seen_at now : ℕ) → Command
  observe :
      (key : String)
      → ObservationStatus
      → (digest json : String) → (byte_length : ℕ) → Option DriverLease
      → (seen_at now : ℕ) → Command
  complete : (key : String) → Option DriverLease → (seen_at now : ℕ) → Command

abbrev pub tables : Result (Journal × Outcome) → Result Journal
tables (ok (j, outcome)) = ok j
tables (err e) = err e

unfoldable pub call : Command → Journal → Result Journal
call (claim_intent input now) j = claim_treasury_operation_intent input now j
call (claim_driver key owner ttl now) j =
    tables (claim_treasury_operation_driver key owner ttl now j)
call (renew_driver lease key now) j = tables (renew_treasury_operation_driver lease key now j)
call (release_driver lease key now) j = tables (release_treasury_operation_driver lease key now j)
call (prepare key p driver seen_at now) j =
    tables (record_prepared_treasury_operation key p driver seen_at now j)
call (retry key reason driver seen_at now) j =
    tables (record_treasury_preparation_retry key reason driver seen_at now j)
call (fail key reason driver seen_at now) j =
    tables (fail_treasury_operation_preparation key reason driver seen_at now j)
call (fence key reason driver seen_at now) j =
    tables (fence_treasury_operation_preparation key reason driver seen_at now j)
call (cancel key earlier seen_at now) j =
    tables (cancel_treasury_operation key earlier seen_at now j)
call (request_cancellation key now) j = tables (request_treasury_operation_cancellation key now j)
call (plan key driver seen_at now) j =
    tables (plan_treasury_operation_submission key driver seen_at now j)
call (claim_capability key driver seen_at now) j =
    tables (claim_treasury_operation_effect_capability key driver seen_at now j)
call (accept key transaction_id driver seen_at now) j =
    tables (record_treasury_operation_submission_accepted key transaction_id driver seen_at now j)
call (observe key status digest json byte_length driver seen_at now) j =
    tables (
      record_treasury_operation_observation key status digest json byte_length driver seen_at now j)
call (complete key driver seen_at now) j =
    tables (complete_treasury_operation key driver seen_at now j)

-- A call that throws rolls its transaction back.
abbrev pub committed : Journal → Result Journal → Journal
committed j (ok j') = j'
committed j (err e) = j

unfoldable pub run : List Command → Journal → Journal
unfolding call
run [] j = j
run (c ∷ cs) j = run cs (committed j (call c j))
