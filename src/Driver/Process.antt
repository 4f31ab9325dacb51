-- ===== src/Driver/Process.antt =====
-- A driver of src/treasury/operations.ts as a process: one request after the other to the Journal, to the
-- adapter of the operation's kind or to its surroundings, each answered before the next is made.
use sompi.Base.{ℕ, Bool, true, false, ◌&&◌, ◌||◌, String, Option, str_eq, Result, ok}
use sompi.Treasury.Types.{OperationKind, Operation, PreparedOperation, ObservationStatus, Journal}
use sompi.Treasury.Rows.{Outcome, moved}
use sompi.Treasury.Handlers.{
  claim_treasury_operation_driver, plan_treasury_operation_submission,
  claim_treasury_operation_effect_capability,
}
use sompi.Treasury.Commands.{Command, claim_driver, plan, claim_capability}

-- What `adapter.prepare` throws.
pub data PreparationError : Type 0 where
  preparation_error : (phase effect code : String) → PreparationError
  other_error : PreparationError

-- isTerminalPreEffectFailure.
unfoldable pub is_terminal_pre_effect_failure : PreparationError → Bool
is_terminal_pre_effect_failure other_error = false
is_terminal_pre_effect_failure (preparation_error phase effect code) =
    str_eq phase "preparation"
    && str_eq effect "none"
    && (str_eq code "invalid_destination"
        || str_eq code "invalid_transaction_shape"
        || str_eq code "insufficient_funds"
        || str_eq code "not_funded"
        || str_eq code "invalid_runtime_state")

-- isTransientPreparationFailure.
unfoldable pub is_transient_preparation_failure : PreparationError → Bool
is_transient_preparation_failure other_error = false
is_transient_preparation_failure (preparation_error phase effect code) =
    str_eq phase "preparation" && str_eq effect "none" && str_eq code "transient_unavailable"

-- `error.code`.
abbrev pub code_of : PreparationError → String
code_of other_error = ""
code_of (preparation_error phase effect code) = code

pub data Preparation : Type 0 where
  ready : PreparedOperation → Preparation
  failed : PreparationError → Preparation

-- TreasuryObservation, its detail given by its canonical JSON, that text's digest and its length.
pub record Probe : Type 0 where
  pub status : ObservationStatus
  pub digest : String
  pub json : String
  pub byte_length : ℕ

-- The questions answered by yes or no: whether the evidence store gives back the stored bytes, whether
-- `adapter.commit` returns, whether the caller's signal is aborted, whether an adapter of the kind is configured.
pub data Question : Type 0 where
  evidence aborted : Question
  adapter : OperationKind → Question
  commit : Operation → Question

-- `returned`: the call returns the view of this row. `read`: a SELECT. `transact`: a transaction, with the two
-- readings of its clock; its continuation takes the tables or the error, and the Boolean of the answer.
-- `read_capacity`: treasuryPolicyCapacityUsed. A missing answer is an exception of the adapter.
pub data Drive : Type 0 where
  returned : Operation → Drive
  threw : Drive
  read : (Journal → Drive) → Drive
  read_capacity : (ℕ → Drive) → Drive
  transact : ((seen_at now : ℕ) → Command) → (Result Journal → Bool → Drive) → Drive
  ask_prepare : Operation → (Preparation → Drive) → Drive
  ask_submit : (key : String) → Operation → (Option String → Drive) → Drive
  ask_observe : Operation → (Option Probe → Drive) → Drive
  ask : Question → (Bool → Drive) → Drive

abbrev pub has_moved : Result (Journal × Outcome) → Bool
has_moved (ok (j, moved r why)) = true
has_moved _ = false

-- The Boolean that a call answers: `acquired` of claimTreasuryOperationDriver, the result of
-- planTreasuryOperationSubmission and of claimTreasuryOperationEffectCapability.
unfoldable pub answered : Command → Journal → Bool
answered (claim_driver key owner ttl now) j =
    has_moved (claim_treasury_operation_driver key owner ttl now j)
answered (plan key driver seen_at now) j =
    has_moved (plan_treasury_operation_submission key driver seen_at now j)
answered (claim_capability key driver seen_at now) j =
    has_moved (claim_treasury_operation_effect_capability key driver seen_at now j)
answered _ j = true
