-- ===== src/Effects/States.antt =====
-- The states of an Effect, its row, and what an observation means for it: src/journal/contracts.ts,
-- assertEffectTransition and mapObservation of src/purchase/journal.ts.
use sompi.Base.{
  ℕ, ◌==◌, ◌||◌, Bool, String, Option, none, some, List, [], ◌∷◌, any_by, Result, require,
  invariant, if◌then◌else◌,
}

pub data EffectState : Type 0 where
  planned executing submitted ambiguous retryable observed failed_terminal abandoned : EffectState

abbrev pub state_rank : EffectState → ℕ
state_rank planned = 0
state_rank executing = 1
state_rank submitted = 2
state_rank ambiguous = 3
state_rank retryable = 4
state_rank observed = 5
state_rank failed_terminal = 6
state_rank abandoned = 7

abbrev pub same_state : EffectState → EffectState → Bool
same_state a b = state_rank a == state_rank b

unfoldable pub allowed_transitions : EffectState → List EffectState
allowed_transitions planned = executing ∷ abandoned ∷ []
allowed_transitions executing = submitted ∷ ambiguous ∷ retryable ∷ observed ∷ failed_terminal ∷ []
allowed_transitions submitted = ambiguous ∷ retryable ∷ observed ∷ failed_terminal ∷ []
allowed_transitions ambiguous = retryable ∷ observed ∷ failed_terminal ∷ []
allowed_transitions retryable = executing ∷ failed_terminal ∷ abandoned ∷ []
allowed_transitions observed = []
allowed_transitions failed_terminal = []
allowed_transitions abandoned = []

unfoldable pub assert_effect_transition : EffectState → EffectState → Result (Unit {0})
unfolding allowed_transitions
assert_effect_transition from to =
    require (same_state from to || any_by (λ s. same_state s to) (allowed_transitions from))
      invariant

pub record Effect : Type 0 where
  pub id : String
  pub purchase_id : String
  pub attempt : Option ℕ
  pub kind : String
  pub idempotency_key : String
  pub payload_digest : String
  pub prepared_ref : String
  pub prepared_byte_length : ℕ
  pub state : EffectState
  pub version : ℕ
  pub claim_lease_name : Option String
  pub claim_generation : Option ℕ
  pub submission_digest : Option String
  pub result_digest : Option String
  pub error_code : Option String
  pub created_at_ms : ℕ
  pub updated_at_ms : ℕ
  pub executing_at_ms : Option ℕ
  pub submitted_at_ms : Option ℕ
  pub observed_at_ms : Option ℕ

-- EffectObservation.
pub data Observation : Type 0 where
  observed : (result_digest : String) → (detail_digest : Option String) → Observation
  pending : (detail_digest : Option String) → Observation
  not_found : (safe_to_retry : Bool) → (detail_digest : String) → Observation
  conflict : (detail_digest : String) → Observation
  application_failure : (error_code detail_digest : String) → Observation

pub data RecordedStatus : Type 0 where
  observed pending not_found_retryable not_found_ambiguous conflict application_failure :
      RecordedStatus

pub record MappedObservation : Type 0 where
  pub status : RecordedStatus
  pub next_state : EffectState
  pub result_digest : Option String
  pub detail_digest : Option String
  pub error_code : Option String

unfoldable pub map_observation : Observation → MappedObservation
map_observation (Observation.observed result detail) = record {
  status = RecordedStatus.observed;
  next_state = EffectState.observed;
  result_digest = some result;
  detail_digest = detail;
  error_code = none;
}
map_observation (Observation.pending detail) = record {
  status = RecordedStatus.pending;
  next_state = ambiguous;
  result_digest = none;
  detail_digest = detail;
  error_code = none;
}
map_observation (Observation.not_found safe detail) = record {
  status = if safe then not_found_retryable else not_found_ambiguous;
  next_state = if safe then retryable else ambiguous;
  result_digest = none;
  detail_digest = some detail;
  error_code = none;
}
map_observation (Observation.conflict detail) = record {
  status = RecordedStatus.conflict;
  next_state = ambiguous;
  result_digest = none;
  detail_digest = some detail;
  error_code = none;
}
map_observation (Observation.application_failure code detail) = record {
  status = RecordedStatus.application_failure;
  next_state = ambiguous;
  result_digest = none;
  detail_digest = some detail;
  error_code = some code;
}
