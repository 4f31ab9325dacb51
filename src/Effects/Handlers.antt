-- ===== src/Effects/Handlers.antt =====
-- planEffect, claimEffect, markEffectSubmitted, markEffectAmbiguous and recordEffectObservation of
-- src/purchase/journal.ts.
use sompi.Base.{
  ℕ, ◌+◌, ◌==◌, ◌++◌, ◌&&◌, ◌||◌, not, Bool, true, false, String, Option, none, some, List, [], ◌∷◌,
  any_by, leb, str_eq, opt_eq, is_some, if◌then◌else◌, find_row, Result, ok, err, ◌>>=◌, ◌>>◌,
  require, invariant, not_found, sqlite_constraint, is_digest, is_code, is_safe_identity,
}
use sompi.Effects.Leases.{LeaseToken, acquire_lease, max_safe_integer}
use sompi.Effects.States.{
  EffectState, planned, executing, submitted, ambiguous, retryable, failed_terminal, same_state,
  Effect, Observation, RecordedStatus, MappedObservation, map_observation,
}
use sompi.Effects.Store.{
  Store, EffectObservation, no_updates, effect_id, require_effect, effect_lease_name,
  assert_effect_writer, write_effect, update_effect_state, insert_effect_observation,
  transition_row,
}

-- PlanEffectInput, its bytes given by the evidence store's reference to them and their length.
pub record PlanEffectInput : Type 0 where
  pub purchase_id : String
  pub attempt : Option ℕ
  pub kind : String
  pub idempotency_key : String
  pub payload_digest : String
  pub prepared_ref : String
  pub prepared_byte_length : ℕ

-- validateEffectInput, and the kind that planEffect leaves to planTreasuryStaging.
unfoldable pub validate_effect_input : PlanEffectInput → Result (Unit {0})
validate_effect_input input = do
  require (is_code input.kind) invariant
  require (is_safe_identity input.idempotency_key 300) invariant
  require (is_digest input.payload_digest) invariant
  require (leb 1 input.prepared_byte_length && leb input.prepared_byte_length max_safe_integer)
      invariant
  require (elim input.attempt [ none ↦ true | some n ↦ leb 1 n && leb n max_safe_integer ])
      invariant
  require (not (str_eq input.kind "treasury-staging")) invariant

unfoldable pub find_by_idempotency_key : String → List Effect → Option Effect
find_by_idempotency_key key [] = none
find_by_idempotency_key key (e ∷ es) =
    if str_eq e.idempotency_key key then some e else find_by_idempotency_key key es

-- assertSameEffect.
unfoldable pub same_effect : Effect → PlanEffectInput → Bool
same_effect e input =
    str_eq e.purchase_id input.purchase_id
    && opt_eq ◌==◌ e.attempt input.attempt
    && str_eq e.kind input.kind
    && str_eq e.payload_digest input.payload_digest
    && str_eq e.prepared_ref input.prepared_ref
    && e.prepared_byte_length == input.prepared_byte_length

unfoldable pub new_effect : String → PlanEffectInput → ℕ → Effect
new_effect id input now = record {
  id = id;
  purchase_id = input.purchase_id;
  attempt = input.attempt;
  kind = input.kind;
  idempotency_key = input.idempotency_key;
  payload_digest = input.payload_digest;
  prepared_ref = input.prepared_ref;
  prepared_byte_length = input.prepared_byte_length;
  state = planned;
  version = 0;
  claim_lease_name = none;
  claim_generation = none;
  submission_digest = none;
  result_digest = none;
  error_code = none;
  created_at_ms = now;
  updated_at_ms = now;
  executing_at_ms = none;
  submitted_at_ms = none;
  observed_at_ms = none;
}

unfoldable pub insert_effect : String → PlanEffectInput → ℕ → Store → Store
insert_effect id input now s = record s {
  effects = new_effect id input now ∷ s.effects;
  transitions =
      s.transitions
      ++ transition_row id none planned "effect_planned" (some input.payload_digest) now ∷ [];
}

-- planEffect. `id` is the random identity of opaqueId, whose collision SQLite refuses.
unfoldable pub plan_effect : String → PlanEffectInput → ℕ → Store → Result (Store × Effect)
unfolding find_row
plan_effect id input now s = do
  validate_effect_input input
  require (any_by (λ p. str_eq p input.purchase_id) s.purchases) not_found
  require
      (elim input.attempt [
        | none ↦ true
        | some n ↦ any_by (λ a. str_eq a.0 input.purchase_id && a.1 == n) s.attempts
      ])
      not_found
  elim (find_by_idempotency_key input.idempotency_key s.effects) [
    | some e ↦ if same_effect e input then ok (s, e) else err invariant
    | none ↦
        if is_some (find_row effect_id id s.effects)
        then err sqlite_constraint
        else ok (insert_effect id input now s, new_effect id input now)
  ]

-- The row of a claimed Effect.
unfoldable pub claimed_effect : Effect → LeaseToken → ℕ → Effect
claimed_effect e lease now = record e {
  state = executing;
  version = e.version + 1;
  claim_lease_name = some lease.name;
  claim_generation = some lease.generation;
  executing_at_ms = some now;
  updated_at_ms = now;
}

-- claimEffectInternal: no token where the Effect's lease is held.
unfoldable pub claim_effect_internal :
    Effect → String → (ttl now : ℕ) → Store → Result (Store × Option LeaseToken)
claim_effect_internal e holder ttl now s = do
  require (same_state e.state planned || same_state e.state retryable) invariant
  (leases, granted) ← acquire_lease (effect_lease_name e.id) holder ttl now s.leases
  elim granted [
    | none ↦ ok (s, none)
    | some lease ↦ ok (
      write_effect e (claimed_effect e lease now) "effect_claimed" (some e.payload_digest) now
          (record s { leases = leases }),
      some lease,
    )
  ]

-- claimEffect.
unfoldable pub claim_effect :
    String → String → (ttl now : ℕ) → Store → Result (Store × Option LeaseToken)
claim_effect id holder ttl now s = do
  e ← require_effect id s
  require (not (is_some e.attempt)) invariant
  claim_effect_internal e holder ttl now s

-- transitionClaimedEffect as markEffectSubmitted calls it.
unfoldable pub mark_effect_submitted :
    String → LeaseToken → (digest : String) → (lease_at claim_at now : ℕ) → Store → Result Store
mark_effect_submitted id token digest lease_at claim_at now s = do
  require (is_digest digest) invariant
  e ← assert_effect_writer id token lease_at claim_at s
  if same_state e.state submitted
      then (do require (opt_eq str_eq e.submission_digest (some digest)) invariant; ok s)
      else (do
        require (same_state e.state executing) invariant
        update_effect_state e submitted "effect_submission_acknowledged" (some digest) now
            (record { submission_digest = some digest; result_digest = none; error_code = none }) s)

abbrev pub observation_row :
    String → RecordedStatus → Option String → Option String → LeaseToken → ℕ → EffectObservation
observation_row id status result detail token now = record {
  effect_id = id;
  status = status;
  result_digest = result;
  detail_digest = detail;
  lease_name = token.name;
  lease_generation = token.generation;
  observed_at_ms = now;
}

abbrev pub digest_or_absent : Option String → Bool
digest_or_absent none = true
digest_or_absent (some d) = is_digest d

-- markEffectAmbiguous.
unfoldable pub mark_effect_ambiguous :
    String → LeaseToken → Option String → (lease_at claim_at now : ℕ) → Store → Result Store
mark_effect_ambiguous id token detail lease_at claim_at now s = do
  require (digest_or_absent detail) invariant
  e ← assert_effect_writer id token lease_at claim_at s
  if same_state e.state ambiguous then ok s else (do
    require (same_state e.state executing || same_state e.state submitted) invariant
    s' ← update_effect_state e ambiguous "execution_ambiguous" detail now no_updates s
    ok (
        insert_effect_observation (observation_row id RecordedStatus.pending none detail token now)
          s'))

-- validateObservation.
unfoldable pub validate_observation : Observation → Bool
validate_observation (Observation.observed result detail) =
    is_digest result && digest_or_absent detail
validate_observation (Observation.pending detail) = digest_or_absent detail
validate_observation (Observation.not_found safe detail) = is_digest detail
validate_observation (Observation.conflict detail) = is_digest detail
validate_observation (Observation.application_failure code detail) =
    is_code code && is_digest detail

-- `observation_${status}`.
abbrev pub observation_reason : RecordedStatus → String
observation_reason RecordedStatus.observed = "observation_observed"
observation_reason RecordedStatus.pending = "observation_pending"
observation_reason RecordedStatus.not_found_retryable = "observation_not_found_retryable"
observation_reason RecordedStatus.not_found_ambiguous = "observation_not_found_ambiguous"
observation_reason RecordedStatus.conflict = "observation_conflict"
observation_reason RecordedStatus.application_failure = "observation_application_failure"

abbrev pub first_text : Option String → Option String → Option String
first_text (some t) o = some t
first_text none o = o

abbrev pub is_observed : Observation → Bool
is_observed (Observation.observed result detail) = true
is_observed _ = false

-- A repeated observation of an observed Effect must give its result.
abbrev pub same_result : Effect → Observation → Bool
same_result e (Observation.observed result detail) = opt_eq str_eq e.result_digest (some result)
same_result e _ = false

-- recordEffectObservation, on an Effect that still awaits one.
unfoldable pub apply_observation :
    Effect → LeaseToken → MappedObservation → ℕ → Store → Result Store
apply_observation e token m now s =
    update_effect_state e m.next_state (observation_reason m.status)
      (first_text m.detail_digest m.result_digest) now
      (record {
        submission_digest = none;
        result_digest = m.result_digest;
        error_code = m.error_code;
      })
      (insert_effect_observation
        (observation_row e.id m.status m.result_digest m.detail_digest token now) s)

-- recordEffectObservation.
unfoldable pub record_effect_observation :
    String → LeaseToken → Observation → (lease_at claim_at now : ℕ) → Store → Result Store
record_effect_observation id token observation lease_at claim_at now s = do
  require (validate_observation observation) invariant
  e ← assert_effect_writer id token lease_at claim_at s
  require (not (is_observed observation && is_some e.attempt)) invariant
  if same_state e.state EffectState.observed
      then (do require (same_result e observation) invariant; ok s)
      else (do
        require (not (same_state e.state failed_terminal)) invariant
        require (not (same_state e.state planned || same_state e.state retryable)) invariant
        apply_observation e token (map_observation observation) now s)
