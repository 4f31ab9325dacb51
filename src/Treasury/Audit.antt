-- ===== src/Treasury/Audit.antt =====
-- What verifySemanticConsistency of src/purchase/journal.ts asks of each direct operation when the Journal
-- is opened. The reading of the prepared bytes from the evidence store is a parameter.
use sompi.Base.{
  ℕ, Bool, not, ◌&&◌, ◌||◌, String, some, List, [], ◌∷◌, ltb, ◌==◌, str_eq, opt_eq, is_some,
  if◌then◌else◌, count_by, Result, ok, err, ◌>>=◌, ◌>>◌, require, invariant,
}
use sompi.Treasury.Types.{
  OperationState, intent, prepared, submission_planned, submitted, observed, completed,
  failed_terminal, same_state, Operation, Observation, Transition, seen, status_rank, Journal,
}
use sompi.Treasury.Handlers.{require_policy}

-- directTreasuryTransitionAllowed.
unfoldable pub transition_allowed : OperationState → OperationState → Bool
transition_allowed from to =
    same_state from to
    || (same_state from intent
        && (same_state to intent || same_state to prepared || same_state to failed_terminal))
    || (same_state from prepared && same_state to submission_planned)
    || (same_state from submission_planned
        && (same_state to prepared
            || same_state to submitted
            || same_state to observed
            || same_state to failed_terminal))
    || (same_state from submitted
        && (same_state to prepared || same_state to observed || same_state to failed_terminal))
    || (same_state from observed && same_state to completed)

-- SELECT ... FROM treasury_operation_transitions WHERE operation_key = ? ORDER BY sequence.
unfoldable pub history_of : String → List Transition → List Transition
history_of key [] = []
history_of key (t ∷ ts) =
    if str_eq t.operation_key key then t ∷ history_of key ts else history_of key ts

-- The loop over the transitions after the first.
unfoldable pub audit_steps : OperationState → (at : ℕ) → List Transition → Result OperationState
audit_steps state at [] = ok state
audit_steps state at (t ∷ ts) = do
  require
      (opt_eq same_state t.from_state (some state)
        && not (ltb t.created_at_ms at)
        && transition_allowed state t.to_state)
      invariant
  audit_steps t.to_state t.created_at_ms ts

-- The state to which a history leads.
unfoldable pub audit_history : List Transition → Result OperationState
audit_history [] = err invariant
audit_history (t ∷ ts) = do
  require (not (is_some t.from_state) && same_state t.to_state intent) invariant
  audit_steps intent t.created_at_ms ts

unfoldable pub observed_count : String → List Observation → ℕ
observed_count key os =
    count_by (λ o. str_eq o.operation_key key && status_rank o.status == status_rank seen) os

abbrev pub was_observed : Operation → Bool
was_observed r = same_state r.state observed || same_state r.state completed

-- The facts that the row and its observations must agree on.
unfoldable pub facts_agree : Operation → ℕ → Bool
facts_agree r observations =
    (if was_observed r then observations == 1 else observations == 0)
    && (if same_state r.state completed
        then is_some r.completed_at_ms
        else not (is_some r.completed_at_ms))

-- One operation, from its history to its facts.
unfoldable pub audit_operation :
    (Operation → Result (Unit {0})) → Journal → Operation → Result (Unit {0})
audit_operation read_prepared j r = do
  state ← audit_history (history_of r.operation_key j.transitions)
  require (same_state state r.state) invariant
  require (not r.preparation_fenced || same_state r.state intent) invariant
  _ ← require_policy r.policy_digest j
  if same_state r.state intent || same_state r.state failed_terminal then ok tt else read_prepared r
  require (facts_agree r (observed_count r.operation_key j.observations)) invariant

-- The loop over all operations.
unfoldable pub audit_operations :
    (Operation → Result (Unit {0})) → Journal → List Operation → Result (Unit {0})
audit_operations read_prepared j [] = ok tt
audit_operations read_prepared j (r ∷ rs) = do
  audit_operation read_prepared j r
  audit_operations read_prepared j rs
