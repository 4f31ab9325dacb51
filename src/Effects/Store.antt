-- ===== src/Effects/Store.antt =====
-- The handlers for Effects in src/purchase/journal.ts. Where the source reads the clock more than
-- once the readings are separate arguments: `lease_at` and `claim_at` for the fence, `now` for the write.
use Prim.Native.String.{◌++◌ as ◌<>◌}
use sompi.Base.{
  ℕ, ◌+◌, ◌==◌, ◌++◌, ◌&&◌, ◌||◌, not, Bool, true, false, String, Option, none, some, List, [], ◌∷◌,
  any_by, ltb, str_eq, opt_eq, or_else, if◌then◌else◌, find_row, replace_row, Result, ok, ◌>>=◌,
  ◌>>◌, require, or_throw, not_found, fencing, effect_busy,
}
use sompi.Effects.Leases.{LeaseRow, LeaseToken, find_lease, assert_lease}
use sompi.Effects.States.{
  EffectState, submitted, same_state, assert_effect_transition, Effect, RecordedStatus,
}

pub record EffectTransition : Type 0 where
  pub effect_id : String
  pub from_state : Option EffectState
  pub to_state : EffectState
  pub reason_code : String
  pub detail_digest : Option String
  pub created_at_ms : ℕ

pub record EffectObservation : Type 0 where
  pub effect_id : String
  pub status : RecordedStatus
  pub result_digest : Option String
  pub detail_digest : Option String
  pub lease_name : String
  pub lease_generation : ℕ
  pub observed_at_ms : ℕ

-- The tables that the handlers read and write.
pub record Store : Type 0 where
  pub leases : List LeaseRow
  pub effects : List Effect
  pub transitions : List EffectTransition
  pub observations : List EffectObservation
  pub purchases : List String
  pub attempts : List (String × ℕ)

-- A LeaseToken with the Effect that it was claimed for.
pub record EffectClaim : Type 0 where
  pub effect : Effect
  pub lease : LeaseToken

abbrev pub effect_id : Effect → String
effect_id e = e.id

-- requireEffect.
unfoldable pub require_effect : String → Store → Result Effect
unfolding find_row
require_effect id s = or_throw (find_row effect_id id s.effects) not_found

-- effectClaimActiveInternal.
unfoldable pub effect_claim_active : Effect → ℕ → Store → Bool
effect_claim_active e now s = elim e.claim_lease_name [
  | none ↦ false
  | some name ↦ elim e.claim_generation [
    | none ↦ false
    | some generation ↦ elim (find_lease name s.leases) [
      | none ↦ false
      | some lease ↦ lease.generation == generation && ltb now lease.expires_at_ms
    ]
  ]
]

unfoldable pub effect_lease_name : String → String
effect_lease_name id = "effect:" <> id

-- The recovery leases: one for all Purchases and one for each.
unfoldable pub is_reconciler : LeaseToken → Effect → Bool
is_reconciler token e =
    str_eq token.name "purchase-reconciliation"
    || str_eq token.name ("purchase-reconciliation:" <> e.purchase_id)

unfoldable pub is_executor : LeaseToken → Effect → Bool
is_executor token e =
    str_eq token.name (effect_lease_name e.id)
    && opt_eq str_eq e.claim_lease_name (some token.name)
    && opt_eq ◌==◌ e.claim_generation (some token.generation)

-- assertEffectWriter, with the Effect that it reads.
unfoldable pub assert_effect_writer :
    String → LeaseToken → (lease_at claim_at : ℕ) → Store → Result Effect
assert_effect_writer id token lease_at claim_at s = do
  assert_lease token lease_at s.leases
  e ← require_effect id s
  if is_reconciler token e
      then require (not (effect_claim_active e claim_at s)) effect_busy
      else require (is_executor token e) fencing
  ok e

-- The columns that a transition may fill.
pub record Updates : Type 0 where
  pub submission_digest : Option String
  pub result_digest : Option String
  pub error_code : Option String

abbrev pub no_updates : Updates
no_updates = record { submission_digest = none; result_digest = none; error_code = none }

abbrev pub set_if : Bool → ℕ → Option ℕ → Option ℕ
set_if true now o = some now
set_if false now o = o

abbrev pub transition_row :
    String → Option EffectState → EffectState → String → Option String → ℕ → EffectTransition
transition_row id from to reason detail now = record {
  effect_id = id;
  from_state = from;
  to_state = to;
  reason_code = reason;
  detail_digest = detail;
  created_at_ms = now;
}

-- The UPDATE of one row and the INSERT of its transition. The row is the one read in the same transaction, so
-- its state and version are those of the WHERE clause.
unfoldable pub write_effect : Effect → Effect → String → Option String → ℕ → Store → Store
unfolding replace_row
write_effect e e' reason detail now s = record s {
  effects = replace_row effect_id e.id e' s.effects;
  transitions = s.transitions ++ transition_row e.id (some e.state) e'.state reason detail now ∷ [];
}

-- The row of updateEffectState.
unfoldable pub updated_effect : Effect → EffectState → ℕ → Updates → Effect
updated_effect e to now updates = record e {
  state = to;
  version = e.version + 1;
  submission_digest = or_else updates.submission_digest e.submission_digest;
  result_digest = or_else updates.result_digest e.result_digest;
  error_code = or_else updates.error_code e.error_code;
  submitted_at_ms = set_if (same_state to submitted) now e.submitted_at_ms;
  observed_at_ms = set_if (same_state to EffectState.observed) now e.observed_at_ms;
  updated_at_ms = now;
}

-- updateEffectState.
unfoldable pub update_effect_state :
    Effect → EffectState → String → Option String → ℕ → Updates → Store → Result Store
update_effect_state e to reason detail now updates s = do
  assert_effect_transition e.state to
  ok (write_effect e (updated_effect e to now updates) reason detail now s)

-- The position of a status, by which the UNIQUE index compares.
abbrev pub status_rank : RecordedStatus → ℕ
status_rank RecordedStatus.observed = 0
status_rank RecordedStatus.pending = 1
status_rank RecordedStatus.not_found_retryable = 2
status_rank RecordedStatus.not_found_ambiguous = 3
status_rank RecordedStatus.conflict = 4
status_rank RecordedStatus.application_failure = 5

abbrev pub text_or_empty : Option String → String
text_or_empty none = ""
text_or_empty (some t) = t

-- INSERT OR IGNORE under the index one_effect_observation_fact.
unfoldable pub insert_effect_observation : EffectObservation → Store → Store
insert_effect_observation o s =
    if any_by
      (λ x.
        str_eq x.effect_id o.effect_id
        && status_rank x.status == status_rank o.status
        && str_eq (text_or_empty x.result_digest) (text_or_empty o.result_digest)
        && str_eq (text_or_empty x.detail_digest) (text_or_empty o.detail_digest))
      s.observations
    then s
    else record s { observations = s.observations ++ o ∷ [] }
