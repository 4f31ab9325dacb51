-- ===== src/Effects/Cases.antt =====
-- What a call on the Journal's Effects did when it did not throw (src/purchase/journal.ts).
use mathlib.Core.Path.{subst}
use sompi.Base.{
  ℕ, ◌≡◌, refl, sym, ◌∙◌, ap, true, ◌||◌, String, Option, none, some, List, [], ◌∷◌, str_eq,
  sum_by-append, find_row, find-row_key, Bool-cases, ◌⊎◌, inl, inr, Result, ok, eq_iff, arith,
}
use sompi.Effects.Leases.{LeaseRow, LeaseToken, acquire_lease}
use sompi.Effects.States.{
  EffectState, planned, submitted, ambiguous, retryable, same_state, Effect, Observation,
  RecordedStatus, map_observation,
}
use sompi.Effects.Store.{
  Store, EffectObservation, Updates, effect_id, require_effect, write_effect, updated_effect,
  update_effect_state, insert_effect_observation, transition_row, assert_effect_writer,
  effect_lease_name, no_updates,
}
use sompi.Effects.Handlers.{
  PlanEffectInput, plan_effect, insert_effect, new_effect, claim_effect, claim_effect_internal,
  claimed_effect, mark_effect_submitted, mark_effect_ambiguous, record_effect_observation,
  apply_observation, observation_row,
}
use sompi.Effects.Safety.{claims, absences, claim_of, absence_of, open_at, open_of}
use sompi.Effects.Commands.{stored}

pub ok-injective : {A : Type 0} (a b : A) → Path (Result A) (ok a) (ok b) → a ≡ b
ok-injective a b h = cc

pub require_effect-ok :
    (id : String) (s : Store) (e : Effect)
    → require_effect id s ≡ ok e
    → find_row effect_id e.id s.effects ≡ some e
unfolding require_effect
require_effect-ok id s e h =
    let found : find_row effect_id id s.effects ≡ some e = ground arith in
    let same = (eq_iff e.id id).0 (find-row_key effect_id id e s.effects found) in
    subst (λ k. find_row effect_id k s.effects ≡ some e) (sym same) found

pub writer-ok :
    (id : String) (token : LeaseToken) (lease_at claim_at : ℕ) (s : Store) (e : Effect)
    → assert_effect_writer id token lease_at claim_at s ≡ ok e
    → find_row effect_id e.id s.effects ≡ some e
writer-ok id token lease_at claim_at s e h =
    require_effect-ok id s e (writer_reads id token lease_at claim_at s e h)
  where
    writer_reads :
        (id : String) (token : LeaseToken) (lease_at claim_at : ℕ) (s : Store) (e : Effect)
        → assert_effect_writer id token lease_at claim_at s ≡ ok e
        → require_effect id s ≡ ok e
    writer_reads id token lease_at claim_at s e h = unfold assert_effect_writer in ground arith

pub update-cases :
    (e : Effect) (to : EffectState) (reason : String) (detail : Option String) (now : ℕ)
    (updates : Updates) (s s' : Store)
    → update_effect_state e to reason detail now updates s ≡ ok s'
    → write_effect e (updated_effect e to now updates) reason detail now s ≡ s'
unfolding update_effect_state
update-cases e to reason detail now updates s s' h = ground arith

pub insertion-tables :
    (o : EffectObservation) (s : Store)
    → ((insert_effect_observation o s).effects ≡ s.effects)
      × ((insert_effect_observation o s).transitions ≡ s.transitions)
unfolding insert_effect_observation
insertion-tables o s = (ground arith, ground arith)

pub plan-cases :
    (id : String) (input : PlanEffectInput) (now : ℕ) (s s' : Store)
    → stored (plan_effect id input now s) ≡ ok s'
    → (s ≡ s') ⊎ ((find_row effect_id id s.effects ≡ none) × (insert_effect id input now s ≡ s'))
unfolding plan_effect
plan-cases id input now s s' h = ground arith

pub claim-cases :
    (id holder : String) (ttl now : ℕ) (s s' : Store)
    → stored (claim_effect id holder ttl now s) ≡ ok s'
    → (e : Effect) × (require_effect id s ≡ ok e)
      × (stored (claim_effect_internal e holder ttl now s) ≡ ok s')
unfolding claim_effect
claim-cases id holder ttl now s s' h = ground arith

pub claim_internal-cases :
    (e : Effect) (holder : String) (ttl now : ℕ) (s s' : Store)
    → stored (claim_effect_internal e holder ttl now s) ≡ ok s'
    → (s ≡ s')
      ⊎ (granted : List LeaseRow × Option LeaseToken) × (lease : LeaseToken) × (acquire_lease
            (effect_lease_name e.id)
            holder
            ttl
            now
            s.leases
          ≡ ok granted)
        × (granted.1 ≡ some lease)
        × ((same_state e.state planned || same_state e.state retryable) ≡ true)
        × (write_effect e
              (claimed_effect e lease now)
              "effect_claimed"
              (some e.payload_digest)
              now
              (record s { leases = granted.0 })
            ≡ s')
unfolding claim_effect_internal
claim_internal-cases e holder ttl now s s' h = ground arith

pub submitted-cases :
    (id : String) (token : LeaseToken) (digest : String) (lease_at claim_at now : ℕ) (s s' : Store)
    → mark_effect_submitted id token digest lease_at claim_at now s ≡ ok s'
    → (s ≡ s')
      ⊎ (e : Effect) × (assert_effect_writer id token lease_at claim_at s ≡ ok e)
        × (update_effect_state e submitted "effect_submission_acknowledged"
              (some digest)
              now
              (record { submission_digest = some digest; result_digest = none; error_code = none })
              s
            ≡ ok s')
unfolding mark_effect_submitted
submitted-cases id token digest lease_at claim_at now s s' h = ground arith

pub ambiguous-cases :
    (id : String) (token : LeaseToken) (detail : Option String) (lease_at claim_at now : ℕ)
    (s s' : Store)
    → mark_effect_ambiguous id token detail lease_at claim_at now s ≡ ok s'
    → (s ≡ s')
      ⊎ (e : Effect) × (t : Store) × (assert_effect_writer id token lease_at claim_at s ≡ ok e)
        × (update_effect_state e ambiguous "execution_ambiguous" detail now no_updates s ≡ ok t)
        × (insert_effect_observation
              (observation_row id RecordedStatus.pending none detail token now)
              t
            ≡ s')
unfolding mark_effect_ambiguous
ambiguous-cases id token detail lease_at claim_at now s s' h = ground arith

pub observe-cases :
    (id : String) (token : LeaseToken) (observation : Observation) (lease_at claim_at now : ℕ)
    (s s' : Store)
    → record_effect_observation id token observation lease_at claim_at now s ≡ ok s'
    → (s ≡ s')
      ⊎ (e : Effect) × (assert_effect_writer id token lease_at claim_at s ≡ ok e)
        × (apply_observation e token (map_observation observation) now s ≡ ok s')
unfolding record_effect_observation
observe-cases id token observation lease_at claim_at now s s' h = ground arith

pub find-planned :
    (id : String) (input : PlanEffectInput) (now : ℕ) (s : Store) (k : String)
    → find_row effect_id id s.effects ≡ none
    → open_at k (insert_effect id input now s).effects ≡ open_at k s.effects
unfolding find_row insert_effect new_effect
find-planned id input now s k absent = elim (Bool-cases (str_eq id k)) [
  | inl same ↦
      let before : find_row effect_id k s.effects ≡ none = rw (← (eq_iff id k).0 same) absent in
      rw (same, ap open_of before) refl
  | inr other ↦ rw other refl
]

pub log-planned :
    (id : String) (input : PlanEffectInput) (now : ℕ) (s : Store) (k : String)
    → (claims k (insert_effect id input now s) ≡ claims k s)
      × (absences k (insert_effect id input now s) ≡ absences k s)
unfolding claims absences insert_effect claim_of absence_of
log-planned id input now s k =
    let row = transition_row id none planned "effect_planned" (some input.payload_digest) now in
    (
      sum_by-append (claim_of k) s.transitions (row ∷ []) ∙ ground arith,
      sum_by-append (absence_of k) s.transitions (row ∷ []) ∙ ground arith,
    )
