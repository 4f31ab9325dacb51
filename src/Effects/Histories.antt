-- ===== src/Effects/Histories.antt =====
-- Sequences of calls on the Journal's Effects, and what they keep (src/purchase/journal.ts).
use mathlib.Core.Path.{subst}
use sompi.Base.{
  ℕ, ◌+◌, ◌≤◌, ◌≡◌, refl, sym, ap, Bool, true, false, ◌||◌, String, Option, none, some, List, [],
  ◌∷◌, sum_by, find_row, inl, inr, Result, ok, err, arith,
}
use sompi.Effects.Leases.{LeaseToken}
use sompi.Effects.States.{
  EffectState, planned, executing, submitted, ambiguous, retryable, same_state, Effect, Observation,
  map_observation,
}
use sompi.Effects.Store.{
  Store, EffectObservation, Updates, effect_id, updated_effect, update_effect_state,
  insert_effect_observation,
}
use sompi.Effects.Handlers.{
  PlanEffectInput, insert_effect, claim_effect, claimed_effect, mark_effect_submitted,
  mark_effect_ambiguous, record_effect_observation, apply_observation, observation_row,
}
use sompi.Effects.Safety.{
  Balanced, Pays, write-Balanced, claims, absences, claim_of, absence_of, open_at, open_state,
  is_executing, is_retryable,
}
use sompi.Effects.Commands.{
  EffectCall, plan, claim, mark_submitted, mark_ambiguous, observe, change_lease, stored,
  effect_call, committed, effect_run,
}
use sompi.Effects.Cases.{
  ok-injective, require_effect-ok, writer-ok, update-cases, insertion-tables, plan-cases,
  claim-cases, claim_internal-cases, submitted-cases, ambiguous-cases, observe-cases, find-planned,
  log-planned,
}

-- The rows and the log that count, and nothing else.
same_tables :
    (s s' : Store) → s'.effects ≡ s.effects → s'.transitions ≡ s.transitions → Balanced s s'
unfolding claims absences
same_tables s s' e t id =
    rw (ap (open_at id) e, ap (sum_by (claim_of id)) t, ap (sum_by (absence_of id)) t) (omega arith)

-- A change of other tables before the step.
Balanced-from :
    (s base s' : Store)
    → base.effects ≡ s.effects
    → base.transitions ≡ s.transitions
    → Balanced base s'
    → Balanced s s'
Balanced-from s base s' e t b id = omega (arith, b id, same_tables s base e t id)

-- An update to a state that is neither planned nor executing.
abbrev settles : EffectState → Bool
settles planned = false
settles executing = false
settles _ = true

settles-cost :
    (to : EffectState)
    → settles to ≡ true
    → (is_executing to ≡ 0) × (open_state to ≤ is_retryable to)
settles-cost to h = ground arith

update-Pays :
    (e : Effect) (to : EffectState) (now : ℕ) (updates : Updates)
    → settles to ≡ true
    → Pays e (updated_effect e to now updates)
unfolding updated_effect
update-Pays e to now updates h = (refl, omega (arith, (settles-cost to h).0, (settles-cost to h).1))

update-Balanced :
    (e : Effect) (to : EffectState) (reason : String) (detail : Option String) (now : ℕ)
    (updates : Updates) (s s' : Store)
    → settles to ≡ true
    → find_row effect_id e.id s.effects ≡ some e
    → update_effect_state e to reason detail now updates s ≡ ok s'
    → Balanced s s'
update-Balanced e to reason detail now updates s s' st found h =
    subst (Balanced s) (update-cases e to reason detail now updates s s' h) (
      write-Balanced e (updated_effect e to now updates) reason detail now s found
        (update-Pays e to now updates st))

insertion-Balanced :
    (o : EffectObservation) (s : Store) → Balanced s (insert_effect_observation o s)
insertion-Balanced o s =
    same_tables s (insert_effect_observation o s) (insertion-tables o s).0 (insertion-tables o s).1

Balanced-refl : (s : Store) → Balanced s s
Balanced-refl s id = omega arith

Balanced-trans : (s t u : Store) → Balanced s t → Balanced t u → Balanced s u
Balanced-trans s t u a b id = omega (arith, a id, b id)

mapped-settles : (o : Observation) → settles (map_observation o).next_state ≡ true
unfolding map_observation
mapped-settles o = ground arith

claimed-Pays :
    (e : Effect) (lease : LeaseToken) (now : ℕ)
    → (same_state e.state planned || same_state e.state retryable) ≡ true
    → Pays e (claimed_effect e lease now)
unfolding claimed_effect
claimed-Pays e lease now h = (refl, ground arith)

plan-Balanced :
    (id : String) (input : PlanEffectInput) (now : ℕ) (s : Store)
    → find_row effect_id id s.effects ≡ none
    → Balanced s (insert_effect id input now s)
plan-Balanced id input now s absent k =
    omega (arith, find-planned id input now s k absent, log-planned id input now s k)

claim-Balanced :
    (id holder : String) (ttl now : ℕ) (s s' : Store)
    → stored (claim_effect id holder ttl now s) ≡ ok s'
    → Balanced s s'
claim-Balanced id holder ttl now s s' h =
    let (e, found, claimed) = claim-cases id holder ttl now s s' h in
    elim (claim_internal-cases e holder ttl now s s' claimed) [
      | inl same ↦ subst (Balanced s) same (Balanced-refl s)
      | inr (granted, lease, _, _, ready, written) ↦
          let base = record s { leases = granted.0 } in
          subst (Balanced s) written (
            Balanced-from s base _ refl refl (
              write-Balanced e (claimed_effect e lease now) "effect_claimed" (some e.payload_digest)
                now base (require_effect-ok id s e found) (claimed-Pays e lease now ready)))
    ]

submitted-Balanced :
    (id : String) (token : LeaseToken) (digest : String) (lease_at claim_at now : ℕ) (s s' : Store)
    → mark_effect_submitted id token digest lease_at claim_at now s ≡ ok s'
    → Balanced s s'
submitted-Balanced id token digest lease_at claim_at now s s' h =
    elim (submitted-cases id token digest lease_at claim_at now s s' h) [
      | inl same ↦ subst (Balanced s) same (Balanced-refl s)
      | inr (e, writer, updated) ↦
          update-Balanced e submitted _ _ now _ s s' refl
            (writer-ok id token lease_at claim_at s e writer) updated
    ]

ambiguous-Balanced :
    (id : String) (token : LeaseToken) (detail : Option String) (lease_at claim_at now : ℕ)
    (s s' : Store)
    → mark_effect_ambiguous id token detail lease_at claim_at now s ≡ ok s'
    → Balanced s s'
ambiguous-Balanced id token detail lease_at claim_at now s s' h =
    elim (ambiguous-cases id token detail lease_at claim_at now s s' h) [
      | inl same ↦ subst (Balanced s) same (Balanced-refl s)
      | inr (e, t, writer, updated, logged) ↦ subst (Balanced s) logged (
          Balanced-trans s t _
            (update-Balanced e ambiguous _ _ now _ s t refl
              (writer-ok id token lease_at claim_at s e writer) updated)
            (insertion-Balanced _ t))
    ]

apply-Balanced :
    (e : Effect) (token : LeaseToken) (o : Observation) (now : ℕ) (s s' : Store)
    → find_row effect_id e.id s.effects ≡ some e
    → apply_observation e token (map_observation o) now s ≡ ok s'
    → Balanced s s'
unfolding apply_observation
apply-Balanced e token o now s s' found h =
    let m = map_observation o in
    let row = observation_row e.id m.status m.result_digest m.detail_digest token now in
    let base = insert_effect_observation row s in
    let (effects, transitions) = insertion-tables row s in
    Balanced-from s base s' effects transitions (
      update-Balanced e m.next_state _ _ now _ base s' (mapped-settles o)
        (subst (λ es. find_row effect_id e.id es ≡ some e) (sym effects) found) h)

observe-Balanced :
    (id : String) (token : LeaseToken) (o : Observation) (lease_at claim_at now : ℕ) (s s' : Store)
    → record_effect_observation id token o lease_at claim_at now s ≡ ok s'
    → Balanced s s'
observe-Balanced id token o lease_at claim_at now s s' h =
    elim (observe-cases id token o lease_at claim_at now s s' h) [
      | inl same ↦ subst (Balanced s) same (Balanced-refl s)
      | inr (e, writer, applied) ↦
          apply-Balanced e token o now s s' (writer-ok id token lease_at claim_at s e writer)
            applied
    ]

-- Every call that does not throw.
call-Balanced : (c : EffectCall) (s s' : Store) → effect_call c s ≡ ok s' → Balanced s s'
unfolding effect_call
call-Balanced (plan id input now) s s' h = elim (plan-cases id input now s s' h) [
  | inl same ↦ subst (Balanced s) same (Balanced-refl s)
  | inr (absent, written) ↦ subst (Balanced s) written (plan-Balanced id input now s absent)
]
call-Balanced (claim id holder ttl now) s s' h = claim-Balanced id holder ttl now s s' h
call-Balanced (mark_submitted id token digest lease_at claim_at now) s s' h =
    submitted-Balanced id token digest lease_at claim_at now s s' h
call-Balanced (mark_ambiguous id token detail lease_at claim_at now) s s' h =
    ambiguous-Balanced id token detail lease_at claim_at now s s' h
call-Balanced (observe id token o lease_at claim_at now) s s' h =
    observe-Balanced id token o lease_at claim_at now s s' h
call-Balanced (change_lease c) s s' h =
    subst (Balanced s) (ok-injective _ s' h) (same_tables s _ refl refl)

committed-Balanced :
    (s : Store) (r : Result Store)
    → ((s' : Store) → r ≡ ok s' → Balanced s s')
    → Balanced s (committed s r)
committed-Balanced s (ok s') f = f s' refl
committed-Balanced s (err e) f = Balanced-refl s

run-Balanced : (cs : List EffectCall) (s : Store) → Balanced s (effect_run cs s)
unfolding effect_run
run-Balanced [] s = Balanced-refl s
run-Balanced (c ∷ cs) s =
    let s' = committed s (effect_call c s) in
    Balanced-trans s s' (effect_run cs s')
      (committed-Balanced s (effect_call c s) (λ t. call-Balanced c s t)) (run-Balanced cs s')

empty_balance :
    (s : Store) (id : String)
    → s.effects ≡ []
    → s.transitions ≡ []
    → claims id s + open_at id s.effects ≤ 1 + absences id s
unfolding claims absences find_row
empty_balance s id e t = rw (ap (open_at id) e, ap (sum_by (claim_of id)) t) (omega arith)

-- From tables without Effects and transitions, after any sequence of calls, an Effect has been claimed for
-- execution at most once more than it has been proven absent.
pub run-executes_once :
    (cs : List EffectCall) (s : Store) (id : String)
    → s.effects ≡ []
    → s.transitions ≡ []
    → claims id (effect_run cs s) ≤ 1 + absences id (effect_run cs s)
run-executes_once cs s id no_effects no_transitions =
    omega (arith, run-Balanced cs s id, empty_balance s id no_effects no_transitions)
