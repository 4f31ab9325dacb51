-- ===== src/Effects/Commands.antt =====
-- The calls on the Journal's Effects and leases, each one transaction (src/purchase/journal.ts).
use sompi.Base.{ℕ, String, Option, List, [], ◌∷◌, Result, ok, err}
use sompi.Effects.Leases.{LeaseToken}
use sompi.Effects.LeaseHistory.{LeaseCall, lease_call}
use sompi.Effects.States.{Observation}
use sompi.Effects.Store.{Store}
use sompi.Effects.Handlers.{
  PlanEffectInput, plan_effect, claim_effect, mark_effect_submitted, mark_effect_ambiguous,
  record_effect_observation,
}

pub data EffectCall : Type 0 where
  plan : (id : String) → PlanEffectInput → (now : ℕ) → EffectCall
  claim : (id holder : String) → (ttl now : ℕ) → EffectCall
  mark_submitted :
      (id : String) → LeaseToken → (digest : String) → (lease_at claim_at now : ℕ) → EffectCall
  mark_ambiguous :
      (id : String) → LeaseToken → Option String → (lease_at claim_at now : ℕ) → EffectCall
  observe : (id : String) → LeaseToken → Observation → (lease_at claim_at now : ℕ) → EffectCall
  change_lease : LeaseCall → EffectCall

abbrev pub stored {ℓ} : {A : Type ℓ} → Result (Store × A) → Result Store
stored (ok (s, a)) = ok s
stored (err e) = err e

unfoldable pub effect_call : EffectCall → Store → Result Store
effect_call (plan id input now) s = stored (plan_effect id input now s)
effect_call (claim id holder ttl now) s = stored (claim_effect id holder ttl now s)
effect_call (mark_submitted id token digest lease_at claim_at now) s =
    mark_effect_submitted id token digest lease_at claim_at now s
effect_call (mark_ambiguous id token detail lease_at claim_at now) s =
    mark_effect_ambiguous id token detail lease_at claim_at now s
effect_call (observe id token observation lease_at claim_at now) s =
    record_effect_observation id token observation lease_at claim_at now s
effect_call (change_lease c) s = ok (record s { leases = lease_call c s.leases })

-- A call that throws rolls its transaction back.
abbrev pub committed : Store → Result Store → Store
committed s (ok s') = s'
committed s (err e) = s

unfoldable pub effect_run : List EffectCall → Store → Store
effect_run [] s = s
effect_run (c ∷ cs) s = effect_run cs (committed s (effect_call c s))
