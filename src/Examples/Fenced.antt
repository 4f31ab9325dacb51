-- ===== src/Examples/Fenced.antt =====
-- An Effect that is executed, proven absent and executed again, and a lease that is passed on
-- (src/purchase/journal.ts).
use sompi.Base.{
  ◌+◌, ◌≤◌, ◌≡◌, refl, true, false, String, none, some, List, [], ◌∷◌, ok, err, fencing, arith,
}
use sompi.Base.Text
use sompi.Base.{find_row, replace_row}
use sompi.Effects.Leases.{
  LeaseRow, LeaseToken, acquire_lease, find_lease, lease_current, assert_lease, grant_lease,
  safe_expiry, validate_lease_fields,
}
use sompi.Effects.LeaseHistory.{LeaseCall, lease_run, generation_at, acquire_lease-fences}
use sompi.Effects.States.{Observation}
use sompi.Effects.Store.{Store}
use sompi.Effects.Handlers.{PlanEffectInput}
use sompi.Effects.Commands.{
  EffectCall, plan, claim, mark_ambiguous, observe, change_lease, effect_run,
}
use sompi.Effects.Safety.{claims, absences}
use sompi.Effects.Histories.{run-executes_once}

abbrev digest : String
digest = "sha256:AAAAAAAAAAAAAAAAAAAAAAAAAAAAAAAAAAAAAAAAAAA"

abbrev start : Store
start = record {
  leases = [];
  effects = [];
  transitions = [];
  observations = [];
  purchases = "purchase-1" ∷ [];
  attempts = [];
}

abbrev fulfilment : PlanEffectInput
fulfilment = record {
  purchase_id = "purchase-1";
  attempt = none;
  kind = "fulfilment";
  idempotency_key = "purchase-1:fulfilment";
  payload_digest = digest;
  prepared_ref = "evidence-1";
  prepared_byte_length = 64;
}

abbrev worker_lease : LeaseToken
worker_lease = record {
  name = "effect:effect-1";
  holder = "worker-a";
  generation = 1;
  expires_at_ms = 11000;
}

abbrev recovery_lease : LeaseToken
recovery_lease = record {
  name = "purchase-reconciliation";
  holder = "recovery";
  generation = 1;
  expires_at_ms = 90000;
}

-- The worker is lost, recovery finds that its execution never happened, and another worker takes over.
abbrev calls : List EffectCall
calls =
    plan "effect-1" fulfilment 1000
    ∷ claim "effect-1" "worker-a" 10000 1000
    ∷ claim "effect-1" "worker-b" 10000 2000
    ∷ mark_ambiguous "effect-1" worker_lease none 3000 3000 3001
    ∷ change_lease (LeaseCall.acquire "purchase-reconciliation" "recovery" 70000 20000)
    ∷ observe "effect-1" recovery_lease (Observation.not_found true digest) 20001 20001 20002
    ∷ claim "effect-1" "worker-b" 10000 30000
    ∷ claim "effect-1" "worker-c" 10000 50000
    ∷ []

run-executes_once_example :
    claims "effect-1" (effect_run calls start) ≤ 1 + absences "effect-1" (effect_run calls start)
run-executes_once_example = run-executes_once calls start "effect-1" refl refl

abbrev first_row : LeaseRow
first_row = record {
  name = "effect:effect-1";
  holder = "worker-a";
  generation = 1;
  expires_at_ms = 11000;
  updated_at_ms = 1000;
}

abbrev next_row : LeaseRow
next_row = record {
  name = "effect:effect-1";
  holder = "worker-b";
  generation = 2;
  expires_at_ms = 40000;
  updated_at_ms = 30000;
}

abbrev next_lease : LeaseToken
next_lease = record {
  name = "effect:effect-1";
  holder = "worker-b";
  generation = 2;
  expires_at_ms = 40000;
}

granted :
    acquire_lease "effect:effect-1" "worker-b" 10000 30000 (first_row ∷ [])
    ≡ ok (next_row ∷ [], some next_lease)
unfolding acquire_lease find_lease grant_lease safe_expiry validate_lease_fields
    Text.is_safe_identity Text.codes Text.is_control_or_space find_row replace_row
granted = refl

issued : worker_lease.generation ≤ generation_at "effect:effect-1" (first_row ∷ [])
unfolding find_lease find_row
issued = omega arith

abbrev later_calls : List LeaseCall
later_calls = LeaseCall.renew worker_lease 10000 31000 ∷ LeaseCall.release next_lease 32000 ∷ []

acquire_lease-fences_example :
    (lease_current worker_lease 30000 (find_lease "effect:effect-1" (first_row ∷ [])) ≡ false)
    × (next_lease.generation ≡ generation_at "effect:effect-1" (first_row ∷ []) + 1)
    × (assert_lease worker_lease 33000 (lease_run later_calls (next_row ∷ [])) ≡ err fencing)
acquire_lease-fences_example =
    acquire_lease-fences "effect:effect-1" "worker-b" 10000 30000 (first_row ∷ []) (next_row ∷ [])
      next_lease worker_lease later_calls 33000 granted refl issued
