-- ===== src/Treasury/Histories.antt =====
-- What holds over any sequence of calls on direct Treasury Operations (src/purchase/journal.ts).
use sompi.Base.{
  is_code, is_operation_key, is_transaction_id, invariant, leb, ◌&&◌, ℕ, ◌≡◌, refl, sym, ◌∙◌, ap,
  Bool, true, false, String, Option, none, some, count_by, sum_by, Result, ok, err, ◌>>◌, require,
  arith, Error, inl, inr, ◌⊎◌,
}
use sompi.Treasury.Types.{
  Operation, PreparedOperation, ObservationStatus, Observation, DriverLease, Journal,
}
use sompi.Treasury.Capacity.{expire_reservations}
use sompi.Treasury.Rows.{
  Outcome, kept, moved, observe_row, claim_driver_row, retry_row, fail_row, fence_row, accepted_row,
}
use sompi.Treasury.Tables.{find_operation, write_outcome, on_operation}
use sompi.Treasury.Intake.{unresolved}
use sompi.Treasury.Handlers
use sompi.Treasury.Handlers.{
  insert_observation, observe_operation, observation_row, record_treasury_operation_observation,
  unresolved_treasury_operation_count,
}
use sompi.Treasury.Moves.{
  Move, claim_driver_row-Move, renew_driver_row-Move, release_driver_row-Move, prepare_row-Move,
  retry_row-Move, fail_row-Move, fence_row-Move, cancel_row-Move, request_cancellation_row-Move,
  plan_row-Move, claim_capability_row-Move, accepted_row-Move, observe_row-Move, complete_row-Move,
}
use sompi.Treasury.Audit.{history_of}
use sompi.Treasury.Logs.{chain, state_of}
use sompi.Treasury.Sound.{
  Sound, Sound-refl, Follows-refl, write-Sound, launches, launch_of, permits_at,
}
use sompi.Treasury.Calls.{
  Moves, on_operation-Sound, claim_intent-Sound, find-expire, transitions-expire,
}
use sompi.Treasury.Commands.{
  Command, claim_intent, claim_driver, renew_driver, release_driver, prepare, retry, fail, fence,
  cancel, request_cancellation, plan, claim_capability, accept, observe, complete, tables, call,
}

tables-ok :
    (m : Result (Journal × Outcome)) (j' : Journal)
    → tables m ≡ ok j'
    → (o : Outcome) × (m ≡ ok (j', o))
tables-ok (ok (j, o)) j' h = (o, ground arith)
tables-ok (err e) j' h = cc

require-ok {ℓ} :
    {B : Type ℓ} (b : Bool) (e : Error) (m : Result B) {x : B}
    → (require b e >> m) ≡ ok x
    → m ≡ ok x
require-ok true e m h = h
require-ok false e m h = cc

observation_tables :
    (o : Observation) (j : Journal)
    → ((insert_observation o j).operations ≡ j.operations)
      × ((insert_observation o j).transitions ≡ j.transitions)
unfolding insert_observation
observation_tables o j = ground arith

-- A call that is a transaction on one row, behind its checks, is sound.
row_call-Sound :
    (key : String) (now : ℕ) (j base : Journal) (f : Operation → Result Outcome) (j' : Journal)
    → base.operations ≡ j.operations
    → base.transitions ≡ j.transitions
    → Moves f
    → tables (on_operation key now j base f) ≡ ok j'
    → Sound j j'
row_call-Sound key now j base f j' eo et mv h =
    let (o, e) = tables-ok (on_operation key now j base f) j' h in
    on_operation-Sound key now j base f j' o eo et mv e

tables-require :
    (b : Bool) (e : Error) (m : Result (Journal × Outcome)) (j' : Journal)
    → tables (require b e >> m) ≡ ok j'
    → tables m ≡ ok j'
tables-require true e m j' h = h
tables-require false e m j' h = cc

result_cases : (m : Result (Unit {0})) → (m ≡ ok tt) ⊎ ((x : Error) × (m ≡ err x))
result_cases (ok tt) = inl refl
result_cases (err x) = inr (x, refl)

tables-validated :
    (p : PreparedOperation) (m : Result (Journal × Outcome)) (j' : Journal)
    → tables (Handlers.validate_prepared p >> m) ≡ ok j'
    → tables m ≡ ok j'
tables-validated p m j' h = elim (result_cases (Handlers.validate_prepared p)) [
  | inl e ↦ rw e at h
  | inr (x, e) ↦ absurd (refused x m j' (rw e at h))
]
  where
    refused :
        (x : Error) (m : Result (Journal × Outcome)) (j' : Journal)
        → tables (err x >> m) ≡ ok j'
        → ⊥
    refused x m j' k = cc

total_Moves :
    (g : Operation → Outcome)
    → ((r r' : Operation) (why : Option String) → g r ≡ moved r' why → Move r r' why)
    → Moves (λ r. ok (g r))
total_Moves g mv r r' why e = mv r r' why (cc)

-- Tables with the same operations and the same log.
pub unchanged-Sound :
    (j j' : Journal) → j'.operations ≡ j.operations → j'.transitions ≡ j.transitions → Sound j j'
unfolding launches
unchanged-Sound j j' eo et = record {
  budget = λ k. rw (ap (permits_at k) eo, ap (sum_by (launch_of k)) et) (omega arith);
  grows = λ k. rw (ap (sum_by (launch_of k)) et) (omega arith);
  follows = λ k r h. (r, ap (find_operation k) eo ∙ h, Follows-refl r);
  prices = λ p k r h. p k r (ap (find_operation k) (sym eo) ∙ h);
  chained = λ k c.
      ap (λ ts. chain none (history_of k ts)) et
      ∙ c
      ∙ ap (λ rs. ok (state_of (find_operation k rs))) (sym eo);
  exclusive = λ h. rw (ap (count_by unresolved) eo) h;
}

observation_cases :
    (key : String) (status : ObservationStatus) (digest json : String) (byte_length : ℕ)
    (driver : Option DriverLease) (seen_at now : ℕ) (j j' : Journal) (o : Outcome)
    → record_treasury_operation_observation key status digest json byte_length driver seen_at now j
      ≡ ok (j', o)
    → (r : Operation) × (find_operation key j.operations ≡ some r)
      × (observe_operation (observation_row key status digest json now) driver seen_at now j r
          ≡ ok (j', o))
unfolding Handlers.record_treasury_operation_observation
observation_cases key status digest json byte_length driver seen_at now j j' o h = ground arith

observe_operation-cases :
    (row : Observation) (driver : Option DriverLease) (seen_at now : ℕ) (j j' : Journal)
    (o : Outcome) (r : Operation)
    → observe_operation row driver seen_at now j r ≡ ok (j', o)
    → (j' ≡ j)
      ⊎ ((observe_row row.status driver seen_at now r ≡ ok o)
          × (j' ≡ write_outcome row.operation_key now r o (insert_observation row j)))
unfolding Handlers.observe_operation
observe_operation-cases row driver seen_at now j j' o r h = ground arith

observed-Sound :
    (key : String) (now : ℕ) (r : Operation) (o : Outcome) (row : Observation) (j : Journal)
    → find_operation key j.operations ≡ some r
    → ((r' : Operation) (why : Option String) → o ≡ moved r' why → Move r r' why)
    → Sound j (write_outcome key now r o (insert_observation row j))
unfolding write_outcome
observed-Sound key now r kept row j found mv =
    let (eo, et) = observation_tables row j in unchanged-Sound j (insert_observation row j) eo et
observed-Sound key now r (moved r' why) row j found mv =
    let (eo, et) = observation_tables row j in
    write-Sound key now r r' why j (insert_observation row j) eo et found (mv r' why refl)

observation-Sound :
    (key : String) (status : ObservationStatus) (digest json : String) (byte_length : ℕ)
    (driver : Option DriverLease) (seen_at now : ℕ) (j j' : Journal)
    → tables (
        record_treasury_operation_observation key status digest json byte_length driver seen_at now
          j)
      ≡ ok j'
    → Sound j j'
observation-Sound key status digest json byte_length driver seen_at now j j' h =
    let (o, e) =
      tables-ok
        (record_treasury_operation_observation key status digest json byte_length driver seen_at now
          j)
        j' h in
    let row = observation_row key status digest json now in
    let (r, found, k) =
      observation_cases key status digest json byte_length driver seen_at now j j' o e in
    elim (observe_operation-cases row driver seen_at now j j' o r k) [
      | inl same ↦ rw same (Sound-refl j)
      | inr (probed, written) ↦ rw written (
          observed-Sound key now r o row j found
            (λ r' why q. observe_row-Move status driver seen_at now r (probed ∙ ap ok q)))
    ]

-- Whichever call is committed, it is sound.
pub call-Sound : (c : Command) (j j' : Journal) → call c j ≡ ok j' → Sound j j'
unfolding call Handlers.claim_treasury_operation_driver Handlers.renew_treasury_operation_driver
    Handlers.release_treasury_operation_driver Handlers.record_prepared_treasury_operation
    Handlers.record_treasury_preparation_retry Handlers.fail_treasury_operation_preparation
    Handlers.fence_treasury_operation_preparation Handlers.cancel_treasury_operation
    Handlers.request_treasury_operation_cancellation Handlers.plan_treasury_operation_submission
    Handlers.claim_treasury_operation_effect_capability
    Handlers.record_treasury_operation_submission_accepted Handlers.complete_treasury_operation
call-Sound (claim_intent input now) j j' h = claim_intent-Sound input now j j' h
call-Sound (claim_driver key owner ttl now) j j' h =
    row_call-Sound key now j j _ j' refl refl
      (total_Moves _ (λ r r' why e. claim_driver_row-Move owner ttl now r e))
      (tables-require (leb 1000 ttl && leb ttl 600000) invariant
        (on_operation key now j j (λ r. ok (claim_driver_row owner ttl now r))) j'
        (tables-require (is_operation_key owner) invariant _ j' h))
call-Sound (renew_driver lease key now) j j' h =
    row_call-Sound key now j j _ j' refl refl (λ r r' why e. renew_driver_row-Move lease now r e) h
call-Sound (release_driver lease key now) j j' h =
    row_call-Sound key now j j _ j' refl refl
      (total_Moves _ (λ r r' why e. release_driver_row-Move lease now r e)) h
call-Sound (prepare key p driver seen_at now) j j' h =
    row_call-Sound key now j (expire_reservations now j) _ j' (find-expire now j)
      (transitions-expire now j) (λ r r' why e. prepare_row-Move p driver seen_at now _ _ _ r e)
      (tables-validated p _ j' (tables-require (is_operation_key key) invariant _ j' h))
call-Sound (retry key reason driver seen_at now) j j' h =
    row_call-Sound key now j j _ j' refl refl
      (λ r r' why e. retry_row-Move reason driver seen_at now r e)
      (tables-require (is_code reason) invariant
        (on_operation key now j j (retry_row reason driver seen_at now)) j' h)
call-Sound (fail key reason driver seen_at now) j j' h =
    row_call-Sound key now j j _ j' refl refl
      (λ r r' why e. fail_row-Move reason driver seen_at now r e)
      (tables-require (Handlers.terminal_reason reason) invariant
        (on_operation key now j j (fail_row reason driver seen_at now)) j' h)
call-Sound (fence key reason driver seen_at now) j j' h =
    row_call-Sound key now j j _ j' refl refl
      (λ r r' why e. fence_row-Move reason driver seen_at now r e)
      (tables-require (is_code reason) invariant
        (on_operation key now j j (fence_row reason driver seen_at now)) j' h)
call-Sound (cancel key earlier seen_at now) j j' h =
    row_call-Sound key now j j _ j' refl refl
      (λ r r' why e. cancel_row-Move earlier seen_at now r e) h
call-Sound (request_cancellation key now) j j' h =
    row_call-Sound key now j j _ j' refl refl
      (total_Moves _ (λ r r' why e. request_cancellation_row-Move now r e)) h
call-Sound (plan key driver seen_at now) j j' h =
    row_call-Sound key now j (expire_reservations now j) _ j' (find-expire now j)
      (transitions-expire now j) (λ r r' why e. plan_row-Move driver seen_at now _ _ r e) h
call-Sound (claim_capability key driver seen_at now) j j' h =
    row_call-Sound key now j j _ j' refl refl
      (total_Moves _ (λ r r' why e. claim_capability_row-Move driver seen_at now r e)) h
call-Sound (accept key transaction_id driver seen_at now) j j' h =
    row_call-Sound key now j j _ j' refl refl
      (λ r r' why e. accepted_row-Move transaction_id driver seen_at now r e)
      (tables-require (is_transaction_id transaction_id) invariant
        (on_operation key now j j (accepted_row transaction_id driver seen_at now)) j' h)
call-Sound (observe key status digest json byte_length driver seen_at now) j j' h =
    observation-Sound key status digest json byte_length driver seen_at now j j' h
call-Sound (complete key driver seen_at now) j j' h =
    row_call-Sound key now j j _ j' refl refl
      (λ r r' why e. complete_row-Move driver seen_at now r e) h
