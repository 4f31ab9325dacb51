-- ===== src/Driver/Ends.antt =====
-- How many requests a driver of src/treasury/operations.ts makes, loop by loop.
use sompi.Base.{
  ℕ, zero, suc, ◌-◌, ◌≤◌, ◌≡◌, true, not, ◌&&◌, ◌||◌, String, Option, none, some, ltb, leb,
  if◌then◌else◌, is_some, Result, ok, err, arith,
}
use sompi.Treasury.Types.{
  Operation, DriverLease, PolicySnapshot, Journal, intent, prepared, observed, same_state,
}
use sompi.Treasury.Capacity.{keeps_principal}
use sompi.Treasury.Rows.{is_terminal, is_open_preparation}
use sompi.Treasury.Tables.{find_operation, find_policy}
use sompi.Driver.Process.{
  PreparationError, is_terminal_pre_effect_failure, is_transient_preparation_failure, Preparation,
  ready, failed, Drive, returned, threw, read, read_capacity, transact, ask_prepare, ask_submit,
  ask_observe, ask,
}
use sompi.Driver.Loop.{
  with_row, snapshot_admits, own_capacity, authorized, commit_or_return, after_submission,
  launch_submission, claim_and_launch, plan_and_launch, submit_prepared, after_preparation,
  after_reconciliation, preparation_failed, preparation_refused, record_preparation, prepare_intent,
  drive_owned, finally_released, drive_claimed, lease_of, claim_or, wait_for_driver, drive,
  is_launched,
}
use sompi.Driver.Runs.{Surroundings, finish}
use sompi.Driver.Bounds.{
  EndsWithin, finish-EndsWithin, sooner, row_ends, if_ends, required_ends, result_ends,
  recorded_ends, returned_ends, committed_ends, reconcile_ends,
}

after_submission_ends :
    (k : String) (lease : DriverLease) (answer : Option String)
    → EndsWithin 7 (after_submission k lease answer)
unfolding after_submission commit_or_return
after_submission_ends k lease none =
    required_ends 6 k _ λ r. reconcile_ends 3 k lease r returned λ _. tt
after_submission_ends k lease (some id) = recorded_ends 6 k _ _ λ r.
    reconcile_ends 3 k lease r _
      λ s. if_ends 3 (same_state s.state observed) _ _ (committed_ends 0 k lease s) tt

launch_ends : (k : String) (lease : DriverLease) → EndsWithin 10 (launch_submission k lease)
unfolding launch_submission
launch_ends k lease =
    required_ends 9 k _
      λ r. λ stored. if_ends 8 (not stored) _ _ tt λ a. after_submission_ends k lease a

claim_ends : (k : String) (lease : DriverLease) → EndsWithin 11 (claim_and_launch k lease)
unfolding claim_and_launch
claim_ends k lease = λ m granted.
    if_ends 10 granted _ _ (result_ends 10 m _ λ _. launch_ends k lease)
      (result_ends 10 m _ λ _. required_ends 9 k returned λ _. tt)

plan_ends : (k : String) (lease : DriverLease) → EndsWithin 13 (plan_and_launch k lease)
unfolding plan_and_launch
plan_ends k lease = λ m planned. result_ends 12 m _ λ _.
    if_ends 12 planned _ _ (required_ends 11 k _ λ _. claim_ends k lease)
      (required_ends 11 k returned λ _. tt)

admitted_ends :
    (n : ℕ) (o : Option PolicySnapshot) (destination : String) (amount left : ℕ) (next : Drive)
    → EndsWithin n next
    → EndsWithin n (elim o [
      | none ↦ threw
      | some snapshot ↦ if snapshot_admits snapshot destination amount left then next else threw
    ])
admitted_ends n none destination amount left next h = tt
admitted_ends n (some snapshot) destination amount left next h =
    if_ends n (snapshot_admits snapshot destination amount left) _ _ h tt

authorized_ends :
    (k destination : String) (amount : ℕ) (next : Drive)
    → EndsWithin 13 next
    → EndsWithin 16 (authorized k destination amount next)
unfolding authorized
authorized_ends k destination amount next h = required_ends 15 k _ λ r total.
    if_ends 14 (ltb total (own_capacity r)) _ _ tt λ j.
      admitted_ends 13 (find_policy r.policy_digest j.policies) destination amount
        (total - own_capacity r) next h

amount_ends :
    (k : String) (lease : DriverLease) (r : Operation) (o : Option ℕ)
    → EndsWithin 16 (elim o [
      | none ↦ threw
      | some amount ↦
          if keeps_principal r.kind
          then plan_and_launch k lease
          else authorized k r.destination amount (plan_and_launch k lease)
    ])
amount_ends k lease r none = tt
amount_ends k lease r (some amount) =
    if_ends 16 (keeps_principal r.kind) _ _ (sooner 13 16 _ (omega arith) (plan_ends k lease))
      (authorized_ends k r.destination amount _ (plan_ends k lease))

submit_ends :
    (k : String) (lease : DriverLease) (r : Operation) → EndsWithin 16 (submit_prepared k lease r)
unfolding submit_prepared
submit_ends k lease r =
    if_ends 16 (not (same_state r.state prepared)) _ _ tt
      (if_ends 16 (ltb 8 r.retry_count) _ _ tt (amount_ends k lease r r.resolved_amount))

after_ends :
    (k : String) (lease : DriverLease) (r : Operation) → EndsWithin 19 (after_preparation k lease r)
unfolding after_preparation after_reconciliation
after_ends k lease r = if_ends 19 (same_state r.state observed) _ _ (committed_ends 16 k lease r) (
    if_ends 19 (is_launched r.state) _ _
      (reconcile_ends 16 k lease r _ λ s.
        if_ends 16 (same_state s.state observed) _ _ (committed_ends 13 k lease s) (
          if_ends 16 (not (same_state s.state prepared) || s.cancellation_requested) _ _ tt
            (submit_ends k lease s)))
      (sooner 16 19 _ (omega arith) (submit_ends k lease r)))

failed_ends :
    (n : ℕ) (k : String) (lease : DriverLease) (e : PreparationError)
    → EndsWithin (suc (suc n)) (preparation_failed k lease e)
unfolding preparation_failed
failed_ends n k lease e =
    if_ends (suc (suc n)) (is_terminal_pre_effect_failure e) _ _ (returned_ends (suc n) k _) (
      if_ends (suc (suc n)) (is_transient_preparation_failure e) _ _
        (recorded_ends (suc n) k _ _ λ updated.
          if_ends (suc n) updated.cancellation_requested _ _ (returned_ends n k _) (
            if_ends (suc n) (leb updated.retry_limit updated.retry_count) _ _ (returned_ends n k _)
              tt))
        (recorded_ends (suc n) k _ _ λ _. tt))

refused_ends :
    (n : ℕ) (k : String) (lease : DriverLease)
    → EndsWithin (suc (suc n)) (preparation_refused k lease)
unfolding preparation_refused
refused_ends n k lease = required_ends (suc n) k _ λ latest.
    if_ends (suc n)
      (same_state latest.state intent
        && latest.cancellation_requested
        && not latest.preparation_fenced)
      _ _ (returned_ends n k _) tt

stored_ends :
    (k : String) (lease : DriverLease) (m : Result Journal)
    → EndsWithin 19 (elim m [
      | err _ ↦ preparation_refused k lease
      | ok j ↦ with_row (find_operation k j.operations) λ s.
          if s.cancellation_requested || s.preparation_fenced
          then returned s
          else after_preparation k lease s
    ])
stored_ends k lease (err e) = refused_ends 17 k lease
stored_ends k lease (ok j) =
    row_ends 19 (find_operation k j.operations) _ λ s.
      if_ends 19 (s.cancellation_requested || s.preparation_fenced) _ _ tt (after_ends k lease s)

prepared_ends :
    (k : String) (lease : DriverLease) (r : Operation) (a : Preparation)
    → EndsWithin 20 (elim a [
      | failed e ↦ preparation_failed k lease e
      | ready p ↦ record_preparation k lease r p
    ])
unfolding record_preparation
prepared_ends k lease r (failed e) = failed_ends 18 k lease e
prepared_ends k lease r (ready p) = λ m _. stored_ends k lease m

owned_ends : (k : String) (lease : DriverLease) → EndsWithin 23 (drive_owned k lease)
unfolding drive_owned prepare_intent
owned_ends k lease = required_ends 22 k _ λ r. λ configured. if_ends 21 (not configured) _ _ tt (
    if_ends 21 (is_terminal r.state) _ _ tt (
      if_ends 21 (r.preparation_fenced || (r.cancellation_requested && is_open_preparation r.state))
        _ _ tt
        (if_ends 21 (same_state r.state intent) _ _
          (if_ends 21 (leb r.retry_limit r.retry_count) _ _ tt λ a. prepared_ends k lease r a)
          (sooner 19 21 _ (omega arith) (after_ends k lease r)))))

released_ends :
    (n : ℕ) (k : String) (lease : DriverLease) (d : Drive)
    → EndsWithin n d
    → EndsWithin (suc n) (finally_released k lease d)
unfolding finally_released
released_ends n k lease (returned r) h = λ _ _. tt
released_ends n k lease threw h = λ _ _. tt
released_ends zero k lease _ h = elim h [ ]
released_ends (suc n) k lease (read next) h = λ j. released_ends n k lease (next j) (h j)
released_ends (suc n) k lease (read_capacity next) h = λ u. released_ends n k lease (next u) (h u)
released_ends (suc n) k lease (transact c next) h =
    λ m b. released_ends n k lease (next m b) (h m b)
released_ends (suc n) k lease (ask_prepare r next) h = λ a. released_ends n k lease (next a) (h a)
released_ends (suc n) k lease (ask_submit i r next) h = λ a. released_ends n k lease (next a) (h a)
released_ends (suc n) k lease (ask_observe r next) h = λ a. released_ends n k lease (next a) (h a)
released_ends (suc n) k lease (ask q next) h = λ b. released_ends n k lease (next b) (h b)

claimed_ends : (k : String) (lease : DriverLease) → EndsWithin 26 (drive_claimed k lease)
unfolding drive_claimed
claimed_ends k lease = λ stopped.
    let owned = released_ends 23 k lease _ (owned_ends k lease) in
    if_ends 25 stopped _ _ (λ _ _. owned) (sooner 24 25 _ (omega arith) owned)

claim_or_ends :
    (n : ℕ) (k owner : String) (otherwise : Drive)
    → 26 ≤ n
    → EndsWithin n otherwise
    → EndsWithin (suc n) (claim_or k owner otherwise)
unfolding claim_or
claim_or_ends n k owner otherwise enough h = λ m acquired. result_ends n m _ λ j.
    if_ends n acquired _ _
      (row_ends n (find_operation k j.operations) _
        λ r. sooner 26 n _ enough (claimed_ends k (lease_of owner r)))
      h

-- The requests of waitForDriver with some attempts left.
abbrev wait_bound : ℕ → ℕ
wait_bound zero = 26
wait_bound (suc attempts) = suc (suc (suc (wait_bound attempts)))

wait_bound-least : (attempts : ℕ) → 26 ≤ wait_bound attempts
wait_bound-least zero = omega arith
wait_bound-least (suc attempts) = omega (arith, wait_bound-least attempts)

wait_ends :
    (attempts : ℕ) (k owner : String)
    → EndsWithin (wait_bound attempts) (wait_for_driver k owner attempts)
unfolding wait_for_driver
wait_ends zero k owner = sooner 1 26 _ (omega arith) (required_ends 0 k returned λ _. tt)
wait_ends (suc attempts) k owner =
    let n = wait_bound attempts in
    λ stopped.
      if_ends (suc (suc n)) stopped _ _ (λ _ _. tt)
        (required_ends (suc n) k _ λ r.
          if_ends (suc n) (is_terminal r.state) _ _ tt
            (claim_or_ends n k owner _ (wait_bound-least attempts) (wait_ends attempts k owner)))

drive_ends : (k owner : String) → EndsWithin (suc (wait_bound 600)) (drive k owner)
unfolding drive
drive_ends k owner =
    claim_or_ends (wait_bound 600) k owner _ (wait_bound-least 600) (wait_ends 600 k owner)

-- A call of `drive` ends, and soon: whatever the Journal holds and others do to it in the meantime, and
-- whatever adapter, clock, evidence store and signal answer, it has returned or thrown after at
-- most 1,827 requests.
pub finish-drive :
    (s : Surroundings) (key owner : String) (j : Journal)
    → is_some (finish s 1827 0 (drive key owner) j) ≡ true
finish-drive s key owner j = finish-EndsWithin s 1827 0 (drive key owner) j (drive_ends key owner)
