-- ===== src/Driver/Grants.antt =====
-- The licences of the drivers that src/treasury/operations.ts starts, through each part of its loop.
use sompi.Base.{
  ℕ, zero, suc, ◌+◌, ◌-◌, ◌≤◌, ◌≡◌, refl, true, false, not, ◌&&◌, ◌||◌, Bool, String, Option, none,
  some, ltb, leb, str_eq, if◌then◌else◌, Result, ok, err, arith,
}
use sompi.Treasury.Types.{
  Operation, DriverLease, PolicySnapshot, Journal, intent, prepared, observed, same_state,
}
use sompi.Treasury.Capacity.{keeps_principal}
use sompi.Treasury.Rows.{is_terminal, is_open_preparation}
use sompi.Treasury.Tables.{find_operation, find_policy}
use sompi.Treasury.Commands.{Command, call, claim_capability}
use sompi.Driver.Process.{
  PreparationError, is_terminal_pre_effect_failure, is_transient_preparation_failure, Preparation,
  ready, failed, Drive, returned, threw, read, read_capacity, transact, ask_prepare, ask_submit,
  ask_observe, ask, answered,
}
use sompi.Driver.Loop.{
  with_row, required, recorded, snapshot_admits, own_capacity, authorized, launch_submission,
  claim_and_launch, plan_and_launch, submit_prepared, after_preparation, after_reconciliation,
  preparation_failed, preparation_refused, record_preparation, prepare_intent, drive_owned,
  finally_released, drive_claimed, lease_of, claim_or, wait_for_driver, drive, is_launched,
}
use sompi.Driver.Launches.{launches-granted}
use sompi.Driver.Licences.{
  gain, Licensed, row_free, if_free, required_free, transact_free, result_free, recorded_free,
  committed_free, reconcile_free, launch_covered,
}

module _ (key : String) where
  granted_free :
      (n g : ℕ) (k : String) (lease : DriverLease) (m : Result Journal) (b : Bool)
      → (b ≡ true → (if str_eq k key then 1 else 0) ≤ g)
      → Licensed key (n + g) (
          if b
          then elim m [ err _ ↦ threw | ok _ ↦ launch_submission k lease ]
          else elim m [ err _ ↦ threw | ok _ ↦ required k returned ])
  granted_free n g k lease m true covers =
      result_free key (n + g) m _
        λ _. launch_covered key (n + g) n k lease (omega (arith, covers refl))
  granted_free n g k lease m false covers =
      result_free key (n + g) m _ λ _. required_free key (n + g) k returned λ _. tt

  claim_free :
      (n : ℕ) (k : String) (lease : DriverLease) → Licensed key n (claim_and_launch k lease)
  unfolding claim_and_launch
  claim_free n k lease = λ seen_at now j.
      let c = claim_capability k lease seen_at now in
      granted_free n (gain key c j) k lease (call c j) (answered c j)
        λ h. omega (arith, launches-granted k lease seen_at now j h key)

  plan_free : (n : ℕ) (k : String) (lease : DriverLease) → Licensed key n (plan_and_launch k lease)
  unfolding plan_and_launch
  plan_free n k lease = transact_free key n _ _ λ m planned. result_free key n m _ λ _.
      if_free key n planned _ _ (required_free key n k _ λ _. claim_free n k lease)
        (required_free key n k returned λ _. tt)

  admitted_free :
      (n : ℕ) (o : Option PolicySnapshot) (destination : String) (amount left : ℕ) (next : Drive)
      → Licensed key n next
      → Licensed key n (elim o [
        | none ↦ threw
        | some snapshot ↦ if snapshot_admits snapshot destination amount left then next else threw
      ])
  admitted_free n none destination amount left next h = tt
  admitted_free n (some snapshot) destination amount left next h =
      if_free key n (snapshot_admits snapshot destination amount left) _ _ h tt

  authorized_free :
      (n : ℕ) (k destination : String) (amount : ℕ) (next : Drive)
      → Licensed key n next
      → Licensed key n (authorized k destination amount next)
  unfolding authorized
  authorized_free n k destination amount next h = required_free key n k _ λ r total.
      if_free key n (ltb total (own_capacity r)) _ _ tt λ j.
        admitted_free n (find_policy r.policy_digest j.policies) destination amount
          (total - own_capacity r) next h

  amount_free :
      (n : ℕ) (k : String) (lease : DriverLease) (r : Operation) (o : Option ℕ)
      → Licensed key n (elim o [
        | none ↦ threw
        | some amount ↦
            if keeps_principal r.kind
            then plan_and_launch k lease
            else authorized k r.destination amount (plan_and_launch k lease)
      ])
  amount_free n k lease r none = tt
  amount_free n k lease r (some amount) =
      if_free key n (keeps_principal r.kind) _ _ (plan_free n k lease)
        (authorized_free n k r.destination amount _ (plan_free n k lease))

  submit_free :
      (n : ℕ) (k : String) (lease : DriverLease) (r : Operation)
      → Licensed key n (submit_prepared k lease r)
  unfolding submit_prepared
  submit_free n k lease r =
      if_free key n (not (same_state r.state prepared)) _ _ tt
        (if_free key n (ltb 8 r.retry_count) _ _ tt (amount_free n k lease r r.resolved_amount))

  after_free :
      (n : ℕ) (k : String) (lease : DriverLease) (r : Operation)
      → Licensed key n (after_preparation k lease r)
  unfolding after_preparation after_reconciliation
  after_free n k lease r =
      if_free key n (same_state r.state observed) _ _ (committed_free key n k lease r) (
        if_free key n (is_launched r.state) _ _
          (reconcile_free key n k lease r _ λ s.
            if_free key n (same_state s.state observed) _ _ (committed_free key n k lease s) (
              if_free key n (not (same_state s.state prepared) || s.cancellation_requested) _ _ tt
                (submit_free n k lease s)))
          (submit_free n k lease r))

  returned_free :
      (n : ℕ) (k : String) (c : (seen_at now : ℕ) → Command)
      → Licensed key n (recorded k c returned)
  returned_free n k c = recorded_free key n k c returned λ _. tt

  failed_free :
      (n : ℕ) (k : String) (lease : DriverLease) (e : PreparationError)
      → Licensed key n (preparation_failed k lease e)
  unfolding preparation_failed
  failed_free n k lease e =
      if_free key n (is_terminal_pre_effect_failure e) _ _ (returned_free n k _) (
        if_free key n (is_transient_preparation_failure e) _ _
          (recorded_free key n k _ _ λ updated.
            if_free key n updated.cancellation_requested _ _ (returned_free n k _) (
              if_free key n (leb updated.retry_limit updated.retry_count) _ _ (returned_free n k _)
                tt))
          (recorded_free key n k _ _ λ _. tt))

  refused_free :
      (n : ℕ) (k : String) (lease : DriverLease) → Licensed key n (preparation_refused k lease)
  unfolding preparation_refused
  refused_free n k lease = required_free key n k _ λ latest.
      if_free key n
        (same_state latest.state intent
          && latest.cancellation_requested
          && not latest.preparation_fenced)
        _ _ (returned_free n k _) tt

  stored_free :
      (n : ℕ) (k : String) (lease : DriverLease) (m : Result Journal)
      → Licensed key n (elim m [
        | err _ ↦ preparation_refused k lease
        | ok j ↦ with_row (find_operation k j.operations) λ s.
            if s.cancellation_requested || s.preparation_fenced
            then returned s
            else after_preparation k lease s
      ])
  stored_free n k lease (err e) = refused_free n k lease
  stored_free n k lease (ok j) = row_free key n (find_operation k j.operations) _ λ s.
      if_free key n (s.cancellation_requested || s.preparation_fenced) _ _ tt
        (after_free n k lease s)

  prepared_free :
      (n : ℕ) (k : String) (lease : DriverLease) (r : Operation) (a : Preparation)
      → Licensed key n (elim a [
        | failed e ↦ preparation_failed k lease e
        | ready p ↦ record_preparation k lease r p
      ])
  unfolding record_preparation
  prepared_free n k lease r (failed e) = failed_free n k lease e
  prepared_free n k lease r (ready p) = transact_free key n _ _ λ m _. stored_free n k lease m

  owned_free : (n : ℕ) (k : String) (lease : DriverLease) → Licensed key n (drive_owned k lease)
  unfolding drive_owned prepare_intent
  owned_free n k lease = required_free key n k _ λ r. λ configured.
      if_free key n (not configured) _ _ tt (
        if_free key n (is_terminal r.state) _ _ tt (
          if_free key n
            (r.preparation_fenced || (r.cancellation_requested && is_open_preparation r.state)) _ _
            tt
            (if_free key n (same_state r.state intent) _ _
              (if_free key n (leb r.retry_limit r.retry_count) _ _ tt
                λ a. prepared_free n k lease r a)
              (after_free n k lease r))))

  released_free :
      (n : ℕ) (k : String) (lease : DriverLease) (d : Drive)
      → Licensed key n d
      → Licensed key n (finally_released k lease d)
  unfolding finally_released
  released_free n k lease (returned r) h = λ seen_at now j. tt
  released_free n k lease threw h = λ seen_at now j. tt
  released_free n k lease (read next) h = λ j. released_free n k lease (next j) (h j)
  released_free n k lease (read_capacity next) h = λ u. released_free n k lease (next u) (h u)
  released_free n k lease (transact c next) h = λ seen_at now j.
      released_free (n + gain key (c seen_at now) j) k lease
        (next (call (c seen_at now) j) (answered (c seen_at now) j)) (h seen_at now j)
  released_free n k lease (ask_prepare r next) h = λ a. released_free n k lease (next a) (h a)
  released_free n k lease (ask_submit i r next) (m, fits, h) =
      (m, fits, λ a. released_free m k lease (next a) (h a))
  released_free n k lease (ask_observe r next) h = λ a. released_free n k lease (next a) (h a)
  released_free n k lease (ask q next) h = λ b. released_free n k lease (next b) (h b)

  claimed_free : (n : ℕ) (k : String) (lease : DriverLease) → Licensed key n (drive_claimed k lease)
  unfolding drive_claimed
  claimed_free n k lease = λ stopped.
      let owned = released_free n k lease _ (owned_free n k lease) in
      if_free key n stopped _ _ (transact_free key n _ _ λ _ _. owned) owned

  claim_or_free :
      (n : ℕ) (k owner : String) (otherwise : Drive)
      → Licensed key n otherwise
      → Licensed key n (claim_or k owner otherwise)
  unfolding claim_or
  claim_or_free n k owner otherwise h = transact_free key n _ _ λ m acquired.
      result_free key n m _ λ j.
        if_free key n acquired _ _
          (row_free key n (find_operation k j.operations) _
            λ r. claimed_free n k (lease_of owner r))
          h

  wait_free :
      (attempts n : ℕ) (k owner : String) → Licensed key n (wait_for_driver k owner attempts)
  unfolding wait_for_driver
  wait_free zero n k owner = required_free key n k returned λ _. tt
  wait_free (suc attempts) n k owner = λ stopped.
      if_free key n stopped _ _ (λ seen_at now j. tt)
        (required_free key n k _ λ r.
          if_free key n (is_terminal r.state) _ _ tt
            (claim_or_free n k owner _ (wait_free attempts n k owner)))

  -- A driver starts without a launch in hand.
  pub drive-Licensed : (k owner : String) → Licensed key 0 (drive k owner)
  unfolding drive
  drive-Licensed k owner = claim_or_free 0 k owner _ (wait_free 600 0 k owner)
