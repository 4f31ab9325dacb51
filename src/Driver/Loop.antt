-- ===== src/Driver/Loop.antt =====
-- The loop of src/treasury/operations.ts: drive, waitForDriver, driveClaimed, driveOwned and reconcile. The
-- driver's identity is `owner`; an operation's row at the time is `r`.
use sompi.Base.{
  ℕ, zero, suc, ◌+◌, ◌-◌, Bool, true, false, not, ◌&&◌, ◌||◌, String, Option, none, some, ltb, leb,
  if◌then◌else◌, ok, err, pos, is_operation_key,
}
use sompi.Treasury.Types.{
  OperationState, intent, prepared, submission_planned, submitted, observed, same_state, Operation,
  DriverLease, PreparedOperation, PolicySnapshot,
}
use sompi.Treasury.Capacity.{keeps_principal, get_or, requested_or_zero}
use sompi.Treasury.Rows.{is_terminal, is_open_preparation}
use sompi.Treasury.Tables.{find_operation, find_policy}
use sompi.Treasury.Commands.{
  Command, claim_driver, release_driver, prepare, retry, fail, fence, request_cancellation, plan,
  claim_capability, accept, observe, complete,
}
use sompi.Policy
use sompi.Policy.{Policy, validate_policy}
use sompi.Driver.Process.{
  PreparationError, is_terminal_pre_effect_failure, is_transient_preparation_failure, code_of,
  ready, failed, evidence, aborted, adapter, commit, Drive, returned, threw, read, read_capacity,
  transact, ask_prepare, ask_submit, ask_observe, ask,
}

-- requireTreasuryOperation, and what is done with its row.
abbrev pub with_row : Option Operation → (Operation → Drive) → Drive
with_row none next = threw
with_row (some r) next = next r

unfoldable pub required : String → (Operation → Drive) → Drive
required key next =
    read
      (λ j. if is_operation_key key then with_row (find_operation key j.operations) next else threw)

-- A transaction that returns the row it leaves.
unfoldable pub recorded : String → ((seen_at now : ℕ) → Command) → (Operation → Drive) → Drive
recorded key c next = transact c λ result _. elim result [
  | err _ ↦ threw
  | ok j ↦ with_row (find_operation key j.operations) next
]

-- The view of the row that a transaction leaves.
abbrev pub return_recorded : String → ((seen_at now : ℕ) → Command) → Drive
return_recorded key c = recorded key c returned

abbrev pub is_launched : OperationState → Bool
is_launched s = same_state s submission_planned || same_state s submitted

-- `new PolicyEngine({...}).authorize(destination, amount, total - own)`.
unfoldable pub snapshot_admits : PolicySnapshot → String → (amount committed_capacity : ℕ) → Bool
snapshot_admits snapshot destination amount committed_capacity =
    elim (validate_policy record {
      max_sompi_per_tx = pos snapshot.max_per_payment;
      max_sompi_per_hour = pos snapshot.max_per_hour;
      allowlist = snapshot.allowlist;
    }) [
      | none ↦ false
      | some p ↦ elim (Policy.authorize p destination (pos amount) (pos committed_capacity)) [
        | none ↦ true
        | some violation ↦ false
      ]
    ]

-- What the operation itself holds of the capacity in use.
unfoldable pub own_capacity : Operation → ℕ
own_capacity r =
    (if keeps_principal r.kind
      then 0
      else get_or r.resolved_amount (requested_or_zero r.requested_amount))
    + r.fee_ceiling

-- TreasuryOperationModule.authorize.
unfoldable pub authorized : String → String → (amount : ℕ) → Drive → Drive
authorized key destination amount next = required key λ r. read_capacity λ total.
    if ltb total (own_capacity r)
    then threw
    else read λ j. elim (find_policy r.policy_digest j.policies) [
      | none ↦ threw
      | some snapshot ↦
          if snapshot_admits snapshot destination amount (total - own_capacity r)
          then next
          else threw
    ]

-- `adapter.commit` of the observed operation, and completeTreasuryOperation.
unfoldable pub commit_observed : String → DriverLease → Operation → Drive
commit_observed key lease r = ask evidence λ stored.
    if not stored
    then threw
    else ask (commit r) λ committed_effect.
      if not committed_effect
      then threw
      else return_recorded key (λ seen_at now. complete key (some lease) seen_at now)

-- reconcile.
unfoldable pub reconcile : String → DriverLease → Operation → (Operation → Drive) → Drive
reconcile key lease r next =
    if not (is_launched r.state)
    then next r
    else ask evidence λ stored.
      if not stored
      then threw
      else ask_observe r λ probe. elim probe [
        | none ↦ threw
        | some p ↦
            recorded key
              (λ seen_at now.
                observe key p.status p.digest p.json p.byte_length (some lease) seen_at now)
              next
      ]

unfoldable pub commit_or_return : String → DriverLease → Operation → Drive
commit_or_return key lease r =
    if same_state r.state observed then commit_observed key lease r else returned r

-- From `adapter.submit`, which has answered.
unfoldable pub after_submission : String → DriverLease → Option String → Drive
after_submission key lease none = required key λ r. reconcile key lease r returned
after_submission key lease (some transaction_id) =
    recorded key (λ seen_at now. accept key transaction_id (some lease) seen_at now)
      λ r. reconcile key lease r (commit_or_return key lease)

-- From the capability, which has been granted.
unfoldable pub launch_submission : String → DriverLease → Drive
launch_submission key lease = required key λ r.
    ask evidence
      λ stored. if not stored then threw else ask_submit key r (after_submission key lease)

-- claimTreasuryOperationEffectCapability, and what follows.
unfoldable pub claim_and_launch : String → DriverLease → Drive
claim_and_launch key lease =
    transact (λ seen_at now. claim_capability key lease seen_at now)
      λ result granted.
        if granted
        then elim result [ err _ ↦ threw | ok _ ↦ launch_submission key lease ]
        else elim result [ err _ ↦ threw | ok _ ↦ required key returned ]

-- planTreasuryOperationSubmission, and what follows.
unfoldable pub plan_and_launch : String → DriverLease → Drive
plan_and_launch key lease =
    transact (λ seen_at now. plan key (some lease) seen_at now)
      λ result planned. elim result [
        | err _ ↦ threw
        | ok _ ↦
            if planned
            then required key (λ _. claim_and_launch key lease)
            else required key returned
      ]

-- driveOwned from `if (record.state !== "prepared")`, with MAX_RECONCILED_RETRIES.
unfoldable pub submit_prepared : String → DriverLease → Operation → Drive
submit_prepared key lease r =
    if not (same_state r.state prepared)
    then returned r
    else if ltb 8 r.retry_count
    then threw
    else elim r.resolved_amount [
      | none ↦ threw
      | some amount ↦
          if keeps_principal r.kind
          then plan_and_launch key lease
          else authorized key r.destination amount (plan_and_launch key lease)
    ]

-- What follows reconcile in driveOwned before a submission.
unfoldable pub after_reconciliation : String → DriverLease → Operation → Drive
after_reconciliation key lease s =
    if same_state s.state observed
    then commit_observed key lease s
    else if not (same_state s.state prepared) || s.cancellation_requested
    then returned s
    else submit_prepared key lease s

-- driveOwned from `if (record.state === "observed")`.
unfoldable pub after_preparation : String → DriverLease → Operation → Drive
after_preparation key lease r =
    if same_state r.state observed
    then commit_observed key lease r
    else if is_launched r.state
    then reconcile key lease r (after_reconciliation key lease)
    else submit_prepared key lease r

-- The catch of `adapter.prepare`.
unfoldable pub preparation_failed : String → DriverLease → PreparationError → Drive
preparation_failed key lease e =
    if is_terminal_pre_effect_failure e
    then return_recorded key (λ seen_at now. fail key (code_of e) (some lease) seen_at now)
    else if is_transient_preparation_failure e
    then recorded key
        (λ seen_at now. retry key "transient_preparation_failure" (some lease) seen_at now)
        (λ updated.
          if updated.cancellation_requested
          then return_recorded key
              (λ seen_at now. fail key "cancelled_before_effect" (some lease) seen_at now)
          else if leb updated.retry_limit updated.retry_count
          then return_recorded key
              (λ seen_at now. fail key "retry_exhausted" (some lease) seen_at now)
          else threw)
    else recorded key
        (λ seen_at now. fence key "unknown_preparation_failure" (some lease) seen_at now)
        (λ _. threw)

-- The catch of recordPreparedTreasuryOperation.
unfoldable pub preparation_refused : String → DriverLease → Drive
preparation_refused key lease = required key λ latest.
    if same_state latest.state intent
      && latest.cancellation_requested
      && not latest.preparation_fenced
    then return_recorded key
        (λ seen_at now. fail key "cancelled_before_effect" (some lease) seen_at now)
    else threw

unfoldable pub record_preparation : String → DriverLease → Operation → PreparedOperation → Drive
record_preparation key lease r p =
    transact
      (λ seen_at now.
        prepare key (record p { policy_digest = r.policy_digest }) (some lease) seen_at now)
      λ result _. elim result [
        | err _ ↦ preparation_refused key lease
        | ok j ↦ with_row (find_operation key j.operations) λ s.
            if s.cancellation_requested || s.preparation_fenced
            then returned s
            else after_preparation key lease s
      ]

unfoldable pub prepare_intent : String → DriverLease → Operation → Drive
prepare_intent key lease r =
    if leb r.retry_limit r.retry_count
    then threw
    else ask_prepare r λ answer. elim answer [
      | failed e ↦ preparation_failed key lease e
      | ready p ↦ record_preparation key lease r p
    ]

-- driveOwned.
unfoldable pub drive_owned : String → DriverLease → Drive
drive_owned key lease = required key λ r. ask (adapter r.kind) λ configured.
    if not configured
    then threw
    else if is_terminal r.state
    then returned r
    else if r.preparation_fenced || (r.cancellation_requested && is_open_preparation r.state)
    then returned r
    else if same_state r.state intent
    then prepare_intent key lease r
    else after_preparation key lease r

-- `finally`: releaseTreasuryOperationDriver, whose errors are dropped.
unfoldable pub finally_released : String → DriverLease → Drive → Drive
finally_released key lease (returned r) =
    transact (λ _ now. release_driver lease key now) (λ _ _. returned r)
finally_released key lease threw = transact (λ _ now. release_driver lease key now) (λ _ _. threw)
finally_released key lease (read next) = read (λ j. finally_released key lease (next j))
finally_released key lease (read_capacity next) =
    read_capacity (λ n. finally_released key lease (next n))
finally_released key lease (transact c next) =
    transact c (λ result b. finally_released key lease (next result b))
finally_released key lease (ask_prepare r next) =
    ask_prepare r (λ a. finally_released key lease (next a))
finally_released key lease (ask_submit k r next) =
    ask_submit k r (λ a. finally_released key lease (next a))
finally_released key lease (ask_observe r next) =
    ask_observe r (λ a. finally_released key lease (next a))
finally_released key lease (ask q next) = ask q (λ b. finally_released key lease (next b))

-- driveClaimed: a signal that is aborted by now requests the cancellation, whose errors are dropped.
unfoldable pub drive_claimed : String → DriverLease → Drive
drive_claimed key lease = ask aborted λ stopped.
    let owned = finally_released key lease (drive_owned key lease) in
    if stopped then transact (λ _ now. request_cancellation key now) (λ _ _. owned) else owned

-- The lease of a claim, as its row has it.
abbrev pub lease_of : String → Operation → DriverLease
lease_of owner r = record {
  owner = owner;
  generation = r.driver_generation;
  expires_at_ms = get_or r.driver_lease_expires_at_ms 0;
}

-- claimTreasuryOperationDriver with DRIVER_LEASE_TTL_MS, and driveClaimed if it is acquired.
unfoldable pub claim_or : String → String → Drive → Drive
claim_or key owner otherwise =
    transact (λ _ now. claim_driver key owner 60000 now)
      λ result acquired. elim result [
        | err _ ↦ threw
        | ok j ↦
            if acquired
            then with_row (find_operation key j.operations)
                (λ r. drive_claimed key (lease_of owner r))
            else otherwise
      ]

-- waitForDriver, with the attempts that are left.
unfoldable pub wait_for_driver : String → String → (attempts : ℕ) → Drive
wait_for_driver key owner zero = required key returned
wait_for_driver key owner (suc attempts) = ask aborted λ stopped.
    if stopped
    then transact (λ _ now. request_cancellation key now) (λ _ _. threw)
    else required key λ r.
      if is_terminal r.state
      then returned r
      else claim_or key owner (wait_for_driver key owner attempts)

-- driveUncoordinated, with DRIVER_WAIT_ATTEMPTS.
unfoldable pub drive : String → String → Drive
drive key owner = claim_or key owner (wait_for_driver key owner 600)
