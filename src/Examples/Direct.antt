-- ===== src/Examples/Direct.antt =====
-- The other theorems on direct Treasury Operations (src/purchase/journal.ts) at concrete inputs.
use sompi.Base.Text
use sompi.Treasury.Intake
use sompi.Treasury.Tables
use sompi.Treasury.Handlers
use sompi.Treasury.Handlers.{claim_treasury_operation_driver}
use sompi.Treasury.Capacity
use sompi.Base.{
  ◌≤◌, ◌≡◌, refl, ◌⊎◌, true, false, none, some, [], ◌∷◌, ◌++◌, ◌+◌, length, includes, Error, err,
  ok, arith,
}
use sompi.Treasury.Types.{
  Operation, PolicySnapshot, Journal, prepared, submission_planned, failed_terminal, superseded,
}
use sompi.Treasury.Capacity.{
  expire_reservations, policy_capacity_used, keeps_principal, requested_or_zero,
}
use sompi.Treasury.Rows.{observe_row, driver_admitted, moved, claim_driver_row, driver_owns}
use sompi.Treasury.Tables.{find_operation}
use sompi.Treasury.Intake.{
  claim_treasury_operation_intent, insert_operation, new_operation, unresolved,
}
use sompi.Treasury.Commands.{Command, run}
use sompi.Treasury.Sound.{Follows, launches}
use sompi.Treasury.Safety.{run-Follows, run-cancelled}
use sompi.Treasury.Admission.{claim_intent-within_policy, claim_intent-exclusive}
use sompi.Treasury.Audit.{audit_operation}
use sompi.Treasury.Startup.{superseded-audit_operation}
use sompi.Treasury.Fencing.{run-stale, claim_driver-fences}
use sompi.Examples.Data.{
  start, payment, second_payment, first_lease, paying, prepared_row, holding, final_row,
}
use sompi.Treasury.Preflight.{
  preflight_treasury_operation, validate_preflight, preflight_of, preflight-claim_intent,
}
use sompi.Treasury.Intake.{validate_intent, insert_allowed, transfer_approved}
use sompi.Treasury.Readouts.{
  treasury_policy_capacity_used, treasury_pending_capacity_used, treasury_operation_spent_last_hour,
  treasury_policy_capacity_used-split,
}

abbrev admitted : Journal
unfolding insert_operation new_operation expire_reservations
admitted = insert_operation payment 1000 (expire_reservations 1000 start)

payment-admitted : claim_treasury_operation_intent payment 1000 start ≡ ok admitted
unfolding Intake.validate_intent Intake.same_intent Intake.transfer_approved Intake.insert_allowed
    Intake.new_operation Intake.insert_operation Intake.claim_new_intent
    Intake.claim_treasury_operation_intent Tables.find_operation Capacity.expire_reservations
    Capacity.reservation_use Capacity.settlement_use Capacity.recovery_use Capacity.operation_amount
    Capacity.operation_fee Capacity.operation_counts Capacity.operation_use
    Capacity.operation_use_except Capacity.policy_capacity_used Capacity.gross_movement
    Capacity.assert_direct_treasury_capacity Text.codes Text.is_digit Text.is_lower_alnum
    Text.is_alnum Text.is_base64url Text.is_key_char Text.is_lower_hex Text.strip_prefix
    Text.is_digest Text.is_address Text.is_operation_key Text.is_code Text.is_transaction_id
    Text.is_control_or_space Text.is_safe_identity admitted
payment-admitted = refl

nothing_held : find_operation "payment-1" start.operations ≡ none
unfolding find_operation
nothing_held = refl

claim_intent-within_policy_example :
    (p : PolicySnapshot) × (start.active_policy ≡ some p)
    × (p.digest ≡ payment.policy_digest)
    × (policy_capacity_used 1000 none admitted ≤ p.max_per_hour)
    × ((keeps_principal payment.kind ≡ true)
        ⊎ ((requested_or_zero payment.requested_amount ≤ p.max_per_payment)
            × ((length p.allowlist ≡ 0) ⊎ (includes payment.destination p.allowlist ≡ true))))
claim_intent-within_policy_example =
    claim_intent-within_policy payment 1000 start admitted nothing_held payment-admitted

held : find_operation "payment-1" (holding prepared_row).operations ≡ some prepared_row
unfolding find_operation
held = refl

not_held : find_operation "payment-2" (holding prepared_row).operations ≡ none
unfolding find_operation
not_held = refl

run-Follows_example :
    (r' : Operation) × (find_operation "payment-1" (run paying (holding prepared_row)).operations
      ≡ some r')
    × Follows prepared_row r'
run-Follows_example = run-Follows paying (holding prepared_row) "payment-1" prepared_row held

claim_intent-exclusive_example :
    (e : Error) × (claim_treasury_operation_intent second_payment 2000 (holding prepared_row)
      ≡ err e)
claim_intent-exclusive_example =
    claim_intent-exclusive second_payment 2000 (holding prepared_row) "payment-1" prepared_row held
      refl not_held

abbrev cancelled_row : Operation
cancelled_row = record prepared_row { cancellation_requested = true }

cancelled_held : find_operation "payment-1" (holding cancelled_row).operations ≡ some cancelled_row
unfolding find_operation
cancelled_held = refl

run-cancelled_example :
    (r' : Operation) × (find_operation "payment-1" (run paying (holding cancelled_row)).operations
      ≡ some r')
    × (r'.state ≡ prepared)
    × (r'.cancellation_requested ≡ true)
    × (launches "payment-1" (run paying (holding cancelled_row))
        ≤ launches "payment-1" (holding cancelled_row))
run-cancelled_example =
    run-cancelled paying (holding cancelled_row) "payment-1" cancelled_row cancelled_held refl refl

abbrev taken_over : Operation
taken_over = record prepared_row { driver_owner = some "driver-b"; driver_generation = 2 }

taken_over_held : find_operation "payment-1" (holding taken_over).operations ≡ some taken_over
unfolding find_operation
taken_over_held = refl

-- The first driver comes back late and tries to plan the submission.
run-stale_example :
    run
      (paying ++ Command.plan "payment-1" (some first_lease) 70000 70001 ∷ [])
      (holding taken_over)
    ≡ run paying (holding taken_over)
run-stale_example =
    run-stale paying (Command.plan "payment-1" (some first_lease) 70000 70001) (holding taken_over)
      "payment-1" first_lease taken_over taken_over_held (omega arith) refl

abbrev reclaimed : Operation
reclaimed = record prepared_row {
  driver_owner = some "driver-b";
  driver_generation = 2;
  driver_lease_expires_at_ms = some 90000;
  updated_at_ms = 60000;
}

reclaim : claim_driver_row "driver-b" 30000 60000 prepared_row ≡ moved reclaimed none
unfolding claim_driver_row
reclaim = refl

prepared_held : find_operation "payment-1" (holding prepared_row).operations ≡ some prepared_row
unfolding find_operation
prepared_held = refl

reclaimed_journal :
    claim_treasury_operation_driver "payment-1" "driver-b" 30000 60000 (holding prepared_row)
    ≡ ok (holding reclaimed, moved reclaimed none)
unfolding Handlers.claim_treasury_operation_driver Tables.on_operation Tables.write_outcome
    Tables.replace_operation find_operation claim_driver_row Text.is_operation_key Text.is_key_char
    Text.is_alnum Text.codes
reclaimed_journal = refl

-- The first driver tries to plan the submission after the takeover.
claim_driver-fences_example :
    (driver_owns prepared_row first_lease 60000 ≡ false)
    × (run
          (paying ++ Command.plan "payment-1" (some first_lease) 70000 70001 ∷ [])
          (holding reclaimed)
        ≡ run paying (holding reclaimed))
claim_driver-fences_example =
    claim_driver-fences paying (Command.plan "payment-1" (some first_lease) 70000 70001)
      (holding prepared_row) (holding reclaimed) "payment-1" "driver-b" 30000 60000 prepared_row
      reclaimed none first_lease prepared_held refl refl refl reclaimed_journal refl

abbrev planned_row : Operation
planned_row = record prepared_row { state = submission_planned }

abbrev superseded_row : Operation
superseded_row = record planned_row {
  state = failed_terminal;
  completed_at_ms = some 2000;
  updated_at_ms = 2000;
}

supersede :
    observe_row superseded none 1999 2000 planned_row
    ≡ ok (moved superseded_row (some "mutually_exclusive_chain_effect_accepted"))
unfolding observe_row driver_admitted
supersede = refl

superseded-audit_operation_example :
    (e : Error) × (audit_operation (λ r. ok tt) (holding superseded_row) superseded_row ≡ err e)
superseded-audit_operation_example =
    superseded-audit_operation none 1999 2000 planned_row superseded_row
      (some "mutually_exclusive_chain_effect_accepted") (λ r. ok tt) (holding superseded_row)
      supersede

abbrev past_hour : Journal
past_hour = record start {
  operations = final_row ∷ record prepared_row { operation_key = "payment-2" } ∷ [];
}

treasury_policy_capacity_used-split_example :
    (treasury_policy_capacity_used 70000 past_hour).1
    ≡ (treasury_pending_capacity_used 70000 past_hour).1
      + treasury_operation_spent_last_hour 70000 past_hour
      + 0
      + 0
treasury_policy_capacity_used-split_example =
    treasury_policy_capacity_used-split 70000 past_hour refl

payment_preflight : preflight_treasury_operation (preflight_of payment) 1000 start ≡ ok tt
unfolding preflight_treasury_operation validate_preflight Text.is_bounded_text Text.codes
    Text.is_lower_alnum Text.is_alnum Text.is_base64url Text.is_key_char Text.strip_prefix
    Text.is_digest Text.is_address Text.is_operation_key Capacity.expire_reservations
    Capacity.reservation_use Capacity.settlement_use Capacity.recovery_use Capacity.operation_amount
    Capacity.operation_fee Capacity.operation_counts Capacity.operation_use
    Capacity.operation_use_except Capacity.policy_capacity_used Capacity.gross_movement
    Capacity.assert_direct_treasury_capacity
payment_preflight = refl

payment_valid : validate_intent payment ≡ ok tt
unfolding validate_intent Text.codes Text.is_lower_alnum Text.is_alnum Text.is_base64url
    Text.is_key_char Text.strip_prefix Text.is_digest Text.is_address Text.is_operation_key
payment_valid = refl

slot_free : insert_allowed payment start.operations ≡ true
unfolding insert_allowed
slot_free = refl

payment_approved : transfer_approved "payment-1" none start.approved_transfers ≡ true
unfolding transfer_approved
payment_approved = refl

preflight-claim_intent_example :
    claim_treasury_operation_intent payment 1000 start
    ≡ ok (insert_operation payment 1000 (expire_reservations 1000 start))
preflight-claim_intent_example =
    preflight-claim_intent payment 1000 start payment_preflight payment_valid nothing_held slot_free
      payment_approved
