-- ===== src/Examples/Payment.antt =====
-- A direct payment of 500 sompi through src/purchase/journal.ts, from its intent to its completion.
use sompi.Base.Text
use sompi.Treasury.Handlers
use sompi.Treasury.Intake
use sompi.Treasury.Rows
use sompi.Treasury.Tables
use sompi.Treasury.Capacity
use sompi.Treasury.Commands
use sompi.Base.{◌≤◌, ◌≡◌, refl, true, some, ok}
use sompi.Treasury.Capacity.{
  expire_reservations, policy_capacity_used, keeps_principal, requested_or_zero,
}
use sompi.Treasury.Rows.{
  observe_row, driver_admitted, Outcome, moved, claim_driver_row, lease_lapsed,
}
use sompi.Treasury.Tables.{find_operation}
use sompi.Treasury.Intake.{
  claim_treasury_operation_intent, insert_operation, new_operation, unresolved,
}
use sompi.Treasury.Handlers.{unresolved_treasury_operation_count}
use sompi.Treasury.Commands.{Command, run}
use sompi.Treasury.Moves.{fee_within, amount_kept}
use sompi.Treasury.Sound.{launches}
use sompi.Treasury.Safety.{run-launches_once, run-one_unresolved, run-priced}
use sompi.Treasury.Audit.{history_of, audit_history}
use sompi.Treasury.Logs.{in_order}
use sompi.Treasury.Startup.{run-audit_history}
use sompi.Examples.Data.{start, history, final_row}

run-launches_once_example : launches "payment-1" (run history start) ≤ 1
run-launches_once_example = run-launches_once history start "payment-1" (refl, refl)

run-one_unresolved_example : unresolved_treasury_operation_count (run history start) ≤ 1
run-one_unresolved_example = run-one_unresolved history start (refl, refl)

payment_completes : find_operation "payment-1" (run history start).operations ≡ some final_row
unfolding Handlers.claim_treasury_operation_driver Handlers.renew_treasury_operation_driver
    Handlers.release_treasury_operation_driver Handlers.validate_prepared Handlers.material_unused
    Handlers.require_policy Handlers.recheck_capacity Handlers.record_prepared_treasury_operation
    Handlers.record_treasury_preparation_retry Handlers.terminal_reason
    Handlers.fail_treasury_operation_preparation Handlers.fence_treasury_operation_preparation
    Handlers.cancel_treasury_operation Handlers.request_treasury_operation_cancellation
    Handlers.plan_treasury_operation_submission Handlers.claim_treasury_operation_effect_capability
    Handlers.record_treasury_operation_submission_accepted Handlers.insert_observation
    Handlers.last_superseded Handlers.observe_operation
    Handlers.record_treasury_operation_observation Handlers.complete_treasury_operation
    Handlers.unresolved_treasury_operation_count Intake.validate_intent Intake.same_intent
    Intake.transfer_approved Intake.insert_allowed Intake.new_operation Intake.insert_operation
    Intake.claim_new_intent Intake.claim_treasury_operation_intent Rows.driver_owns
    Rows.driver_admitted Rows.claim_driver_row Rows.renew_driver_row Rows.release_driver_row
    Rows.same_material Rows.prepare_intent_row Rows.prepare_row Rows.retry_row Rows.fail_row
    Rows.fence_row Rows.request_cancellation_row Rows.cancel_row Rows.plan_row
    Rows.claim_capability_row Rows.accepted_row Rows.observe_row Rows.complete_row
    Tables.find_operation Tables.replace_operation Tables.find_policy Tables.write_outcome
    Tables.on_operation Capacity.expire_reservations Capacity.reservation_use
    Capacity.settlement_use Capacity.recovery_use Capacity.operation_amount Capacity.operation_fee
    Capacity.operation_counts Capacity.operation_use Capacity.operation_use_except
    Capacity.policy_capacity_used Capacity.gross_movement Capacity.assert_direct_treasury_capacity
    Commands.call Commands.run Text.codes Text.is_digit Text.is_lower_alnum Text.is_alnum
    Text.is_base64url Text.is_key_char Text.is_lower_hex Text.strip_prefix Text.is_digest
    Text.is_address Text.is_operation_key Text.is_code Text.is_transaction_id
    Text.is_control_or_space Text.is_safe_identity
payment_completes = refl

run-priced_example :
    (fee_within final_row.fee final_row.fee_ceiling ≡ true)
    × (amount_kept final_row.requested_amount final_row.resolved_amount ≡ true)
run-priced_example = run-priced history start "payment-1" final_row (refl, refl) payment_completes

payment_in_order : in_order 0 (history_of "payment-1" (run history start).transitions) ≡ true
unfolding in_order history_of Handlers.claim_treasury_operation_driver
    Handlers.renew_treasury_operation_driver Handlers.release_treasury_operation_driver
    Handlers.validate_prepared Handlers.material_unused Handlers.require_policy
    Handlers.recheck_capacity Handlers.record_prepared_treasury_operation
    Handlers.record_treasury_preparation_retry Handlers.terminal_reason
    Handlers.fail_treasury_operation_preparation Handlers.fence_treasury_operation_preparation
    Handlers.cancel_treasury_operation Handlers.request_treasury_operation_cancellation
    Handlers.plan_treasury_operation_submission Handlers.claim_treasury_operation_effect_capability
    Handlers.record_treasury_operation_submission_accepted Handlers.insert_observation
    Handlers.last_superseded Handlers.observe_operation
    Handlers.record_treasury_operation_observation Handlers.complete_treasury_operation
    Handlers.unresolved_treasury_operation_count Intake.validate_intent Intake.same_intent
    Intake.transfer_approved Intake.insert_allowed Intake.new_operation Intake.insert_operation
    Intake.claim_new_intent Intake.claim_treasury_operation_intent Rows.driver_owns
    Rows.driver_admitted Rows.claim_driver_row Rows.renew_driver_row Rows.release_driver_row
    Rows.same_material Rows.prepare_intent_row Rows.prepare_row Rows.retry_row Rows.fail_row
    Rows.fence_row Rows.request_cancellation_row Rows.cancel_row Rows.plan_row
    Rows.claim_capability_row Rows.accepted_row Rows.observe_row Rows.complete_row
    Tables.find_operation Tables.replace_operation Tables.find_policy Tables.write_outcome
    Tables.on_operation Capacity.expire_reservations Capacity.reservation_use
    Capacity.settlement_use Capacity.recovery_use Capacity.operation_amount Capacity.operation_fee
    Capacity.operation_counts Capacity.operation_use Capacity.operation_use_except
    Capacity.policy_capacity_used Capacity.gross_movement Capacity.assert_direct_treasury_capacity
    Commands.call Commands.run Text.codes Text.is_digit Text.is_lower_alnum Text.is_alnum
    Text.is_base64url Text.is_key_char Text.is_lower_hex Text.strip_prefix Text.is_digest
    Text.is_address Text.is_operation_key Text.is_code Text.is_transaction_id
    Text.is_control_or_space Text.is_safe_identity
payment_in_order = refl

run-audit_history_example :
    audit_history (history_of "payment-1" (run history start).transitions) ≡ ok final_row.state
run-audit_history_example =
    run-audit_history history start "payment-1" final_row (refl, refl) payment_completes
      payment_in_order
