-- ===== src/Treasury/Intake.antt =====
-- claimTreasuryOperationIntent of src/purchase/journal.ts: a new direct movement is admitted into the
-- tables with its capacity.
use sompi.Base.{
  ℕ, Bool, true, false, not, ◌&&◌, ◌||◌, String, Option, none, some, List, [], ◌∷◌, ◌++◌, leb, ltb,
  ◌==◌, str_eq, opt_eq, is_some, if◌then◌else◌, any_by, Result, ok, err, ◌>>=◌, ◌>>◌, require,
  or_throw, invariant, policy_reservation, is_digest, is_address, is_operation_key,
}
use sompi.Treasury.Types.{
  vault_send, vault_deposit, same_kind, intent, RequestedAmount, exact, maximum, same_amount,
  Operation, OperationIntent, ApprovedTransfer, Journal,
}
use sompi.Treasury.Capacity.{
  expire_reservations, requested_or_zero, assert_direct_treasury_capacity,
}
use sompi.Treasury.Rows.{is_terminal}
use sompi.Treasury.Tables.{find_operation, transition_row}

-- validateTreasuryOperationIntent.
unfoldable pub validate_intent : OperationIntent → Result (Unit {0})
validate_intent input = do
  require (is_operation_key input.operation_key && is_digest input.request_digest) invariant
  require (is_address input.destination) invariant
  require (elim input.requested_amount [ exact n ↦ ltb 0 n | maximum ↦ true ]) policy_reservation
  require
      (same_kind input.kind vault_deposit
        || elim input.requested_amount [ exact n ↦ true | maximum ↦ false ])
      invariant
  require (not (is_some input.keep_float) || same_kind input.kind vault_deposit) invariant
  require (ltb 0 input.fee_ceiling) policy_reservation
  require (ltb 0 input.retry_limit && leb input.retry_limit 128) invariant
  require (is_digest input.policy_digest) invariant
  require
      (elim input.authorization_evidence_digest [
        | none ↦ true
        | some digest ↦ is_digest digest && same_kind input.kind vault_send
      ])
      invariant

-- assertSameTreasuryOperationIntent.
unfoldable pub same_intent : Operation → OperationIntent → Bool
same_intent r input =
    str_eq r.request_digest input.request_digest
    && same_kind r.kind input.kind
    && str_eq r.destination input.destination
    && same_amount r.requested_amount input.requested_amount
    && opt_eq ◌==◌ r.keep_float input.keep_float
    && r.retry_limit == input.retry_limit
    && opt_eq str_eq r.authorization_evidence_digest input.authorization_evidence_digest

unfoldable pub transfer_approved : String → Option String → List ApprovedTransfer → Bool
transfer_approved key none approvals = true
transfer_approved key (some digest) approvals =
    any_by (λ a. str_eq a.treasury_operation_key key && str_eq a.evidence_digest digest) approvals

abbrev pub unresolved : Operation → Bool
unresolved r = not (is_terminal r.state)

-- The UNIQUE request_digest and the index one_unresolved_treasury_operation, as an INSERT meets them.
unfoldable pub insert_allowed : OperationIntent → List Operation → Bool
insert_allowed input rs =
    not (any_by (λ r. str_eq r.request_digest input.request_digest) rs)
    && not (any_by unresolved rs)

abbrev pub resolved_at_once : RequestedAmount → Option ℕ
resolved_at_once (exact n) = some n
resolved_at_once maximum = none

unfoldable pub new_operation : OperationIntent → ℕ → Operation
new_operation input now = record {
  operation_key = input.operation_key;
  request_digest = input.request_digest;
  kind = input.kind;
  destination = input.destination;
  requested_amount = input.requested_amount;
  keep_float = input.keep_float;
  fee_ceiling = input.fee_ceiling;
  retry_limit = input.retry_limit;
  cancellation_requested = false;
  preparation_fenced = false;
  driver_owner = none;
  driver_generation = 0;
  driver_lease_expires_at_ms = none;
  effect_capability_generation = none;
  submission_in_flight = false;
  resolved_amount = resolved_at_once input.requested_amount;
  fee = none;
  transaction_id = none;
  prepared_digest = none;
  prepared_ref = none;
  prepared_byte_length = none;
  policy_digest = input.policy_digest;
  authorization_evidence_digest = input.authorization_evidence_digest;
  state = intent;
  retry_count = 0;
  created_at_ms = now;
  updated_at_ms = now;
  completed_at_ms = none;
}

unfoldable pub insert_operation : OperationIntent → ℕ → Journal → Journal
unfolding new_operation
insert_operation input now j = record j {
  operations = new_operation input now ∷ j.operations;
  transitions =
      j.transitions
      ++ transition_row input.operation_key none intent "intent_and_capacity_recorded" now ∷ [];
}

-- claimTreasuryOperationIntent on a key that the Journal does not hold.
unfoldable pub claim_new_intent : OperationIntent → ℕ → Journal → Result Journal
claim_new_intent input now j = do
  policy ← or_throw j.active_policy policy_reservation
  require (str_eq policy.digest input.policy_digest) policy_reservation
  let base = expire_reservations now j
  require
      (transfer_approved input.operation_key input.authorization_evidence_digest
        j.approved_transfers)
      policy_reservation
  assert_direct_treasury_capacity base policy input.kind input.destination
      (requested_or_zero input.requested_amount) input.fee_ceiling now none
  require (insert_allowed input j.operations) policy_reservation
  ok (insert_operation input now base)

-- claimTreasuryOperationIntent: a key that is held answers by its row.
unfoldable pub claim_treasury_operation_intent : OperationIntent → ℕ → Journal → Result Journal
claim_treasury_operation_intent input now j = do
  validate_intent input
  elim (find_operation input.operation_key j.operations) [
    | some r ↦ if same_intent r input then ok j else err invariant
    | none ↦ claim_new_intent input now j
  ]
