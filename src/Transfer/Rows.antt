-- ===== src/Transfer/Rows.antt =====
-- The Transfer rows of src/purchase/journal.ts: transitionTransferInternal, bindTransferTreasuryOperation and
-- syncTransferTreasuryOperation, with the record of src/transfer/types.ts.
use sompi.Base.{
  ℕ, ◌+◌, ◌==◌, ◌&&◌, Bool, String, Option, none, some, true, false, List, [], ◌∷◌, ◌++◌, str_eq,
  opt_eq, or_else, if◌then◌else◌, find_row, replace_row, Result, ok, err, ◌>>=◌, ◌>>◌, require,
  or_throw, not, any_by, sqlite_constraint, invariant, not_found, is_operation_key, is_transfer_id,
}
use sompi.Treasury.Types.{
  Operation, OperationKind, OperationState, vault_send, same_kind, same_amount, RequestedAmount,
  exact,
}
use sompi.Transfer.Lifecycle.{
  TransferState, authorised, funds_reserved, same_transfer_state, assert_transfer_transition,
  transfer_state_for_treasury,
}

pub record Transfer : Type 0 where
  pub id : String
  pub request_key : String
  pub request_digest : String
  pub state : TransferState
  pub destination : String
  pub amount : ℕ
  pub source_vault_address : String
  pub source_vault_digest : String
  pub fee_ceiling : ℕ
  pub maximum_total : ℕ
  pub expires_at_ms : ℕ
  pub policy_digest : String
  pub manifest_revision : ℕ
  pub manifest_digest : String
  pub finality_floor : String
  pub treasury_operation_key : Option String
  pub transaction_id : Option String
  pub actual_fee : Option ℕ
  pub failure_code : Option String
  pub version : ℕ
  pub created_at_ms : ℕ
  pub updated_at_ms : ℕ

pub record TransferTransition : Type 0 where
  pub transfer_id : String
  pub from_state : Option TransferState
  pub to_state : TransferState
  pub reason_code : String
  pub detail_digest : Option String
  pub created_at_ms : ℕ

-- TransferAuthorizationFacts, its two instants as the milliseconds that Date.parse reads.
pub record TransferFacts : Type 0 where
  pub profile : String
  pub transfer_id : String
  pub request_key : String
  pub source_vault_address : String
  pub source_vault_digest : String
  pub destination : String
  pub amount : ℕ
  pub asset : String
  pub network : String
  pub fee_ceiling : ℕ
  pub maximum_total : ℕ
  pub issued_at_ms : ℕ
  pub expires_at_ms : ℕ
  pub policy_digest : String
  pub operator_manifest_revision : ℕ
  pub operator_manifest_digest : String
  pub finality_floor : String

-- A row of transfer_authorizations; `approved` is its decision.
pub record Authorization : Type 0 where
  pub transfer_id : String
  pub facts : TransferFacts
  pub facts_digest : String
  pub approved : Bool
  pub authority_id : String
  pub denial_code : Option String
  pub evidence_digest : String
  pub verification_profile : String
  pub verifier_id : String
  pub decided_at_ms : ℕ
  pub expires_at_ms : ℕ

-- TransferReceipt; `settled_at` is what Date.parse reads, `none` for NaN.
pub record TransferReceipt : Type 0 where
  pub profile : String
  pub transfer_id : String
  pub request_key : String
  pub destination : String
  pub amount : ℕ
  pub fee : ℕ
  pub network : String
  pub funding_source : String
  pub funding_summary : String
  pub transaction_id : String
  pub finality : String
  pub settled_at : Option ℕ

-- A row of transfer_receipts.
pub record ReceiptRow : Type 0 where
  pub transfer_id : String
  pub receipt : TransferReceipt
  pub receipt_digest : String
  pub created_at_ms : ℕ

pub record Transfers : Type 0 where
  pub transfers : List Transfer
  pub transitions : List TransferTransition
  pub authorizations : List Authorization
  pub receipts : List ReceiptRow

-- The fields of TreasuryOperationView that a Transfer is compared with.
pub record OperationView : Type 0 where
  pub operation_key : String
  pub kind : OperationKind
  pub state : OperationState
  pub destination : String
  pub requested_amount : RequestedAmount
  pub fee_ceiling : ℕ
  pub transaction_id : Option String
  pub fee : Option ℕ

-- view of src/treasury/operations.ts.
abbrev pub view : Operation → OperationView
view r = record {
  operation_key = r.operation_key;
  kind = r.kind;
  state = r.state;
  destination = r.destination;
  requested_amount = r.requested_amount;
  fee_ceiling = r.fee_ceiling;
  transaction_id = r.transaction_id;
  fee = r.fee;
}

abbrev pub transfer_id : Transfer → String
transfer_id t = t.id

-- requireTransfer, with the check of findTransfer.
unfoldable pub require_transfer : String → Transfers → Result Transfer
require_transfer id s = do
  require (is_transfer_id id) invariant
  or_throw (find_row transfer_id id s.transfers) not_found

-- The row of transitionTransferInternal.
unfoldable pub moved_transfer : Transfer → TransferState → ℕ → Transfer
moved_transfer t to now = record t { state = to; version = t.version + 1; updated_at_ms = now }

-- transitionTransferInternal, on the row that it reads.
unfoldable pub transition_transfer_internal :
    Transfer
    → TransferState
    → String
    → Option String
    → ℕ
    → Transfers
    → Result (Transfers × Transfer)
transition_transfer_internal t to reason detail now s = do
  assert_transfer_transition t.state to
  ok (
    record s {
      transfers = replace_row transfer_id t.id (moved_transfer t to now) s.transfers;
      transitions =
          s.transitions
          ++ record {
            transfer_id = t.id;
            from_state = some t.state;
            to_state = to;
            reason_code = reason;
            detail_digest = detail;
            created_at_ms = now;
          }
            ∷ [];
    },
    moved_transfer t to now,
  )

abbrev pub authorization_id : Authorization → String
authorization_id a = a.transfer_id

abbrev pub receipt_id : ReceiptRow → String
receipt_id r = r.transfer_id

abbrev pub is_approved : Option Authorization → Bool
is_approved none = false
is_approved (some a) = a.approved

-- A UNIQUE column of transfers, as an UPDATE of the row `id` meets it in the other rows: NULL is in nobody's way.
unfoldable pub unused_elsewhere :
    (Transfer → Option String) → String → Option String → List Transfer → Bool
unused_elsewhere column id none ts = true
unused_elsewhere column id (some value) ts =
    not (any_by (λ t. not (str_eq t.id id) && opt_eq str_eq (column t) (some value)) ts)

-- bindTransferTreasuryOperation.
unfoldable pub bind_transfer_treasury_operation :
    String → String → (now : ℕ) → Transfers → Result (Transfers × Transfer)
bind_transfer_treasury_operation id operation_key now s = do
  require (is_transfer_id id) invariant
  require (is_operation_key operation_key) invariant
  t ← require_transfer id s
  elim t.treasury_operation_key [
    | some bound ↦ if str_eq bound operation_key then ok (s, t) else err invariant
    | none ↦ (do
      require (same_transfer_state t.state authorised) invariant
      require (is_approved (find_row authorization_id id s.authorizations)) invariant
      require (unused_elsewhere (λ u. u.treasury_operation_key) id (some operation_key) s.transfers)
          sqlite_constraint
      let t' = record t { treasury_operation_key = some operation_key; updated_at_ms = now } in
          transition_transfer_internal t' funds_reserved "treasury_operation_bound" none now
            (record s { transfers = replace_row transfer_id id t' s.transfers }))
  ]

-- The operation is this Transfer's and carries out its authorized intent.
unfoldable pub belongs : Transfer → OperationView → Bool
belongs t o =
    opt_eq str_eq t.treasury_operation_key (some o.operation_key)
    && same_kind o.kind vault_send
    && str_eq o.destination t.destination
    && same_amount o.requested_amount (exact t.amount)
    && o.fee_ceiling == t.fee_ceiling

abbrev pub failure_of : OperationState → Option String
failure_of OperationState.failed_terminal = some "treasury_operation_failed"
failure_of _ = none

-- `treasury_${operation.state}`.
abbrev pub sync_reason : OperationState → String
sync_reason OperationState.intent = "treasury_intent"
sync_reason OperationState.prepared = "treasury_prepared"
sync_reason OperationState.submission_planned = "treasury_submission_planned"
sync_reason OperationState.submitted = "treasury_submitted"
sync_reason OperationState.observed = "treasury_observed"
sync_reason OperationState.completed = "treasury_completed"
sync_reason OperationState.failed_terminal = "treasury_failed_terminal"

-- The row of the UPDATE in syncTransferTreasuryOperation.
unfoldable pub facts_synced : Transfer → OperationView → ℕ → Transfer
facts_synced t o now = record t {
  transaction_id = or_else t.transaction_id o.transaction_id;
  actual_fee = or_else t.actual_fee o.fee;
  failure_code = or_else t.failure_code (failure_of o.state);
  updated_at_ms = now;
}

-- syncTransferTreasuryOperation.
unfoldable pub sync_transfer_treasury_operation :
    String → OperationView → (now : ℕ) → Transfers → Result (Transfers × Transfer)
sync_transfer_treasury_operation id o now s = do
  require (is_transfer_id id) invariant
  t ← require_transfer id s
  require (belongs t o) invariant
  require
      (unused_elsewhere (λ u. u.transaction_id) id (or_else t.transaction_id o.transaction_id)
        s.transfers)
      sqlite_constraint
  let t' = facts_synced t o now in
      let s' = record s { transfers = replace_row transfer_id id t' s.transfers } in
      if same_transfer_state t'.state (transfer_state_for_treasury o.state)
      then ok (s', t')
      else transition_transfer_internal t' (transfer_state_for_treasury o.state)
          (sync_reason o.state) none now s'
