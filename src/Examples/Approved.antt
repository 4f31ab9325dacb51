-- ===== src/Examples/Approved.antt =====
-- A Transfer from its intent to its receipt (src/purchase/journal.ts), and the theorems on it.
use sompi.Base.Text
use sompi.Base.{
  Error, ◌≡◌, refl, true, String, none, some, List, [], ◌∷◌, is_some, str_eq, false, find_row,
  replace_row, is_transfer_id, err,
}
use sompi.Treasury.Types.{OperationState, vault_send, exact}
use sompi.Transfer.Lifecycle.{receipted}
use sompi.Transfer.Rows
use sompi.Transfer.Intake
use sompi.Transfer.Decisions
use sompi.Transfer.Lifecycle
use sompi.Transfer.Calls
use sompi.Treasury.Tables
use sompi.Transfer.Rows.{
  Transfer, TransferFacts, TransferReceipt, Authorization, OperationView, Transfers, transfer_id,
  authorization_id, sync_transfer_treasury_operation,
}
use sompi.Transfer.Intake.{TransferJournalIntent}
use sompi.Transfer.Decisions.{Encoding, TransferAuthorityDecision, facts_match}
use sompi.Transfer.Audit.{audit_stored}
use sompi.Transfer.Calls.{TransferCall, claim, request_authority, decide, bind, sync, receipt, run}
use sompi.Transfer.Startup.{run-audit_stored, run-approved, receipted-sync}
use sompi.Examples.Data.{policy, policy_digest, request_digest, other_digest, payee, transaction_id}

abbrev transfer_name : String
transfer_name = "trf_0123456789012345678901"

abbrev operation_name : String
operation_name = "transfer:trf_0123456789012345678901"

-- A digest that tells the three texts of the example apart.
abbrev encoding : Encoding
encoding = record {
  sha256 = λ s. elim (str_eq s "evidence") [ true ↦ request_digest | false ↦ other_digest ];
  facts_json = λ f. "facts";
  receipt_json = λ r. "receipt";
}

abbrev journal_intent : TransferJournalIntent
journal_intent = record {
  id = transfer_name;
  request_key = "request-1";
  request_digest = request_digest;
  destination = payee;
  amount = 500;
  source_vault_address = "kaspatest:qvault";
  source_vault_digest = request_digest;
  fee_ceiling = 20;
  maximum_total = 520;
  expires_at_ms = 900000;
  policy_digest = policy_digest;
  manifest_revision = 1;
  manifest_digest = request_digest;
  finality_floor = "accepted";
}

abbrev facts : TransferFacts
facts = record {
  profile = "sompi.transfer.1";
  transfer_id = transfer_name;
  request_key = "request-1";
  source_vault_address = "kaspatest:qvault";
  source_vault_digest = request_digest;
  destination = payee;
  amount = 500;
  asset = "KAS";
  network = "kaspa:testnet-10";
  fee_ceiling = 20;
  maximum_total = 520;
  issued_at_ms = 1000;
  expires_at_ms = 900000;
  policy_digest = policy_digest;
  operator_manifest_revision = 1;
  operator_manifest_digest = request_digest;
  finality_floor = "accepted";
}

abbrev approval : TransferAuthorityDecision
approval = record {
  approved = true;
  authority_id = "owner";
  denial_code = none;
  evidence = "evidence";
  evidence_digest = request_digest;
  facts_digest = other_digest;
  verification_profile = "telegram";
  verifier_id = "verifier";
  decided_at_ms = 2000;
}

abbrev operation : OperationView
operation = record {
  operation_key = operation_name;
  kind = vault_send;
  state = OperationState.completed;
  destination = payee;
  requested_amount = exact 500;
  fee_ceiling = 20;
  transaction_id = some transaction_id;
  fee = some 12;
}

abbrev proof : TransferReceipt
proof = record {
  profile = "urn:sompi:receipt:transfer:1";
  transfer_id = transfer_name;
  request_key = "request-1";
  destination = payee;
  amount = 500;
  fee = 12;
  network = "kaspa:testnet-10";
  funding_source = "vault-treasury";
  funding_summary = "Sent securely from your protected Sompi wallet.";
  transaction_id = transaction_id;
  finality = "accepted";
  settled_at = some 5000;
}

abbrev calls : List TransferCall
calls =
    claim journal_intent (policy ∷ []) (some (1, request_digest)) 1000
    ∷ request_authority transfer_name 1100
    ∷ decide transfer_name facts approval 2100
    ∷ bind transfer_name operation_name 2200
    ∷ sync transfer_name operation 4000
    ∷ receipt transfer_name proof 5000
    ∷ []

abbrev unused : Transfers
unused = record { transfers = []; transitions = []; authorizations = []; receipts = [] }

abbrev last_row : Transfer
last_row = record {
  id = transfer_name;
  request_key = "request-1";
  request_digest = request_digest;
  state = receipted;
  destination = payee;
  amount = 500;
  source_vault_address = "kaspatest:qvault";
  source_vault_digest = request_digest;
  fee_ceiling = 20;
  maximum_total = 520;
  expires_at_ms = 900000;
  policy_digest = policy_digest;
  manifest_revision = 1;
  manifest_digest = request_digest;
  finality_floor = "accepted";
  treasury_operation_key = some operation_name;
  transaction_id = some transaction_id;
  actual_fee = some 12;
  failure_code = none;
  version = 5;
  created_at_ms = 1000;
  updated_at_ms = 5000;
}

last_held : find_row transfer_id transfer_name (run encoding calls unused).transfers ≡ some last_row
unfolding find_row replace_row Calls.call Calls.run Rows.require_transfer Rows.moved_transfer
    Rows.transition_transfer_internal Rows.bind_transfer_treasury_operation Rows.belongs
    Rows.facts_synced Rows.sync_transfer_treasury_operation Rows.unused_elsewhere
    Intake.is_transfer_atomic Intake.validate_transfer_intent Intake.same_transfer_intent
    Intake.new_transfer Intake.claim_new_transfer Intake.claim_transfer_intent
    Intake.transition_transfer Decisions.validate_transfer_authority_decision Decisions.facts_match
    Decisions.receipt_matches Decisions.decide_transfer Decisions.record_transfer_authorization
    Decisions.receipt_transfer Decisions.record_transfer_receipt Lifecycle.allowed
    Lifecycle.assert_transfer_transition Lifecycle.transfer_state_for_treasury Tables.find_policy
    Text.codes Text.is_digit Text.is_lower_alnum Text.is_alnum Text.is_base64url Text.is_key_char
    Text.is_lower_hex Text.strip_prefix Text.is_digest Text.is_address Text.is_operation_key
    Text.is_code Text.is_transfer_id Text.is_bounded_text
last_held = refl

run-audit_stored_example : audit_stored (run encoding calls unused) last_row ≡ true
run-audit_stored_example =
    run-audit_stored encoding calls unused transfer_name last_row (refl, refl, refl) last_held

run-approved_example :
    (a : Authorization) × (find_row authorization_id transfer_name
        (run encoding calls unused).authorizations
      ≡ some a)
    × (a.approved ≡ true)
    × (facts_match a.facts last_row ≡ true)
    × (is_some last_row.treasury_operation_key ≡ true)
run-approved_example =
    run-approved encoding calls unused transfer_name last_row (refl, refl, refl) last_held refl

abbrev receipted_tables : Transfers
receipted_tables = record unused { transfers = last_row ∷ [] }

named : is_transfer_id transfer_name ≡ true
unfolding Text.is_transfer_id Text.codes Text.strip_prefix Text.is_base64url Text.is_alnum
named = refl

held : find_row transfer_id transfer_name receipted_tables.transfers ≡ some last_row
unfolding find_row
held = refl

receipted-sync_example :
    (e : Error) × (sync_transfer_treasury_operation transfer_name operation 9000 receipted_tables
      ≡ err e)
receipted-sync_example =
    receipted-sync transfer_name last_row operation 9000 receipted_tables named held refl
