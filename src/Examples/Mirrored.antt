-- ===== src/Examples/Mirrored.antt =====
-- A Transfer that follows its vault payment (src/purchase/journal.ts).
use sompi.Base.Text
use sompi.Base.{
  is_transfer_id, ◌≡◌, refl, true, or_else, Option, String, none, some, [], ◌∷◌, ok, find_row,
}
use sompi.Treasury.Types.{Operation, vault_send}
use sompi.Treasury.Tables.{find_operation}
use sompi.Treasury.Commands.{run}
use sompi.Transfer.Lifecycle.{TransferState, transfer_state_for_treasury}
use sompi.Transfer.Rows.{
  Transfer, Transfers, transfer_id, unused_elsewhere, belongs, view,
  sync_transfer_treasury_operation,
}
use sompi.Transfer.Mirror.{sync-mirrors}
use sompi.Examples.Data.{prepared_row, holding, paying, payee, request_digest, policy_digest}

abbrev vault_row : Operation
vault_row = record prepared_row { kind = vault_send }

abbrev transfer : Transfer
transfer = record {
  id = "trf_0123456789012345678901";
  request_key = "request-1";
  request_digest = request_digest;
  state = TransferState.prepared;
  destination = payee;
  amount = 500;
  source_vault_address = "kaspatest:qvault";
  source_vault_digest = request_digest;
  fee_ceiling = 20;
  maximum_total = 520;
  expires_at_ms = 900000;
  policy_digest = policy_digest;
  manifest_revision = 1;
  manifest_digest = request_digest;
  finality_floor = "accepted";
  treasury_operation_key = some "payment-1";
  transaction_id = none;
  actual_fee = none;
  failure_code = none;
  version = 4;
  created_at_ms = 900;
  updated_at_ms = 1600;
}

abbrev transfers : Transfers
transfers = record {
  transfers = transfer ∷ [];
  transitions = [];
  authorizations = [];
  receipts = [];
}

vault_held : find_operation "payment-1" (holding vault_row).operations ≡ some vault_row
unfolding find_operation
vault_held = refl

transfer_named : is_transfer_id transfer.id ≡ true
unfolding Text.is_transfer_id Text.codes Text.strip_prefix Text.is_base64url Text.is_alnum
transfer_named = refl

transfer_held : find_row transfer_id transfer.id transfers.transfers ≡ some transfer
unfolding find_row
transfer_held = refl

transfer-belongs : belongs transfer (view vault_row) ≡ true
unfolding belongs
transfer-belongs = refl

transfer_mirrors : transfer.state ≡ transfer_state_for_treasury vault_row.state
unfolding transfer_state_for_treasury
transfer_mirrors = refl

-- The only Transfer is in nobody's way.
alone :
    (r' : Operation)
    → find_operation "payment-1" (run paying (holding vault_row)).operations ≡ some r'
    → unused_elsewhere
        (λ u. u.transaction_id)
        transfer.id
        (or_else none r'.transaction_id)
        transfers.transfers
      ≡ true
alone r' held = none_other r'.transaction_id
  where
    none_other :
        (x : Option String)
        → unused_elsewhere (λ u. u.transaction_id) transfer.id x transfers.transfers ≡ true
    none_other none = unfold unused_elsewhere in refl
    none_other (some x) = unfold unused_elsewhere in refl

sync-mirrors_example :
    (r' : Operation) × (find_operation "payment-1" (run paying (holding vault_row)).operations
      ≡ some r')
    × (s' : Transfers) × (t' : Transfer) × (sync_transfer_treasury_operation transfer.id
          (view r')
          70000
          transfers
        ≡ ok (s', t'))
    × (t'.state ≡ transfer_state_for_treasury r'.state)
sync-mirrors_example =
    sync-mirrors paying (holding vault_row) "payment-1" vault_row transfer.id transfer 70000
      transfers vault_held transfer_named transfer_held transfer-belongs transfer_mirrors alone
