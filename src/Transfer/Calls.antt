-- ===== src/Transfer/Calls.antt =====
-- A history of Transfers: the calls that src/transfer/module.ts makes on the Journal, by any number of
-- processes in the order in which their transactions are committed.
use sompi.Base.{ℕ, String, none, List, [], ◌∷◌, Result, ok, err}
use sompi.Treasury.Types.{PolicySnapshot}
use sompi.Transfer.Lifecycle.{awaiting_authority, failed_terminal}
use sompi.Transfer.Rows.{
  Transfer, TransferFacts, TransferReceipt, OperationView, Transfers,
  bind_transfer_treasury_operation, sync_transfer_treasury_operation,
}
use sompi.Transfer.Intake.{
  TransferJournalIntent, Manifest, claim_transfer_intent, transition_transfer, mark_recoverable,
}
use sompi.Transfer.Decisions.{
  Encoding, TransferAuthorityDecision, record_transfer_authorization, record_transfer_receipt,
}

pub data TransferCall : Type 0 where
  claim : TransferJournalIntent → List PolicySnapshot → Manifest → (now : ℕ) → TransferCall
  request_authority : (id : String) → (now : ℕ) → TransferCall
  give_up : (id reason : String) → (now : ℕ) → TransferCall
  recoverable : (id reason : String) → (now : ℕ) → TransferCall
  decide : (id : String) → TransferFacts → TransferAuthorityDecision → (now : ℕ) → TransferCall
  bind : (id operation_key : String) → (now : ℕ) → TransferCall
  sync : (id : String) → OperationView → (now : ℕ) → TransferCall
  receipt : (id : String) → TransferReceipt → (now : ℕ) → TransferCall

abbrev pub tables : Result (Transfers × Transfer) → Result Transfers
tables (ok (s, t)) = ok s
tables (err e) = err e

abbrev pub committed : Transfers → Result Transfers → Transfers
committed s (ok s') = s'
committed s (err e) = s

module _ (E : Encoding) where
  unfoldable pub call : TransferCall → Transfers → Result Transfers
  call (claim input policies manifest now) s = claim_transfer_intent input policies manifest now s
  call (request_authority id now) s =
      tables (transition_transfer id awaiting_authority "authority_requested" none now s)
  call (give_up id reason now) s = tables (transition_transfer id failed_terminal reason none now s)
  call (recoverable id reason now) s = tables (mark_recoverable id reason now s)
  call (decide id facts d now) s = record_transfer_authorization E id facts d now s
  call (bind id operation_key now) s =
      tables (bind_transfer_treasury_operation id operation_key now s)
  call (sync id operation now) s = tables (sync_transfer_treasury_operation id operation now s)
  call (receipt id r now) s = record_transfer_receipt E id r now s

  unfoldable pub run : List TransferCall → Transfers → Transfers
  unfolding call
  run [] s = s
  run (c ∷ cs) s = run cs (committed s (call c s))
