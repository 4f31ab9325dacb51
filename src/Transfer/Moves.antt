-- ===== src/Transfer/Moves.antt =====
-- The writes of the Transfer handlers of src/purchase/journal.ts keep a row, its authorization and its
-- receipt in agreement.
use sompi.Base.{◌≡◌, true, Bool, Option, none, some, ◌∷◌, [], any_by, if◌then◌else◌, ok, arith}
use sompi.Transfer.Lifecycle.{
  TransferState, awaiting_authority, authorised, denied, funds_reserved, prepared, submitted,
  settled, receipted, failed_recoverable, failed_terminal, same_transfer_state, allowed,
  assert_transfer_transition, transfer_state_for_treasury,
}
use sompi.Treasury.Types.{OperationState}
use sompi.Transfer.Audit.{agrees}

module _ (from : TransferState) (b : Bool) (d : Option Bool) (f : Bool) (r : Option Bool) where
  pub request_agrees :
      agrees from b d f r ≡ true
      → assert_transfer_transition from awaiting_authority ≡ ok tt
      → agrees awaiting_authority b d f r ≡ true
  unfolding agrees assert_transfer_transition allowed
  request_agrees h m = ground arith

  pub give_up_agrees :
      agrees from b d f r ≡ true
      → assert_transfer_transition from failed_terminal ≡ ok tt
      → agrees failed_terminal b d f r ≡ true
  unfolding agrees assert_transfer_transition allowed
  give_up_agrees h m = ground arith

  pub recoverable_agrees :
      agrees from b d f r ≡ true
      → any_by (same_transfer_state from) (funds_reserved ∷ prepared ∷ submitted ∷ settled ∷ [])
        ≡ true
      → agrees failed_recoverable b d f r ≡ true
  unfolding agrees
  recoverable_agrees h m = ground arith

  -- A decision on the intent's own facts.
  pub decide_agrees :
      (approved : Bool)
      → agrees awaiting_authority b d f r ≡ true
      → agrees (if approved then authorised else denied) b (some approved) true r ≡ true
  unfolding agrees
  decide_agrees approved h = ground arith

  pub bind_agrees : agrees authorised b d f r ≡ true → agrees funds_reserved true d f r ≡ true
  unfolding agrees
  bind_agrees h = ground arith

  pub receipt_agrees_after :
      agrees settled b d f r ≡ true → agrees receipted b d f (some true) ≡ true
  unfolding agrees
  receipt_agrees_after h = ground arith

  -- A Transfer that moves with its operation has no receipt.
  pub sync_agrees :
      (o : OperationState)
      → agrees from true d f r ≡ true
      → assert_transfer_transition from (transfer_state_for_treasury o) ≡ ok tt
      → (r ≡ none) × (agrees (transfer_state_for_treasury o) true d f none ≡ true)
  unfolding agrees assert_transfer_transition allowed transfer_state_for_treasury
  sync_agrees o h m = ground arith

  pub sync_same_agrees :
      (o : OperationState) → agrees (transfer_state_for_treasury o) b d f r ≡ true → r ≡ none
  unfolding agrees transfer_state_for_treasury
  sync_same_agrees o h = ground arith
