-- ===== src/Transfer/Lifecycle.antt =====
-- src/transfer/state-machine.ts, and transferStateForTreasury of src/purchase/journal.ts.
use sompi.Base.{ℕ, ◌==◌, Bool, List, [], ◌∷◌, any_by, Result, require, plain}
use sompi.Treasury.Types.{OperationState}

pub data TransferState : Type 0 where
  created awaiting_authority authorised denied funds_reserved prepared submitted settled receipted :
      TransferState
  failed_recoverable failed_terminal : TransferState

abbrev pub transfer_rank : TransferState → ℕ
transfer_rank created = 0
transfer_rank awaiting_authority = 1
transfer_rank authorised = 2
transfer_rank denied = 3
transfer_rank funds_reserved = 4
transfer_rank prepared = 5
transfer_rank submitted = 6
transfer_rank settled = 7
transfer_rank receipted = 8
transfer_rank failed_recoverable = 9
transfer_rank failed_terminal = 10

abbrev pub same_transfer_state : TransferState → TransferState → Bool
same_transfer_state a b = transfer_rank a == transfer_rank b

unfoldable pub allowed : TransferState → List TransferState
allowed created = awaiting_authority ∷ []
allowed awaiting_authority = authorised ∷ denied ∷ failed_recoverable ∷ failed_terminal ∷ []
allowed authorised = funds_reserved ∷ failed_terminal ∷ []
allowed denied = []
allowed funds_reserved = prepared ∷ submitted ∷ settled ∷ failed_recoverable ∷ failed_terminal ∷ []
allowed prepared = submitted ∷ settled ∷ failed_recoverable ∷ failed_terminal ∷ []
allowed submitted = settled ∷ failed_recoverable ∷ failed_terminal ∷ []
allowed settled = receipted ∷ failed_recoverable ∷ []
allowed receipted = []
allowed failed_recoverable =
    funds_reserved ∷ prepared ∷ submitted ∷ settled ∷ receipted ∷ failed_terminal ∷ []
allowed failed_terminal = []

-- Unlike a Purchase, a Transfer has no transition from a state to itself.
unfoldable pub assert_transfer_transition : TransferState → TransferState → Result (Unit {0})
unfolding allowed
assert_transfer_transition from to =
    require (any_by (λ s. same_transfer_state s to) (allowed from)) plain

unfoldable pub transfer_state_for_treasury : OperationState → TransferState
transfer_state_for_treasury OperationState.intent = funds_reserved
transfer_state_for_treasury OperationState.prepared = prepared
transfer_state_for_treasury OperationState.submission_planned = submitted
transfer_state_for_treasury OperationState.submitted = submitted
transfer_state_for_treasury OperationState.observed = settled
transfer_state_for_treasury OperationState.completed = settled
transfer_state_for_treasury OperationState.failed_terminal = failed_terminal
