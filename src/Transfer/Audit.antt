-- ===== src/Transfer/Audit.antt =====
-- What a Transfer's row, its authorization and its receipt must say of each other: the checks of
-- verifySemanticConsistency in src/purchase/journal.ts that run when the Journal is opened.
use sompi.Base.{
  ◌&&◌, ◌||◌, not, Bool, true, false, Option, none, some, List, [], ◌∷◌, any_by, is_some, find_row,
}
use sompi.Transfer.Lifecycle.{
  TransferState, authorised, denied, funds_reserved, prepared, submitted, settled, receipted,
  failed_recoverable, same_transfer_state,
}
use sompi.Transfer.Rows.{
  Transfer, Authorization, ReceiptRow, Transfers, authorization_id, receipt_id,
}
use sompi.Transfer.Decisions.{facts_match, receipt_matches}

abbrev pub is_among : TransferState → List TransferState → Bool
is_among state states = any_by (same_transfer_state state) states

abbrev pub needs_decision : TransferState → Bool
needs_decision state = is_among state (
    authorised ∷ funds_reserved ∷ prepared ∷ submitted ∷ settled ∷ receipted ∷ denied
    ∷ failed_recoverable ∷ [])

abbrev pub needs_approval : TransferState → Bool
needs_approval state = is_among state (
    authorised ∷ funds_reserved ∷ prepared ∷ submitted ∷ settled ∷ receipted ∷ failed_recoverable
    ∷ [])

abbrev pub needs_operation : TransferState → Bool
needs_operation state =
    is_among state
      (funds_reserved ∷ prepared ∷ submitted ∷ settled ∷ receipted ∷ failed_recoverable ∷ [])

abbrev pub decision_is : Bool → Option Bool → Bool
decision_is expected none = false
decision_is true (some approved) = approved
decision_is false (some approved) = not approved

abbrev pub holds_if_given : Option Bool → Bool
holds_if_given none = true
holds_if_given (some b) = b

-- The checks, on the state, whether an operation is bound, the decision, whether its facts are the intent's, and
-- whether the receipt is the settled Transfer's.
unfoldable pub agrees :
    TransferState
    → (bound : Bool) (decision : Option Bool) (facts : Bool) (receipt : Option Bool) → Bool
agrees state bound decision facts receipt =
    (not (needs_decision state) || is_some decision)
    && (not (needs_approval state) || decision_is true decision)
    && (not (same_transfer_state state denied) || decision_is false decision)
    && facts
    && (not (needs_operation state) || bound)
    && (not (same_transfer_state state receipted) || is_some receipt)
    && (same_transfer_state state receipted || not (is_some receipt))
    && holds_if_given receipt

abbrev pub decision_of : Option Authorization → Option Bool
decision_of none = none
decision_of (some a) = some a.approved

unfoldable pub decided_facts : Option Authorization → Transfer → Bool
decided_facts none t = true
decided_facts (some a) t = facts_match a.facts t

unfoldable pub receipt_agrees : Option ReceiptRow → Transfer → Option Bool
receipt_agrees none t = none
receipt_agrees (some r) t = some (receipt_matches r.receipt t)

unfoldable pub audit_transfer : Transfer → Option Authorization → Option ReceiptRow → Bool
unfolding agrees decided_facts receipt_agrees
audit_transfer t authorization receipt =
    agrees t.state (is_some t.treasury_operation_key) (decision_of authorization)
      (decided_facts authorization t) (receipt_agrees receipt t)

-- The audit of the stored Transfer of an ID.
unfoldable pub audit_stored : Transfers → Transfer → Bool
unfolding audit_transfer
audit_stored s t =
    audit_transfer t (find_row authorization_id t.id s.authorizations)
      (find_row receipt_id t.id s.receipts)
