-- ===== src/Transfer/Startup.antt =====
-- What the histories of Transfers (src/purchase/journal.ts, src/transfer/module.ts) promise.
use mathlib.Core.Option.{some-injective}
use sompi.Base.{
  ℕ, ◌≡◌, refl, sym, ◌∙◌, ap, true, false, Bool, String, Option, none, some, List, [], is_some,
  find_row, is_transfer_id, err, Error, plain, inl, inr, arith,
}
use sompi.Transfer.Lifecycle.{
  TransferState, receipted, same_transfer_state, allowed, assert_transfer_transition,
  transfer_state_for_treasury,
}
use sompi.Transfer.Rows.{
  Transfer, Authorization, ReceiptRow, Transfers, OperationView, transfer_id, authorization_id,
  receipt_id, facts_synced, require_transfer, transition_transfer_internal,
  sync_transfer_treasury_operation,
}
use sompi.Transfer.Decisions.{Encoding, facts_match}
use sompi.Transfer.Audit.{agrees, needs_operation, decided_facts, audit_transfer, audit_stored}
use sompi.Transfer.Mirror.{result_cases}
use sompi.Transfer.Calls.{TransferCall, run}
use sompi.Transfer.Approval.{Consistent, run-Consistent}

-- Tables before the first Transfer.
abbrev pub IsUnused : Transfers → Type 0
IsUnused s = (s.transfers ≡ []) × (s.authorizations ≡ []) × (s.receipts ≡ [])

unused-Consistent : (s : Transfers) → IsUnused s → Consistent s
unfolding find_row
unused-Consistent s (no_rows, no_decisions, no_receipts) = record {
  audited = λ id t h. absurd (impossible id t (ap (find_row transfer_id id) (sym no_rows) ∙ h));
  owned = λ k _.
      (ap (find_row authorization_id k) no_decisions, ap (find_row receipt_id k) no_receipts);
}
  where
    impossible : (id : String) (t : Transfer) → none ≡ some t → ⊥
    impossible id t h = cc

-- From tables without Transfers, after any calls of the module, by any number of processes, every stored Transfer agrees with
-- its authorization and its receipt as the next start of the Journal checks it.
pub run-audit_stored :
    (E : Encoding) (cs : List TransferCall) (s : Transfers) (id : String) (t : Transfer)
    → IsUnused s
    → find_row transfer_id id (run E cs s).transfers ≡ some t
    → audit_stored (run E cs s) t ≡ true
run-audit_stored E cs s id t unused h =
    (run-Consistent E cs s (unused-Consistent s unused)).audited id t h

agrees-parts :
    (state : TransferState) (b : Bool) (d : Option Bool) (f : Bool) (r : Option Bool)
    → needs_operation state ≡ true
    → agrees state b d f r ≡ true
    → (d ≡ some true) × (f ≡ true) × (b ≡ true)
unfolding agrees
agrees-parts state b d f r past h = ground arith

approved-parts :
    (t : Transfer) (a : Option Authorization) (r : Option ReceiptRow)
    → needs_operation t.state ≡ true
    → audit_transfer t a r ≡ true
    → (x : Authorization) × (a ≡ some x)
      × (x.approved ≡ true)
      × (facts_match x.facts t ≡ true)
      × (is_some t.treasury_operation_key ≡ true)
unfolding audit_transfer decided_facts
approved-parts t none r past h = absurd (undecided (agrees-parts t.state _ none _ _ past h).0)
  where
    undecided : none ≡ some true → ⊥
    undecided e = cc
approved-parts t (some x) r past h =
    let (approved, facts, bound) = agrees-parts t.state _ (some x.approved) _ _ past h in
    (x, refl, some-injective x.approved true approved, facts, bound)

-- No funds without approval: from tables without Transfers, after any calls of the module, a Transfer with reserved funds, or prepared,
-- submitted, settled, receipted or recoverable, has a stored decision that approves it, whose facts (source,
-- destination, amount, fees, expiry, policy, manifest, finality) are those of its intent, and
-- is bound to a Treasury Operation.
pub run-approved :
    (E : Encoding) (cs : List TransferCall) (s : Transfers) (id : String) (t : Transfer)
    → IsUnused s
    → find_row transfer_id id (run E cs s).transfers ≡ some t
    → needs_operation t.state ≡ true
    → (a : Authorization) × (find_row authorization_id t.id (run E cs s).authorizations ≡ some a)
      × (a.approved ≡ true)
      × (facts_match a.facts t ≡ true)
      × (is_some t.treasury_operation_key ≡ true)
unfolding audit_stored
run-approved E cs s id t unused h past =
    approved-parts t _ _ past (run-audit_stored E cs s id t unused h)

receipted_refused :
    (o : OperationView)
    → (same_transfer_state receipted (transfer_state_for_treasury o.state) ≡ false)
      × (assert_transfer_transition receipted (transfer_state_for_treasury o.state) ≡ err plain)
unfolding assert_transfer_transition allowed transfer_state_for_treasury
receipted_refused o = ground arith

-- A stored receipted Transfer with a well-formed ID cannot be synced with any operation: every sync throws.
pub receipted-sync :
    (id : String) (t : Transfer) (o : OperationView) (now : ℕ) (s : Transfers)
    → is_transfer_id id ≡ true
    → find_row transfer_id id s.transfers ≡ some t
    → t.state ≡ receipted
    → (e : Error) × (sync_transfer_treasury_operation id o now s ≡ err e)
unfolding sync_transfer_treasury_operation require_transfer transition_transfer_internal
    facts_synced
receipted-sync id t o now s named found is_receipted =
    let (other, refused) = receipted_refused o in
    elim (result_cases (sync_transfer_treasury_operation id o now s)) [
      | inl (x, synced) ↦ absurd (ground (arith, other, refused, synced))
      | inr thrown ↦ thrown
    ]
