-- ===== src/Transfer/Deciding.antt =====
-- The calls that decide and receipt a Transfer (src/purchase/journal.ts), and the history of all calls.
use sompi.Base.{
  ℕ, ◌≡◌, refl, sym, ◌∙◌, ap, true, false, not, ◌||◌, Bool, String, Option, some, ◌∷◌, str_eq,
  any_by, is_some, if◌then◌else◌, find_row, eq_iff, leb, ok, invariant, sqlite_constraint, require,
  >>=-eq-ok, arith,
}
use sompi.Transfer.Lifecycle.{
  TransferState, awaiting_authority, authorised, denied, settled, receipted, same_transfer_state,
}
use sompi.Transfer.Rows.{
  Transfer, TransferFacts, Authorization, TransferReceipt, ReceiptRow, Transfers, transfer_id,
  authorization_id, receipt_id, moved_transfer, transition_transfer_internal,
}
use sompi.Transfer.Decisions.{
  Encoding, TransferAuthorityDecision, facts_match, receipt_matches, authorization_row, receipt_row,
  authorization_clashes, decide_transfer, receipt_transfer,
}
use sompi.Transfer.Audit.{
  agrees, decision_of, decided_facts, receipt_agrees, audit_transfer, audit_stored,
}
use sompi.Transfer.Moves.{decide_agrees, receipt_agrees_after}
use sompi.Transfer.Writes.{Touched, moved-Touched}
use sompi.Transfer.History.{moved-audit, unwritten}
use sompi.Transfer.Settling.{rank-injective, audit-as}

self_eq : (s : String) → str_eq s s ≡ true
self_eq s = ground (arith, eq_iff s s)

pub required-true : (b : Bool) {v : Unit {0}} → require b invariant ≡ ok v → b ≡ true
required-true true k = refl
required-true false k = cc

audit-at :
    (t : Transfer) (state : TransferState) (a : Option Authorization) (r : Option ReceiptRow)
    → t.state ≡ state
    → audit_transfer t a r ≡ true
    → agrees state
        (is_some t.treasury_operation_key)
        (decision_of a)
        (decided_facts a t)
        (receipt_agrees r t)
      ≡ true
audit-at t state a r e h =
    ap
      (λ x.
        agrees x (is_some t.treasury_operation_key) (decision_of a) (decided_facts a t)
          (receipt_agrees r t))
      (sym e)
    ∙ sym (audit-as t a r)
    ∙ h

module _ (E : Encoding) where
  decide-cases :
      (t : Transfer) (facts : TransferFacts) (d : TransferAuthorityDecision) (now : ℕ)
      (s s' : Transfers)
      → decide_transfer E t facts d now s ≡ ok s'
      → (facts_match facts t ≡ true)
        × (u : Transfer) × (transition_transfer_internal t
              (if d.approved then authorised else denied)
              (if d.approved then "authorization_approved" else "authorization_denied")
              (some d.evidence_digest)
              now
              (record s { authorizations = authorization_row E t facts d ∷ s.authorizations })
            ≡ ok (s', u))
  unfolding decide_transfer
  decide-cases t facts d now s s' h =
      let (_, matched, h1) = >>=-eq-ok (require (facts_match facts t) invariant) _ h in
      let (_, _, h2) = >>=-eq-ok (require (leb d.decided_at_ms t.expires_at_ms) invariant) _ h1 in
      let (_, _, h3) =
        >>=-eq-ok
          (require (not (any_by (authorization_clashes E t.id d) s.authorizations))
            sqlite_constraint)
          _ h2 in
      let ((s1, u), moved, last) = >>=-eq-ok (transition_transfer_internal t _ _ _ now _) _ h3 in
      let e : s1 ≡ s' = ground (arith, last) in
      (required-true (facts_match facts t) matched, u, moved ∙ λ i. ok (e i, u))

  pub decide-Touched :
      (t : Transfer) (facts : TransferFacts) (d : TransferAuthorityDecision) (now : ℕ)
      (s s' : Transfers)
      → find_row transfer_id t.id s.transfers ≡ some t
      → t.state ≡ awaiting_authority
      → decide_transfer E t facts d now s ≡ ok s'
      → Touched s s'
  unfolding find_row audit_stored decided_facts
  decide-Touched t facts d now s s' found waiting h =
      let (matched, u, moved) = decide-cases t facts d now s s' h in
      let a = authorization_row E t facts d in
      let base = record s { authorizations = a ∷ s.authorizations } in
      moved-Touched s base t t (if d.approved then authorised else denied) _ _ now s' u found refl
        (λ k. unwritten s t k found) moved (λ k apart. rw apart refl) (λ _ _. refl)
        (λ before.
          let r = find_row receipt_id t.id s.receipts in
          let own : find_row authorization_id t.id (a ∷ s.authorizations) ≡ some a =
            rw (self_eq t.id) refl in
          ap
            (λ x.
              audit_transfer (moved_transfer t (if d.approved then authorised else denied) now) x r)
            own
          ∙ moved-audit t (if d.approved then authorised else denied) now (some a) r
          ∙ ap
              (λ f.
                agrees (if d.approved then authorised else denied)
                  (is_some t.treasury_operation_key) (some d.approved) f (receipt_agrees r t))
              matched
          ∙ decide_agrees t.state (is_some t.treasury_operation_key)
              (decision_of (find_row authorization_id t.id s.authorizations))
              (decided_facts (find_row authorization_id t.id s.authorizations) t)
              (receipt_agrees r t) d.approved (audit-at t awaiting_authority _ r waiting before))

  receipt-cases :
      (t : Transfer) (r : TransferReceipt) (now : ℕ) (s s' : Transfers)
      → receipt_transfer E t r now s ≡ ok s'
      → (t.state ≡ settled)
        × (receipt_matches r t ≡ true)
        × (u : Transfer) × (transition_transfer_internal t receipted "receipt_recorded"
              (some (E.sha256 (E.receipt_json r)))
              now
              (record s { receipts = receipt_row E t r now ∷ s.receipts })
            ≡ ok (s', u))
  unfolding receipt_transfer
  receipt-cases t r now s s' h =
      let (_, is_settled, h1) =
        >>=-eq-ok (require (same_transfer_state t.state settled) invariant) _ h in
      let (_, matched, h2) = >>=-eq-ok (require (receipt_matches r t) invariant) _ h1 in
      let (_, _, h3) =
        >>=-eq-ok
          (require
            (not (
              any_by
                (λ x.
                  str_eq x.transfer_id t.id
                  || str_eq x.receipt_digest (E.sha256 (E.receipt_json r)))
                s.receipts))
            sqlite_constraint)
          _ h2 in
      let ((s1, u), moved, last) = >>=-eq-ok (transition_transfer_internal t _ _ _ now _) _ h3 in
      let e : s1 ≡ s' = ground (arith, last) in
      (
        rank-injective t.state settled
            (required-true (same_transfer_state t.state settled) is_settled),
        required-true (receipt_matches r t) matched,
        u,
        moved ∙ λ i. ok (e i, u),
      )

  pub receipt-Touched :
      (t : Transfer) (r : TransferReceipt) (now : ℕ) (s s' : Transfers)
      → find_row transfer_id t.id s.transfers ≡ some t
      → receipt_transfer E t r now s ≡ ok s'
      → Touched s s'
  unfolding find_row audit_stored receipt_agrees
  receipt-Touched t r now s s' found h =
      let (is_settled, matched, u, moved) = receipt-cases t r now s s' h in
      let row = receipt_row E t r now in
      let base = record s { receipts = row ∷ s.receipts } in
      moved-Touched s base t t receipted _ _ now s' u found refl (λ k. unwritten s t k found) moved
        (λ _ _. refl) (λ k apart. rw apart refl)
        (λ before.
          let a = find_row authorization_id t.id s.authorizations in
          let own : find_row receipt_id t.id (row ∷ s.receipts) ≡ some row =
            rw (self_eq t.id) refl in
          let bound = is_some t.treasury_operation_key in
          ap (λ x. audit_transfer (moved_transfer t receipted now) a x) own
          ∙ moved-audit t receipted now a (some row)
          ∙ ap (λ b. agrees receipted bound (decision_of a) (decided_facts a t) (some b)) matched
          ∙ receipt_agrees_after t.state bound (decision_of a) (decided_facts a t)
              (receipt_agrees (find_row receipt_id t.id s.receipts) t)
              (audit-at t settled a _ is_settled before))
