-- ===== src/Transfer/Settling.antt =====
-- The calls that bind, settle, decide and receipt a Transfer (src/purchase/journal.ts), and their audit.
use sompi.Base.{
  ℕ, ◌≡◌, refl, sym, ◌∙◌, ap, ◌⊎◌, inl, inr, true, false, Bool, String, Option, none, some, List,
  str_eq, is_some, if◌then◌else◌, find_row, replace_row, find-replace, is_transfer_id,
  is_operation_key, ok, err, invariant, sqlite_constraint, require, ◌>>◌, >>=-eq-ok, arith,
}
use sompi.Transfer.Lifecycle.{
  TransferState, authorised, funds_reserved, same_transfer_state, assert_transfer_transition,
  transfer_state_for_treasury,
}
use sompi.Transfer.Rows.{
  Transfer, Authorization, ReceiptRow, Transfers, OperationView, transfer_id, authorization_id,
  receipt_id, is_approved, unused_elsewhere, facts_synced, belongs, sync_reason, require_transfer,
  transition_transfer_internal, bind_transfer_treasury_operation, sync_transfer_treasury_operation,
}
use sompi.Transfer.Decisions.{facts_match, receipt_matches}
use sompi.Transfer.Audit.{
  agrees, decision_of, decided_facts, receipt_agrees, audit_transfer, audit_stored,
}
use sompi.Transfer.Moves.{bind_agrees, sync_agrees, sync_same_agrees}
use sompi.Transfer.Writes.{
  Touched, own_row, required-found, transition-cases, moved-Touched, stored-as,
}
use sompi.Transfer.History.{moved-audit}

replaced_own :
    (key k : String) (t t1 : Transfer) (rows : List Transfer)
    → find_row transfer_id key rows ≡ some t
    → key ≡ t.id
    → t1.id ≡ t.id
    → find_row transfer_id k (replace_row transfer_id key t1 rows)
      ≡ (if str_eq t.id k then some t1 else find_row transfer_id k rows)
replaced_own key k t t1 rows found e same =
    find-replace transfer_id key k t t1 rows found same
    ∙ ap (λ x. if str_eq x k then some t1 else find_row transfer_id k rows) e

-- The row that bindTransferTreasuryOperation writes before its transition.
abbrev bound_row : Transfer → String → ℕ → Transfer
bound_row t operation_key now = record t {
  treasury_operation_key = some operation_key;
  updated_at_ms = now;
}

bind-cases :
    (id operation_key : String) (now : ℕ) (s s' : Transfers) (t u : Transfer)
    → elim t.treasury_operation_key [
      | some bound ↦ if str_eq bound operation_key then ok (s, t) else err invariant
      | none ↦ (do
        require (same_transfer_state t.state authorised) invariant
        require (is_approved (find_row authorization_id id s.authorizations)) invariant
        require
            (unused_elsewhere (λ u. u.treasury_operation_key) id (some operation_key) s.transfers)
            sqlite_constraint
        transition_transfer_internal
            (bound_row t operation_key now)
            funds_reserved
            "treasury_operation_bound"
            none
            now
            (record s {
              transfers = replace_row transfer_id id (bound_row t operation_key now) s.transfers;
            }))
    ]
      ≡ ok (s', u)
    → (s ≡ s')
      ⊎ ((t.state ≡ authorised)
          × (transition_transfer_internal
                (bound_row t operation_key now)
                funds_reserved
                "treasury_operation_bound"
                none
                now
                (record s {
                  transfers =
                      replace_row transfer_id id (bound_row t operation_key now) s.transfers;
                })
              ≡ ok (s', u)))
bind-cases id operation_key now s s' t u h = ground arith

bound-facts :
    (t : Transfer) (operation_key : String) (now : ℕ) (a : Option Authorization)
    → decided_facts a (bound_row t operation_key now) ≡ decided_facts a t
unfolding decided_facts facts_match
bound-facts t operation_key now none = refl
bound-facts t operation_key now (some a) = refl

bound-receipt :
    (t : Transfer) (operation_key : String) (now : ℕ) (r : Option ReceiptRow)
    → receipt_agrees r (bound_row t operation_key now) ≡ receipt_agrees r t
unfolding receipt_agrees receipt_matches
bound-receipt t operation_key now none = refl
bound-receipt t operation_key now (some r) = refl

bound-agrees :
    (t : Transfer) (operation_key : String) (now : ℕ) (a : Option Authorization)
    (r : Option ReceiptRow)
    → t.state ≡ authorised
    → audit_transfer t a r ≡ true
    → agrees funds_reserved true
        (decision_of a)
        (decided_facts a (bound_row t operation_key now))
        (receipt_agrees r (bound_row t operation_key now))
      ≡ true
unfolding audit_transfer
bound-agrees t operation_key now a r e h =
    let b = is_some t.treasury_operation_key in
    let d = decision_of a in
    let f = decided_facts a t in
    let n = receipt_agrees r t in
    (λ i.
      agrees funds_reserved true d (bound-facts t operation_key now a i)
        (bound-receipt t operation_key now r i))
    ∙ bind_agrees t.state b d f n (ap (λ state. agrees state b d f n) (sym e) ∙ h)

pub bind-keeps :
    (id operation_key : String) (now : ℕ) (s s' : Transfers) (u : Transfer)
    → bind_transfer_treasury_operation id operation_key now s ≡ ok (s', u)
    → (s ≡ s') ⊎ Touched s s'
unfolding bind_transfer_treasury_operation audit_stored
bind-keeps id operation_key now s s' u h =
    let (_, _, h1) = >>=-eq-ok (require (is_transfer_id id) invariant) _ h in
    let (_, _, h2) = >>=-eq-ok (require (is_operation_key operation_key) invariant) _ h1 in
    let (t, held, h3) = >>=-eq-ok (require_transfer id s) _ h2 in
    let there = required-found id s t held in
    let (e, found) = own_row id t s.transfers there in
    let t1 = bound_row t operation_key now in
    let base = record s { transfers = replace_row transfer_id id t1 s.transfers } in
    elim (bind-cases id operation_key now s s' t u h3) [
      | inl same ↦ inl same
      | inr (waiting, moved) ↦ inr (
          moved-Touched s base t t1 funds_reserved "treasury_operation_bound" none now s' u found
            refl (λ k. replaced_own id k t t1 s.transfers there e refl) moved (λ _ _. refl)
            (λ _ _. refl)
            (λ before.
              moved-audit t1 funds_reserved now _ _
              ∙ bound-agrees t operation_key now _ _ waiting before))
    ]

belongs-bound :
    (t : Transfer) (o : OperationView)
    → belongs t o ≡ true
    → is_some t.treasury_operation_key ≡ true
unfolding belongs
belongs-bound t o h = ground arith

no_receipt : (r : Option ReceiptRow) (t : Transfer) → receipt_agrees r t ≡ none → r ≡ none
unfolding receipt_agrees
no_receipt none t h = refl
no_receipt (some r) t h = cc

synced-facts :
    (a : Option Authorization) (t : Transfer) (o : OperationView) (now : ℕ)
    → decided_facts a (facts_synced t o now) ≡ decided_facts a t
unfolding decided_facts facts_synced facts_match
synced-facts none t o now = refl
synced-facts (some a) t o now = refl

synced-parts :
    (t : Transfer) (o : OperationView) (now : ℕ)
    → ((facts_synced t o now).id ≡ t.id)
      × ((facts_synced t o now).state ≡ t.state)
      × ((facts_synced t o now).treasury_operation_key ≡ t.treasury_operation_key)
unfolding facts_synced
synced-parts t o now = (refl, refl, refl)

sync-cases :
    (o : OperationView) (now : ℕ) (s' base : Transfers) (t1 u : Transfer)
    → (if same_transfer_state t1.state (transfer_state_for_treasury o.state)
        then ok (base, t1)
        else transition_transfer_internal t1
            (transfer_state_for_treasury o.state)
            (sync_reason o.state)
            none
            now
            base)
      ≡ ok (s', u)
    → ((same_transfer_state t1.state (transfer_state_for_treasury o.state) ≡ true) × (base ≡ s'))
      ⊎ (transition_transfer_internal t1
            (transfer_state_for_treasury o.state)
            (sync_reason o.state)
            none
            now
            base
          ≡ ok (s', u))
sync-cases o now s' base t1 u h = ground arith

-- The facts that a sync writes keep the agreement, since the Transfer has no receipt.
synced-agrees :
    (t : Transfer) (o : OperationView) (now : ℕ) (to : TransferState) (a : Option Authorization)
    (r : Option ReceiptRow)
    → is_some t.treasury_operation_key ≡ true
    → receipt_agrees r t ≡ none
    → agrees to true (decision_of a) (decided_facts a t) none ≡ true
    → agrees to
        (is_some (facts_synced t o now).treasury_operation_key)
        (decision_of a)
        (decided_facts a (facts_synced t o now))
        (receipt_agrees r (facts_synced t o now))
      ≡ true
synced-agrees t o now to a r bound unreceipted h =
    let (_, _, key) = synced-parts t o now in
    let still : receipt_agrees r (facts_synced t o now) ≡ none =
      ap (λ x. receipt_agrees x (facts_synced t o now)) (no_receipt r t unreceipted)
      ∙ unfold receipt_agrees in refl in
    (λ i.
      agrees to ((ap (λ k. is_some k) key ∙ bound) i) (decision_of a) (synced-facts a t o now i)
        (still i))
    ∙ h

sync-row-agrees :
    (t : Transfer) (o : OperationView) (now : ℕ) (a : Option Authorization) (r : Option ReceiptRow)
    → is_some t.treasury_operation_key ≡ true
    → audit_transfer t a r ≡ true
    → (t.state ≡ transfer_state_for_treasury o.state)
      ⊎ (assert_transfer_transition t.state (transfer_state_for_treasury o.state) ≡ ok tt)
    → agrees
        (transfer_state_for_treasury o.state)
        (is_some (facts_synced t o now).treasury_operation_key)
        (decision_of a)
        (decided_facts a (facts_synced t o now))
        (receipt_agrees r (facts_synced t o now))
      ≡ true
unfolding audit_transfer
sync-row-agrees t o now a r bound h move =
    let d = decision_of a in
    let f = decided_facts a t in
    let n = receipt_agrees r t in
    let h' : agrees t.state true d f n ≡ true = ap (λ b. agrees t.state b d f n) (sym bound) ∙ h in
    elim move [
      | inl same ↦
          let now_so : agrees (transfer_state_for_treasury o.state) true d f n ≡ true =
            ap (λ state. agrees state true d f n) (sym same) ∙ h' in
          let gone = sync_same_agrees t.state true d f n o.state now_so in
          synced-agrees t o now (transfer_state_for_treasury o.state) a r bound gone
            (ap (λ x. agrees (transfer_state_for_treasury o.state) true d f x) (sym gone) ∙ now_so)
      | inr allowed_move ↦
          let (gone, fits) = sync_agrees t.state true d f n o.state h' allowed_move in
          synced-agrees t o now (transfer_state_for_treasury o.state) a r bound gone fits
    ]

pub rank-injective : (a b : TransferState) → same_transfer_state a b ≡ true → a ≡ b
rank-injective a b h = ground arith

pub audit-as :
    (t : Transfer) (a : Option Authorization) (r : Option ReceiptRow)
    → audit_transfer t a r
      ≡ agrees t.state
          (is_some t.treasury_operation_key)
          (decision_of a)
          (decided_facts a t)
          (receipt_agrees r t)
unfolding audit_transfer
audit-as t a r = refl

-- A sync that finds the Transfer in its operation's state already.
stays-audited :
    (t : Transfer) (o : OperationView) (now : ℕ) (a : Option Authorization) (r : Option ReceiptRow)
    → is_some t.treasury_operation_key ≡ true
    → t.state ≡ transfer_state_for_treasury o.state
    → audit_transfer t a r ≡ true
    → audit_transfer (facts_synced t o now) a r ≡ true
stays-audited t o now a r bound there_now before =
    let t1 = facts_synced t o now in
    audit-as t1 a r
    ∙ ap
        (λ state.
          agrees state (is_some t1.treasury_operation_key) (decision_of a) (decided_facts a t1)
            (receipt_agrees r t1))
        ((synced-parts t o now).1 ∙ there_now)
    ∙ sync-row-agrees t o now a r bound before (inl there_now)

pub sync-Touched :
    (id : String) (o : OperationView) (now : ℕ) (s s' : Transfers) (u : Transfer)
    → sync_transfer_treasury_operation id o now s ≡ ok (s', u)
    → Touched s s'
unfolding sync_transfer_treasury_operation audit_stored
sync-Touched id o now s s' u h =
    let (_, _, h1) = >>=-eq-ok (require (is_transfer_id id) invariant) _ h in
    let (t, held, h2) = >>=-eq-ok (require_transfer id s) _ h1 in
    let (_, mine, free) = >>=-eq-ok (require (belongs t o) invariant) _ h2 in
    let (_, _, h3) =
      >>=-eq-ok (require (unused_elsewhere _ id _ s.transfers) sqlite_constraint) _ free in
    let there = required-found id s t held in
    let (e, found) = own_row id t s.transfers there in
    let t1 = facts_synced t o now in
    let (same_id, same_state, _) = synced-parts t o now in
    let bound = belongs-bound t o (required-true (belongs t o) mine) in
    let base = record s { transfers = replace_row transfer_id id t1 s.transfers } in
    elim (sync-cases o now s' base t1 u h3) [
      | inl (same, written) ↦
          let there_now : t.state ≡ transfer_state_for_treasury o.state =
            sym same_state ∙ rank-injective t1.state (transfer_state_for_treasury o.state) same in
          record {
            before = t;
            after = t1;
            found = found;
            written = λ k.
                ap (λ x. find_row transfer_id k x.transfers) (sym written)
                ∙ replaced_own id k t t1 s.transfers there e same_id;
            other_decisions =
                λ k _. ap (λ x. find_row authorization_id k x.authorizations) (sym written);
            other_receipts = λ k _. ap (λ x. find_row receipt_id k x.receipts) (sym written);
            audited = λ before.
                stored-as s' t1 t.id s.authorizations s.receipts same_id
                  (ap (λ x. x.authorizations) (sym written)) (ap (λ x. x.receipts) (sym written))
                ∙ stays-audited t o now _ _ bound there_now before;
          }
      | inr moved ↦
          let enters =
            (transition-cases t1 (transfer_state_for_treasury o.state) (sync_reason o.state) none
              now base s' u moved).0 in
          moved-Touched s base t t1 (transfer_state_for_treasury o.state) (sync_reason o.state) none
            now s' u found same_id (λ k. replaced_own id k t t1 s.transfers there e same_id) moved
            (λ _ _. refl) (λ _ _. refl)
            (λ before.
              moved-audit t1 (transfer_state_for_treasury o.state) now _ _
              ∙ sync-row-agrees t o now _ _ bound before (
                  inr (
                    ap
                      (λ state.
                        assert_transfer_transition state (transfer_state_for_treasury o.state))
                      (sym same_state)
                    ∙ enters)))
    ]
  where
    required-true : (b : Bool) {v : Unit {0}} → require b invariant ≡ ok v → b ≡ true
    required-true true k = refl
    required-true false k = cc
