-- ===== src/Transfer/Approval.antt =====
-- The audit of the next start over histories of calls on the Journal's Transfers (src/purchase/journal.ts).
use mathlib.Core.Option.{some-injective}
use sompi.Base.{
  ℕ, ◌≡◌, refl, sym, ◌∙◌, ap, ◌⊎◌, inl, inr, true, Bool-cases, String, none, some, List, [], ◌∷◌,
  str_eq, if◌then◌else◌, find_row, is_transfer_id, Result, ok, err, invariant, require, >>=-eq-ok,
  arith,
}
use sompi.Treasury.Types.{PolicySnapshot}
use sompi.Transfer.Lifecycle.{awaiting_authority, receipted, same_transfer_state}
use sompi.Transfer.Rows.{
  Transfer, TransferFacts, TransferReceipt, Transfers, transfer_id, authorization_id, receipt_id,
  require_transfer,
}
use sompi.Transfer.Intake.{
  TransferJournalIntent, Manifest, new_transfer, claim_new_transfer, claim_transfer_intent,
}
use sompi.Transfer.Decisions.{
  Encoding, TransferAuthorityDecision, record_transfer_authorization, record_transfer_receipt,
}
use sompi.Transfer.Audit.{agrees, decided_facts, receipt_agrees, audit_transfer, audit_stored}
use sompi.Transfer.Writes.{
  AllAudited, Touched, own_row, Touched-AllAudited, required-found, stored-as,
}
use sompi.Transfer.History.{request-Touched, give_up-Touched, recoverable-keeps}
use sompi.Transfer.Settling.{rank-injective, bind-keeps, sync-Touched}
use sompi.Transfer.Calls.{
  TransferCall, claim, request_authority, give_up, recoverable, decide, bind, sync, receipt, tables,
  committed, call, run,
}
use sompi.Transfer.Deciding.{decide-Touched, receipt-Touched}
use sompi.Base.{◌&&◌}
use sompi.Transfer.Decisions.{validate_transfer_authority_decision}
use sompi.Transfer.Intake.{validate_transfer_intent}

-- The audit of every Transfer, and no decision or receipt without a Transfer.
pub record Consistent (s : Transfers) : Type 0 where
  pub audited : AllAudited s
  pub owned :
      (k : String)
      → find_row transfer_id k s.transfers ≡ none
      → (find_row authorization_id k s.authorizations ≡ none)
        × (find_row receipt_id k s.receipts ≡ none)

Touched-Consistent : (s s' : Transfers) → Touched s s' → Consistent s → Consistent s'
Touched-Consistent s s' w c = record {
  audited = Touched-AllAudited s s' w c.audited;
  owned = λ k absent. elim (Bool-cases (str_eq w.before.id k)) [
    | inl same ↦ absurd (stored k same absent)
    | inr other ↦
        let gone : find_row transfer_id k s.transfers ≡ none =
          sym (w.written k ∙ rw other refl) ∙ absent in
        let (a, r) = c.owned k gone in (w.other_decisions k other ∙ a, w.other_receipts k other ∙ r)
  ];
}
  where
    stored :
        (k : String) → str_eq w.before.id k ≡ true → find_row transfer_id k s'.transfers ≡ none → ⊥
    stored k same absent = cc (w.written k, same, absent)

either-Consistent : (s s' : Transfers) → (s ≡ s') ⊎ Touched s s' → Consistent s → Consistent s'
either-Consistent s s' (inl same) c = rw (← same) c
either-Consistent s s' (inr w) c = Touched-Consistent s s' w c

module _ (E : Encoding) where
  decide-either :
      (id : String) (facts : TransferFacts) (d : TransferAuthorityDecision) (now : ℕ)
      (s s' : Transfers)
      → record_transfer_authorization E id facts d now s ≡ ok s'
      → (s ≡ s') ⊎ Touched s s'
  unfolding record_transfer_authorization
  decide-either id facts d now s s' h =
      let (_, _, h1) = >>=-eq-ok (require (is_transfer_id id) invariant) _ h in
      let (_, _, h2) =
        >>=-eq-ok (require (str_eq facts.profile "sompi.transfer.1") invariant) _ h1 in
      let (_, _, h3) =
        >>=-eq-ok
          (require
            (str_eq facts.transfer_id id && str_eq d.facts_digest (E.sha256 (E.facts_json facts)))
            invariant)
          _ h2 in
      let (_, _, h4) = >>=-eq-ok (validate_transfer_authority_decision d) _ h3 in
      let (_, _, h5) =
        >>=-eq-ok (require (str_eq (E.sha256 d.evidence) d.evidence_digest) invariant) _ h4 in
      let (t, held, h6) = >>=-eq-ok (require_transfer id s) _ h5 in
      let found = (own_row id t s.transfers (required-found id s t held)).1 in
      elim (Bool-cases (same_transfer_state t.state awaiting_authority)) [
        | inl waiting ↦ inr (
            decide-Touched E t facts d now s s' found
              (rank-injective t.state awaiting_authority waiting) (rw waiting at h6))
        | inr decided ↦ inl (ground (arith, rw decided at h6))
      ]

  receipt-either :
      (id : String) (r : TransferReceipt) (now : ℕ) (s s' : Transfers)
      → record_transfer_receipt E id r now s ≡ ok s'
      → (s ≡ s') ⊎ Touched s s'
  unfolding record_transfer_receipt
  receipt-either id r now s s' h =
      let (_, _, h1) = >>=-eq-ok (require (is_transfer_id id) invariant) _ h in
      let (t, held, h2) = >>=-eq-ok (require_transfer id s) _ h1 in
      let there = required-found id s t held in
      elim (Bool-cases (same_transfer_state t.state receipted)) [
        | inl already ↦ inl (ground (arith, rw already at h2))
        | inr open_state ↦ inr (
            receipt-Touched E t r now s s' (own_row id t s.transfers there).1 (rw open_state at h2))
      ]

claim-cases :
    (input : TransferJournalIntent) (policies : List PolicySnapshot) (manifest : Manifest) (now : ℕ)
    (s s' : Transfers)
    → claim_transfer_intent input policies manifest now s ≡ ok s'
    → (s ≡ s') ⊎ (claim_new_transfer input policies manifest now s ≡ ok s')
unfolding claim_transfer_intent
claim-cases input policies manifest now s s' h =
    let (_, _, h1) = >>=-eq-ok (validate_transfer_intent input) _ h in ground (arith, h1)

claim_new-cases :
    (input : TransferJournalIntent) (policies : List PolicySnapshot) (manifest : Manifest) (now : ℕ)
    (s s' : Transfers)
    → claim_new_transfer input policies manifest now s ≡ ok s'
    → (find_row transfer_id input.id s.transfers ≡ none)
      × (s'.transfers ≡ new_transfer input now ∷ s.transfers)
      × (s'.authorizations ≡ s.authorizations)
      × (s'.receipts ≡ s.receipts)
unfolding claim_new_transfer
claim_new-cases input policies manifest now s s' h = ground arith

new-audited :
    (input : TransferJournalIntent) (now : ℕ)
    → audit_transfer (new_transfer input now) none none ≡ true
unfolding audit_transfer agrees decided_facts receipt_agrees new_transfer
new-audited input now = refl

new-id : (input : TransferJournalIntent) (now : ℕ) → (new_transfer input now).id ≡ input.id
unfolding new_transfer
new-id input now = refl

module _ (input : TransferJournalIntent) (now : ℕ) (s s' : Transfers)
    (absent : find_row transfer_id input.id s.transfers ≡ none)
    (rows : s'.transfers ≡ new_transfer input now ∷ s.transfers)
    (decisions : s'.authorizations ≡ s.authorizations) (receipts : s'.receipts ≡ s.receipts)
    (c : Consistent s) where
  inserted-found :
      (k : String)
      → find_row transfer_id k s'.transfers ≡ (
          if str_eq input.id k
          then some (new_transfer input now)
          else find_row transfer_id k s.transfers)
  unfolding find_row new_transfer
  inserted-found k = ap (find_row transfer_id k) rows

  inserted-audited : AllAudited s'
  inserted-audited k t h = elim (Bool-cases (str_eq input.id k)) [
    | inl same ↦
        let e : some (new_transfer input now) ≡ some t =
          sym (inserted-found k ∙ rw same refl) ∙ h in
        let (a, r) = c.owned input.id absent in
        ap (audit_stored s') (sym (some-injective (new_transfer input now) t e))
        ∙ stored-as s' (new_transfer input now) input.id s.authorizations s.receipts
            (new-id input now) decisions receipts
        ∙ (λ i. audit_transfer (new_transfer input now) (a i) (r i))
        ∙ new-audited input now
    | inr other ↦
        let there : find_row transfer_id k s.transfers ≡ some t =
          sym (inserted-found k ∙ rw other refl) ∙ h in
        stored-as s' t t.id s.authorizations s.receipts refl decisions receipts
        ∙ sym (stored-as s t t.id s.authorizations s.receipts refl refl refl)
        ∙ c.audited k t there
  ]

  inserted-Consistent : Consistent s'
  inserted-Consistent = record {
    audited = inserted-audited;
    owned = λ k gone. elim (Bool-cases (str_eq input.id k)) [
      | inl same ↦ absurd (stored k same gone)
      | inr other ↦
          let (a, r) = c.owned k (sym (inserted-found k ∙ rw other refl) ∙ gone) in
          (ap (find_row authorization_id k) decisions ∙ a, ap (find_row receipt_id k) receipts ∙ r)
    ];
  }
    where
      stored :
          (k : String) → str_eq input.id k ≡ true → find_row transfer_id k s'.transfers ≡ none → ⊥
      stored k same gone = cc (inserted-found k, same, gone)

tables-cases :
    (m : Result (Transfers × Transfer)) (s' : Transfers)
    → tables m ≡ ok s'
    → (u : Transfer) × (m ≡ ok (s', u))
tables-cases (ok (s, u)) s' h = (u, ground arith)
tables-cases (err e) s' h = cc

module _ (E : Encoding) where
  call-Consistent :
      (c : TransferCall) (s s' : Transfers) → call E c s ≡ ok s' → Consistent s → Consistent s'
  unfolding call
  call-Consistent (claim input policies manifest now) s s' h ok_before =
      elim (claim-cases input policies manifest now s s' h) [
        | inl same ↦ rw (← same) ok_before
        | inr fresh ↦
            let (absent, rows, decisions, receipts) =
              claim_new-cases input policies manifest now s s' fresh in
            inserted-Consistent input now s s' absent rows decisions receipts ok_before
      ]
  call-Consistent (request_authority id now) s s' h ok_before =
      let (u, done) = tables-cases _ s' h in
      Touched-Consistent s s' (request-Touched id now s s' u done) ok_before
  call-Consistent (give_up id reason now) s s' h ok_before =
      let (u, done) = tables-cases _ s' h in
      Touched-Consistent s s' (give_up-Touched id reason now s s' u done) ok_before
  call-Consistent (recoverable id reason now) s s' h ok_before =
      let (u, done) = tables-cases _ s' h in
      either-Consistent s s' (recoverable-keeps id reason now s s' u done) ok_before
  call-Consistent (decide id facts d now) s s' h ok_before =
      either-Consistent s s' (decide-either E id facts d now s s' h) ok_before
  call-Consistent (bind id operation_key now) s s' h ok_before =
      let (u, done) = tables-cases _ s' h in
      either-Consistent s s' (bind-keeps id operation_key now s s' u done) ok_before
  call-Consistent (sync id operation now) s s' h ok_before =
      let (u, done) = tables-cases _ s' h in
      Touched-Consistent s s' (sync-Touched id operation now s s' u done) ok_before
  call-Consistent (receipt id r now) s s' h ok_before =
      either-Consistent s s' (receipt-either E id r now s s' h) ok_before

  committed-Consistent :
      (s : Transfers) (m : Result Transfers)
      → ((s' : Transfers) → m ≡ ok s' → Consistent s')
      → Consistent s
      → Consistent (committed s m)
  committed-Consistent s (ok s') step ok_before = step s' refl
  committed-Consistent s (err e) step ok_before = ok_before

  pub run-Consistent :
      (cs : List TransferCall) (s : Transfers) → Consistent s → Consistent (run E cs s)
  unfolding run
  run-Consistent [] s ok_before = ok_before
  run-Consistent (c ∷ cs) s ok_before =
      run-Consistent cs (committed s (call E c s))
        (committed-Consistent s (call E c s) (λ s' h. call-Consistent c s s' h ok_before) ok_before)
