-- ===== src/Transfer/History.antt =====
-- The agreement of a stored Transfer with its authorization and its receipt, over each call on the Journal's
-- Transfers (src/purchase/journal.ts).
use mathlib.Core.Option.{some-injective}
use sompi.Base.{
  ℕ, ◌≡◌, refl, sym, ◌∙◌, ap, ◌⊎◌, inl, inr, true, Bool, Bool-cases, String, Option, none, some, [],
  ◌∷◌, str_eq, any_by, is_some, if◌then◌else◌, find_row, eq_iff, is_transfer_id, is_bounded_text,
  ok, invariant, require, >>=-eq-ok, arith,
}
use sompi.Transfer.Lifecycle.{
  TransferState, awaiting_authority, funds_reserved, prepared, submitted, settled,
  failed_recoverable, failed_terminal, same_transfer_state, assert_transfer_transition,
}
use sompi.Transfer.Rows.{
  Transfer, Authorization, ReceiptRow, Transfers, transfer_id, moved_transfer, require_transfer,
  transition_transfer_internal,
}
use sompi.Transfer.Intake.{is_detail, transition_transfer, mark_recoverable}
use sompi.Transfer.Decisions.{facts_match, receipt_matches}
use sompi.Transfer.Audit.{
  agrees, decision_of, decided_facts, receipt_agrees, audit_transfer, audit_stored,
}
use sompi.Transfer.Moves.{request_agrees, give_up_agrees, recoverable_agrees}
use sompi.Transfer.Writes.{Touched, own_row, required-found, transition-cases, moved-Touched}

pub moved-audit :
    (t : Transfer) (to : TransferState) (now : ℕ) (a : Option Authorization) (r : Option ReceiptRow)
    → audit_transfer (moved_transfer t to now) a r
      ≡ agrees to
          (is_some t.treasury_operation_key)
          (decision_of a)
          (decided_facts a t)
          (receipt_agrees r t)
unfolding audit_transfer moved_transfer decided_facts receipt_agrees facts_match receipt_matches
moved-audit t to now none none = refl
moved-audit t to now none (some r) = refl
moved-audit t to now (some a) none = refl
moved-audit t to now (some a) (some r) = refl

-- A target that a row in agreement may take as it is.
abbrev Keeps : TransferState → TransferState → Type 0
Keeps from to =
    (b : Bool) (d : Option Bool) (f : Bool) (r : Option Bool)
    → agrees from b d f r ≡ true
    → assert_transfer_transition from to ≡ ok tt
    → agrees to b d f r ≡ true

pub unwritten :
    (s : Transfers) (t : Transfer) (k : String)
    → find_row transfer_id t.id s.transfers ≡ some t
    → find_row transfer_id k s.transfers
      ≡ (if str_eq t.id k then some t else find_row transfer_id k s.transfers)
unwritten s t k found = elim (Bool-cases (str_eq t.id k)) [
  | inl same ↦
      rw same (ap (λ x. find_row transfer_id x s.transfers) (sym ((eq_iff t.id k).0 same)) ∙ found)
  | inr other ↦ rw other refl
]

plain_Touched :
    (s s' : Transfers) (t u : Transfer) (to : TransferState) (reason : String)
    (detail : Option String) (now : ℕ)
    → find_row transfer_id t.id s.transfers ≡ some t
    → Keeps t.state to
    → transition_transfer_internal t to reason detail now s ≡ ok (s', u)
    → Touched s s'
unfolding audit_stored audit_transfer
plain_Touched s s' t u to reason detail now found keeps h =
    moved-Touched s s t t to reason detail now s' u found refl (λ k. unwritten s t k found) h
      (λ _ _. refl) (λ _ _. refl)
      (λ ok_before.
        moved-audit t to now _ _
        ∙ keeps _ _ _ _ ok_before (transition-cases t to reason detail now s s' u h).0)

transition-Touched :
    (id : String) (to : TransferState) (reason : String) (detail : Option String) (now : ℕ)
    (s s' : Transfers) (u : Transfer)
    → ((t : Transfer) → find_row transfer_id id s.transfers ≡ some t → Keeps t.state to)
    → transition_transfer id to reason detail now s ≡ ok (s', u)
    → Touched s s'
unfolding transition_transfer
transition-Touched id to reason detail now s s' u keeps h =
    let (_, _, h1) = >>=-eq-ok (require (is_transfer_id id) invariant) _ h in
    let (_, _, h2) = >>=-eq-ok (require (is_bounded_text reason 120) invariant) _ h1 in
    let (_, _, h3) = >>=-eq-ok (require (is_detail detail) invariant) _ h2 in
    let (t, held, h4) = >>=-eq-ok (require_transfer id s) _ h3 in
    let there = required-found id s t held in
    plain_Touched s s' t u to reason detail now (own_row id t s.transfers there).1 (keeps t there)
      h4

pub request-Touched :
    (id : String) (now : ℕ) (s s' : Transfers) (u : Transfer)
    → transition_transfer id awaiting_authority "authority_requested" none now s ≡ ok (s', u)
    → Touched s s'
request-Touched id now s s' u h =
    transition-Touched id awaiting_authority _ none now s s' u
      (λ t _ b d f r. request_agrees t.state b d f r) h

pub give_up-Touched :
    (id reason : String) (now : ℕ) (s s' : Transfers) (u : Transfer)
    → transition_transfer id failed_terminal reason none now s ≡ ok (s', u)
    → Touched s s'
give_up-Touched id reason now s s' u h =
    transition-Touched id failed_terminal reason none now s s' u
      (λ t _ b d f r. give_up_agrees t.state b d f r) h

recoverable-cases :
    (id reason : String) (now : ℕ) (s s' : Transfers) (t u : Transfer)
    → (if any_by
          (same_transfer_state t.state)
          (funds_reserved ∷ prepared ∷ submitted ∷ settled ∷ [])
        then transition_transfer id failed_recoverable reason none now s
        else ok (s, t))
      ≡ ok (s', u)
    → (s ≡ s')
      ⊎ ((any_by
              (same_transfer_state t.state)
              (funds_reserved ∷ prepared ∷ submitted ∷ settled ∷ [])
            ≡ true)
          × (transition_transfer id failed_recoverable reason none now s ≡ ok (s', u)))
recoverable-cases id reason now s s' t u h = ground arith

pub recoverable-keeps :
    (id reason : String) (now : ℕ) (s s' : Transfers) (u : Transfer)
    → mark_recoverable id reason now s ≡ ok (s', u)
    → (s ≡ s') ⊎ Touched s s'
unfolding mark_recoverable
recoverable-keeps id reason now s s' u h =
    let (t, held, h1) = >>=-eq-ok (require_transfer id s) _ h in
    elim (recoverable-cases id reason now s s' t u h1) [
      | inl same ↦ inl same
      | inr (among, moved) ↦ inr (
          transition-Touched id failed_recoverable reason none now s s' u
            (λ v there b d f r before _.
              let e : v ≡ t = some-injective v t (sym there ∙ required-found id s t held) in
              recoverable_agrees v.state b d f r before (
                ap
                  (λ x.
                    any_by (same_transfer_state x.state)
                      (funds_reserved ∷ prepared ∷ submitted ∷ settled ∷ []))
                  e
                ∙ among))
            moved)
    ]
