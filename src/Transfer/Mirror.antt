-- ===== src/Transfer/Mirror.antt =====
-- A Transfer and its Treasury Operation: syncTransferTreasuryOperation of src/purchase/journal.ts over the calls
-- on direct operations.
use mathlib.Core.Path.{subst}
use sompi.Base.{
  is_transfer_id, or_else, sqlite_constraint, sym, ◌∙◌, eq_iff, Bool-cases, inl, inr, ℕ, ◌≡◌, refl,
  true, false, String, none, some, List, find_row, Error, invariant, require, ap, if◌then◌else◌,
  >>=-eq-ok, Result, ok, err, ◌⊎◌, arith,
}
use sompi.Treasury.Types.{Operation, Journal}
use sompi.Treasury.Tables.{find_operation}
use sompi.Treasury.Commands.{Command, run}
use sompi.Treasury.Sound.{Follows, find-operation_key}
use sompi.Treasury.Safety.{run-Follows}
use sompi.Transfer.Lifecycle.{
  TransferState, assert_transfer_transition, transfer_state_for_treasury, same_transfer_state,
}
use sompi.Transfer.Rows.{
  Transfer, Transfers, OperationView, view, transfer_id, belongs, sync_transfer_treasury_operation,
  unused_elsewhere, transition_transfer_internal, moved_transfer, facts_synced, require_transfer,
  sync_reason,
}

rank-injective : (a b : TransferState) → same_transfer_state a b ≡ true → a ≡ b
rank-injective a b h = ground arith

-- An operation that has moved on is one whose state the Transfer may follow.
mirror_allowed :
    (r r' : Operation)
    → Follows r r'
    → same_transfer_state
        (transfer_state_for_treasury r.state)
        (transfer_state_for_treasury r'.state)
      ≡ false
    → assert_transfer_transition
        (transfer_state_for_treasury r.state)
        (transfer_state_for_treasury r'.state)
      ≡ ok tt
unfolding assert_transfer_transition transfer_state_for_treasury
mirror_allowed r r' f h = ground (arith, f.no_return, f.terminal_stays, f.observed_stays)

belongs-Follows :
    (t : Transfer) (r r' : Operation)
    → Follows r r'
    → r'.operation_key ≡ r.operation_key
    → belongs t (view r) ≡ true
    → belongs t (view r') ≡ true
unfolding belongs
belongs-Follows t r r' f same h =
    rw (same, f.same_kind, f.same_destination, f.same_requested, f.same_ceiling) h

same_row_key :
    (key : String) (r r' : Operation) (rs rs' : List Operation)
    → find_operation key rs ≡ some r
    → find_operation key rs' ≡ some r'
    → r'.operation_key ≡ r.operation_key
same_row_key key r r' rs rs' h h' =
    (eq_iff r'.operation_key key).0 (find-operation_key key rs' r' h')
    ∙ sym ((eq_iff r.operation_key key).0 (find-operation_key key rs r h))

pub result_cases :
    {A : Type 0} (m : Result A) → ((x : A) × (m ≡ ok x)) ⊎ ((e : Error) × (m ≡ err e))
result_cases (ok x) = inl (x, refl)
result_cases (err e) = inr (e, refl)

transition-state :
    (t : Transfer) (to : TransferState) (reason : String) (now : ℕ) (s s' : Transfers)
    (t' : Transfer)
    → transition_transfer_internal t to reason none now s ≡ ok (s', t')
    → t'.state ≡ to
unfolding transition_transfer_internal moved_transfer
transition-state t to reason now s s' t' h = ground arith

finish-state :
    (t : Transfer) (to : TransferState) (reason : String) (now : ℕ) (s s' : Transfers)
    (t' : Transfer)
    → (if same_transfer_state t.state to
        then ok (s, t)
        else transition_transfer_internal t to reason none now s)
      ≡ ok (s', t')
    → t'.state ≡ to
finish-state t to reason now s s' t' h = elim (Bool-cases (same_transfer_state t.state to)) [
  | inl same ↦
      let kept_row : t ≡ t' = ground arith in
      ap (λ x. x.state) (sym kept_row) ∙ rank-injective t.state to same
  | inr other ↦ transition-state t to reason now s s' t' (rw other at h)
]

sync-state :
    (id : String) (o : OperationView) (now : ℕ) (s s' : Transfers) (t' : Transfer)
    → sync_transfer_treasury_operation id o now s ≡ ok (s', t')
    → t'.state ≡ transfer_state_for_treasury o.state
unfolding sync_transfer_treasury_operation
sync-state id o now s s' t' h =
    let (_, _, named) = >>=-eq-ok (require (is_transfer_id id) invariant) _ h in
    let (t, _, rest) = >>=-eq-ok (require_transfer id s) _ named in
    let (_, _, free) = >>=-eq-ok (require (belongs t o) invariant) _ rest in
    let (_, _, body) =
      >>=-eq-ok (require (unused_elsewhere _ id _ s.transfers) sqlite_constraint) _ free in
    finish-state (facts_synced t o now) (transfer_state_for_treasury o.state) (sync_reason o.state)
      now _ s' t' body

-- A sync whose Transfer exists and whose target may be entered does not throw.
sync-ok :
    (id : String) (t : Transfer) (o : OperationView) (now : ℕ) (s : Transfers) (e : Error)
    → is_transfer_id id ≡ true
    → find_row transfer_id id s.transfers ≡ some t
    → belongs t o ≡ true
    → unused_elsewhere
        (λ u. u.transaction_id)
        id
        (or_else t.transaction_id o.transaction_id)
        s.transfers
      ≡ true
    → (same_transfer_state t.state (transfer_state_for_treasury o.state) ≡ false
        → assert_transfer_transition t.state (transfer_state_for_treasury o.state) ≡ ok tt)
    → sync_transfer_treasury_operation id o now s ≡ err e
    → ⊥
unfolding sync_transfer_treasury_operation transition_transfer_internal facts_synced
    require_transfer
sync-ok id t o now s e named found mine unused enter h = ground arith

-- A stored Transfer with a well-formed ID that mirrors its Treasury Operation can be synced with it after any further calls on
-- direct operations, if no other Transfer holds the transaction that the sync leaves in its row: the sync does not throw, and
-- the Transfer mirrors the operation again.
pub sync-mirrors :
    (cs : List Command) (j : Journal) (key : String) (r : Operation) (id : String) (t : Transfer)
    (now : ℕ) (s : Transfers)
    → find_operation key j.operations ≡ some r
    → is_transfer_id id ≡ true
    → find_row transfer_id id s.transfers ≡ some t
    → belongs t (view r) ≡ true
    → t.state ≡ transfer_state_for_treasury r.state
    → ((r' : Operation)
        → find_operation key (run cs j).operations ≡ some r'
        → unused_elsewhere
            (λ u. u.transaction_id)
            id
            (or_else t.transaction_id r'.transaction_id)
            s.transfers
          ≡ true)
    → (r' : Operation) × (find_operation key (run cs j).operations ≡ some r')
      × (s' : Transfers) × (t' : Transfer) × (sync_transfer_treasury_operation id (view r') now s
          ≡ ok (s', t'))
      × (t'.state ≡ transfer_state_for_treasury r'.state)
sync-mirrors cs j key r id t now s held named found mine mirrors unused =
    let (r', held', f) = run-Follows cs j key r held in
    let same = same_row_key key r r' j.operations (run cs j).operations held held' in
    let enter =
      subst
        (λ x.
          same_transfer_state x (transfer_state_for_treasury r'.state) ≡ false
          → assert_transfer_transition x (transfer_state_for_treasury r'.state) ≡ ok tt)
        (sym mirrors) (mirror_allowed r r' f) in
    let mine' = belongs-Follows t r r' f same mine in
    elim (result_cases (sync_transfer_treasury_operation id (view r') now s)) [
      | inl ((s', t'), synced) ↦
          (r', held', s', t', synced, sync-state id (view r') now s s' t' synced)
      | inr (e, thrown) ↦
          absurd (sync-ok id t (view r') now s e named found mine' (unused r' held') enter thrown)
    ]
