-- ===== src/Transfer/Writes.antt =====
-- The tables of Transfers around one write of src/purchase/journal.ts.
use sompi.Base.{
  ℕ, ◌≡◌, refl, sym, ◌∙◌, ap, inl, inr, true, false, String, Option, some, List, str_eq, Bool-cases,
  if◌then◌else◌, find_row, replace_row, find-replace, find-row_key, eq_iff, ok, arith,
}
use mathlib.Core.Option.{some-injective}
use sompi.Transfer.Lifecycle.{TransferState, assert_transfer_transition}
use sompi.Transfer.Rows.{
  Transfer, Authorization, ReceiptRow, Transfers, transfer_id, authorization_id, receipt_id,
  moved_transfer, require_transfer, transition_transfer_internal,
}
use sompi.Transfer.Audit.{audit_stored, audit_transfer}

-- Every stored Transfer passes its audit.
abbrev pub AllAudited : Transfers → Type 0
AllAudited s =
    (id : String) (t : Transfer)
    → find_row transfer_id id s.transfers ≡ some t
    → audit_stored s t ≡ true

-- One row is written anew, with what is stored beside it.
pub record Touched (s s' : Transfers) : Type 0 where
  pub before : Transfer
  pub after : Transfer
  pub found : find_row transfer_id before.id s.transfers ≡ some before
  pub written :
      (k : String)
      → find_row transfer_id k s'.transfers
        ≡ (if str_eq before.id k then some after else find_row transfer_id k s.transfers)
  pub other_decisions :
      (k : String)
      → str_eq before.id k ≡ false
      → find_row authorization_id k s'.authorizations ≡ find_row authorization_id k s.authorizations
  pub other_receipts :
      (k : String)
      → str_eq before.id k ≡ false
      → find_row receipt_id k s'.receipts ≡ find_row receipt_id k s.receipts
  pub audited : audit_stored s before ≡ true → audit_stored s' after ≡ true

pub own_row :
    (id : String) (t : Transfer) (rows : List Transfer)
    → find_row transfer_id id rows ≡ some t
    → (id ≡ t.id) × (find_row transfer_id t.id rows ≡ some t)
own_row id t rows h =
    let e : id ≡ t.id = sym ((eq_iff t.id id).0 (find-row_key transfer_id id t rows h)) in
    (e, ap (λ k. find_row transfer_id k rows) (sym e) ∙ h)

same_beside :
    (s s' : Transfers) (u : Transfer)
    → find_row authorization_id u.id s'.authorizations
      ≡ find_row authorization_id u.id s.authorizations
    → find_row receipt_id u.id s'.receipts ≡ find_row receipt_id u.id s.receipts
    → audit_stored s u ≡ true
    → audit_stored s' u ≡ true
unfolding audit_stored
same_beside s s' u a r h = rw (a, r) h

pub Touched-AllAudited : (s s' : Transfers) → Touched s s' → AllAudited s → AllAudited s'
Touched-AllAudited s s' w all k u h = elim (Bool-cases (str_eq w.before.id k)) [
  | inl same ↦
      let e : some w.after ≡ some u = sym (w.written k ∙ rw same refl) ∙ h in
      rw (← some-injective w.after u e) (w.audited (all w.before.id w.before w.found))
  | inr other ↦
      let there : find_row transfer_id k s.transfers ≡ some u =
        sym (w.written k ∙ rw other refl) ∙ h in
      let e = (own_row k u s.transfers there).0 in
      let apart : str_eq w.before.id u.id ≡ false = rw (← e) other in
      same_beside s s' u (w.other_decisions u.id apart) (w.other_receipts u.id apart)
        (all k u there)
]

pub stored-as :
    (s : Transfers) (u : Transfer) (k : String) (decisions : List Authorization)
    (rs : List ReceiptRow)
    → u.id ≡ k
    → s.authorizations ≡ decisions
    → s.receipts ≡ rs
    → audit_stored s u
      ≡ audit_transfer u (find_row authorization_id k decisions) (find_row receipt_id k rs)
unfolding audit_stored
stored-as s u k decisions rs e a r =
    λ i. audit_transfer u (find_row authorization_id (e i) (a i)) (find_row receipt_id (e i) (r i))

pub required-found :
    (id : String) (s : Transfers) (t : Transfer)
    → require_transfer id s ≡ ok t
    → find_row transfer_id id s.transfers ≡ some t
unfolding require_transfer
required-found id s t h = ground arith

-- What a transition leaves.
pub transition-cases :
    (t : Transfer) (to : TransferState) (reason : String) (detail : Option String) (now : ℕ)
    (base s' : Transfers) (u : Transfer)
    → transition_transfer_internal t to reason detail now base ≡ ok (s', u)
    → (assert_transfer_transition t.state to ≡ ok tt)
      × (s'.transfers ≡ replace_row transfer_id t.id (moved_transfer t to now) base.transfers)
      × (s'.authorizations ≡ base.authorizations)
      × (s'.receipts ≡ base.receipts)
unfolding transition_transfer_internal
transition-cases t to reason detail now base s' u h = ground arith

moved-id : (t : Transfer) (to : TransferState) (now : ℕ) → (moved_transfer t to now).id ≡ t.id
unfolding moved_transfer
moved-id t to now = refl

-- A transition of the row `t` that first became `mid`, on tables whose decisions and receipts are those of `base`.
module _ (s base : Transfers) (t mid : Transfer) (to : TransferState) (reason : String)
    (detail : Option String) (now : ℕ) (s' : Transfers) (u : Transfer)
    (found : find_row transfer_id t.id s.transfers ≡ some t) (kept_id : mid.id ≡ t.id)
    (replaced : (k : String)
      → find_row transfer_id k base.transfers
        ≡ (if str_eq t.id k then some mid else find_row transfer_id k s.transfers))
    (moves : transition_transfer_internal mid to reason detail now base ≡ ok (s', u)) where
  pub moved-found :
      (k : String)
      → find_row transfer_id k s'.transfers ≡ (
          if str_eq t.id k
          then some (moved_transfer mid to now)
          else find_row transfer_id k s.transfers)
  moved-found k =
      let (_, rows, _, _) = transition-cases mid to reason detail now base s' u moves in
      let mid_found : find_row transfer_id mid.id base.transfers ≡ some mid =
        rw kept_id (replaced t.id ∙ ground (arith, eq_iff t.id t.id)) in
      ap (find_row transfer_id k) rows
      ∙ find-replace transfer_id mid.id k mid (moved_transfer mid to now) base.transfers mid_found
          (moved-id mid to now)
      ∙ rw (kept_id, replaced k) (ground arith)

  pub moved-Touched :
      ((k : String)
        → str_eq t.id k ≡ false
        → find_row authorization_id k base.authorizations
          ≡ find_row authorization_id k s.authorizations)
      → ((k : String)
          → str_eq t.id k ≡ false
          → find_row receipt_id k base.receipts ≡ find_row receipt_id k s.receipts)
      → (audit_stored s t ≡ true
          → audit_transfer
              (moved_transfer mid to now)
              (find_row authorization_id t.id base.authorizations)
              (find_row receipt_id t.id base.receipts)
            ≡ true)
      → Touched s s'
  moved-Touched decisions receipts audited =
      let (_, _, a, r) = transition-cases mid to reason detail now base s' u moves in
      record {
        before = t;
        after = moved_transfer mid to now;
        found = found;
        written = moved-found;
        other_decisions = λ k apart. ap (find_row authorization_id k) a ∙ decisions k apart;
        other_receipts = λ k apart. ap (find_row receipt_id k) r ∙ receipts k apart;
        audited = λ h.
            stored-as s' (moved_transfer mid to now) t.id base.authorizations base.receipts
              (moved-id mid to now ∙ kept_id) a r
            ∙ audited h;
      }
