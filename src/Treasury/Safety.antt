-- ===== src/Treasury/Safety.antt =====
-- The properties of direct Treasury Operations over any sequence of calls (src/purchase/journal.ts,
-- driven by src/treasury/operations.ts).
use native.Mathlib.Nat.{le_trans}
use sompi.Base.{
  ◌+◌, ◌≤◌, ◌≡◌, refl, ◌∙◌, ap, true, String, some, List, [], ◌∷◌, count_by, Result, ok, err, arith,
  Error, inl, inr, ◌⊎◌,
}
use sompi.Treasury.Types.{Operation, Journal, prepared}
use sompi.Treasury.Tables.{find_operation}
use sompi.Treasury.Intake.{unresolved}
use sompi.Treasury.Handlers.{unresolved_treasury_operation_count}
use sompi.Treasury.Moves.{is_cancelled_material, permits, is_priced, fee_within, amount_kept}
use sompi.Treasury.Sound.{
  Sound, Sound-refl, Follows, Follows-trans, launches, permits_of, permits_at,
}
use sompi.Treasury.Histories.{call-Sound}
use sompi.Treasury.Commands.{Command, call, committed, run}

-- Tables before the first direct operation.
abbrev pub IsFresh : Journal → Type 0
IsFresh j = (j.operations ≡ []) × (j.transitions ≡ [])

pub committed-Sound : (c : Command) (j : Journal) → Sound j (committed j (call c j))
committed-Sound c j = elim (outcome (call c j)) [
  | inl (j', e) ↦ rw e (call-Sound c j j' e)
  | inr (x, e) ↦ rw e (Sound-refl j)
]
  where
    outcome : (m : Result Journal) → ((j' : Journal) × (m ≡ ok j')) ⊎ ((x : Error) × (m ≡ err x))
    outcome (ok j') = inl (j', refl)
    outcome (err x) = inr (x, refl)

pub Sound-trans : (j k l : Journal) → Sound j k → Sound k l → Sound j l
Sound-trans j k l p q = record {
  budget = λ key. le_trans (q.budget key) (p.budget key);
  grows = λ key. le_trans (p.grows key) (q.grows key);
  follows = λ key r h.
      let (s, hs, ps) = p.follows key r h in
      let (t, ht, qt) = q.follows key s hs in (t, ht, Follows-trans r s t ps qt);
  prices = λ a. q.prices (p.prices a);
  chained = λ key c. q.chained key (p.chained key c);
  exclusive = λ h. q.exclusive (p.exclusive h);
}

pub run-Sound : (cs : List Command) (j : Journal) → Sound j (run cs j)
unfolding run
run-Sound [] j = Sound-refl j
run-Sound (c ∷ cs) j =
    let k = committed j (call c j) in
    Sound-trans j k (run cs k) (committed-Sound c j) (run-Sound cs k)

pub fresh_budget :
    (key : String) (j : Journal) → IsFresh j → launches key j + permits_at key j.operations ≤ 1
unfolding launches find_operation
fresh_budget key j (no_rows, no_log) = rw (no_rows, no_log) (omega arith)

-- In every history of calls, made by any drivers in any order from tables without operations, the log
-- records at most one hand-over of an operation's signed bytes to its adapter.
pub run-launches_once :
    (cs : List Command) (j : Journal) (key : String) → IsFresh j → launches key (run cs j) ≤ 1
run-launches_once cs j key fresh =
    omega (arith, (run-Sound cs j).budget key, fresh_budget key j fresh)

-- An operation that the Journal holds is held after any further calls, with the same immutable
-- request and policy, in a state that is no earlier, and in the same state if it was terminal; once it has
-- left `intent` its transaction, fee, amount and material are those that were prepared.
pub run-Follows :
    (cs : List Command) (j : Journal) (key : String) (r : Operation)
    → find_operation key j.operations ≡ some r
    → (r' : Operation) × (find_operation key (run cs j).operations ≡ some r') × Follows r r'
run-Follows cs j key r h = (run-Sound cs j).follows key r h

-- From tables without operations, no history leaves more than one direct operation unresolved.
pub run-one_unresolved :
    (cs : List Command) (j : Journal)
    → IsFresh j
    → unresolved_treasury_operation_count (run cs j) ≤ 1
unfolding unresolved_treasury_operation_count
run-one_unresolved cs j (no_rows, no_log) =
    (run-Sound cs j).exclusive (rw (ap (count_by unresolved) no_rows) (omega arith))

-- From tables without operations, every operation in every history has a prepared fee within the fee
-- ceiling of its intent and, where the intent asks for an exact amount, resolves to that amount.
pub run-priced :
    (cs : List Command) (j : Journal) (key : String) (r : Operation)
    → IsFresh j
    → find_operation key (run cs j).operations ≡ some r
    → (fee_within r.fee r.fee_ceiling ≡ true)
      × (amount_kept r.requested_amount r.resolved_amount ≡ true)
run-priced cs j key r (no_rows, no_log) h =
    ground (arith, (run-Sound cs j).prices (λ k s e. none_held k s (rw no_rows at e)) key r h)
  where
    none_held : (k : String) (s : Operation) → find_operation k [] ≡ some s → is_priced s ≡ true
    none_held k s e = unfold find_operation in cc

prepared_permits : (r : Operation) → r.state ≡ prepared → permits r ≡ 1
prepared_permits r p = ground arith

cancelled_parts :
    (r : Operation)
    → is_cancelled_material r ≡ true
    → (r.state ≡ prepared) × (r.cancellation_requested ≡ true)
cancelled_parts r h = ground arith

-- Signed material that is cancelled before its submission is planned is never handed to an adapter: after
-- any calls the operation is still prepared, cancelled and not terminal.
pub run-cancelled :
    (cs : List Command) (j : Journal) (key : String) (r : Operation)
    → find_operation key j.operations ≡ some r
    → r.state ≡ prepared
    → r.cancellation_requested ≡ true
    → (r' : Operation) × (find_operation key (run cs j).operations ≡ some r')
      × (r'.state ≡ prepared)
      × (r'.cancellation_requested ≡ true)
      × (launches key (run cs j) ≤ launches key j)
run-cancelled cs j key r found p cancelled =
    let (r', found', f) = run-Follows cs j key r found in
    let (p', cancelled') = cancelled_parts r' (f.cancelled (ground arith)) in
    let spent : permits_at key j.operations ≡ 1 = ap permits_of found ∙ prepared_permits r p in
    let left : permits_at key (run cs j).operations ≡ 1 =
      ap permits_of found' ∙ prepared_permits r' p' in
    (r', found', p', cancelled', omega (arith, (run-Sound cs j).budget key, spent, left))
