-- ===== src/Treasury/Calls.antt =====
-- Every call of src/purchase/journal.ts on direct Treasury Operations is sound for the tables.
use mathlib.Core.Option.{some-injective}
use sompi.Base.{
  ℕ, ◌+◌, ◌≤◌, ◌≡◌, refl, sym, ◌∙◌, ap, inl, inr, true, false, String, Option, none, some, List, [],
  ◌∷◌, ◌++◌, str_eq, if◌then◌else◌, count_by, any_by, sum_by-append, Bool-cases, Option-cases,
  eq_iff, Result, ok, arith,
}
use sompi.Treasury.Types.{intent, Operation, OperationIntent, Journal}
use sompi.Treasury.Capacity.{expire_reservations}
use sompi.Treasury.Rows.{Outcome, kept, moved}
use sompi.Treasury.Tables.{find_operation, write_outcome, on_operation, transition_row}
use sompi.Treasury.Intake.{
  unresolved, insert_allowed, insert_operation, new_operation, claim_new_intent,
  claim_treasury_operation_intent,
}
use sompi.Treasury.Moves.{is_priced, Move, launch}
use sompi.Treasury.Audit.{history_of}
use sompi.Treasury.Logs.{Chained, chain, state_of, chain-append, history-append, append_nothing}
use sompi.Treasury.Sound.{
  Sound, Sound-refl, AllPriced, Follows, Follows-refl, write-Sound, launches, launch_of, permits_of,
  permits_at,
}

-- A row function all of whose writes are moves.
abbrev pub Moves : (Operation → Result Outcome) → Type 0
Moves f = (r r' : Operation) (why : Option String) → f r ≡ ok (moved r' why) → Move r r' why

pub on_operation-cases :
    (key : String) (now : ℕ) (j base : Journal) (f : Operation → Result Outcome) {j' : Journal}
    {o : Outcome}
    → on_operation key now j base f ≡ ok (j', o)
    → (r : Operation) × (find_operation key j.operations ≡ some r)
      × (f r ≡ ok o)
      × (j' ≡ elim o [ kept ↦ j | moved r' why ↦ write_outcome key now r (moved r' why) base ])
unfolding on_operation
on_operation-cases key now j base f h = ground arith

pub on_operation-Sound :
    (key : String) (now : ℕ) (j base : Journal) (f : Operation → Result Outcome) (j' : Journal)
    (o : Outcome)
    → base.operations ≡ j.operations
    → base.transitions ≡ j.transitions
    → Moves f
    → on_operation key now j base f ≡ ok (j', o)
    → Sound j j'
on_operation-Sound key now j base f j' kept eo et mv h =
    let (r, found, fr, e) = on_operation-cases key now j base f h in rw e (Sound-refl j)
on_operation-Sound key now j base f j' (moved r' why) eo et mv h =
    let (r, found, fr, e) = on_operation-cases key now j base f h in
    rw e (write-Sound key now r r' why j base eo et found (mv r r' why fr))

pub transitions-expire :
    (now : ℕ) (j : Journal) → (expire_reservations now j).transitions ≡ j.transitions
unfolding expire_reservations
transitions-expire now j = refl

pub find-expire : (now : ℕ) (j : Journal) → (expire_reservations now j).operations ≡ j.operations
unfolding expire_reservations
find-expire now j = refl

no_unresolved : (rs : List Operation) → any_by unresolved rs ≡ false → count_by unresolved rs ≡ 0
no_unresolved [] h = refl
no_unresolved (r ∷ rs) h = ground (arith, no_unresolved rs)

new-priced : (input : OperationIntent) (now : ℕ) → is_priced (new_operation input now) ≡ true
unfolding new_operation
new-priced input now = ground arith

module _ (input : OperationIntent) (now : ℕ) (j : Journal) where
  inserted : Journal
  inserted = insert_operation input now (expire_reservations now j)

  find-inserted :
      (k : String)
      → find_operation k inserted.operations ≡ (
          if str_eq input.operation_key k
          then some (new_operation input now)
          else find_operation k j.operations)
  unfolding inserted insert_operation expire_reservations find_operation
  find-inserted k = refl

  launches-inserted : (k : String) → launches k inserted ≡ launches k j
  unfolding inserted insert_operation expire_reservations launches launch_of launch
  launches-inserted k =
      sum_by-append (launch_of k) j.transitions
        (transition_row input.operation_key none intent "intent_and_capacity_recorded" now ∷ [])
      ∙ ground arith

  unresolved-inserted :
      insert_allowed input j.operations ≡ true → count_by unresolved inserted.operations ≡ 1
  unfolding inserted insert_operation expire_reservations insert_allowed
  unresolved-inserted h = ground (arith, no_unresolved j.operations)

  module _ (absent : find_operation input.operation_key j.operations ≡ none) where
    absent_at :
        (k : String) → str_eq input.operation_key k ≡ true → find_operation k j.operations ≡ none
    absent_at k same = rw (← (eq_iff input.operation_key k).0 same) absent

    budget-inserted :
        (k : String)
        → launches k inserted + permits_at k inserted.operations
          ≤ launches k j + permits_at k j.operations
    unfolding new_operation
    budget-inserted k = elim (Bool-cases (str_eq input.operation_key k)) [
      | inl same ↦
          let after : find_operation k inserted.operations ≡ some (new_operation input now) =
            rw (find-inserted k, same) refl in
          rw (ap permits_of after, ap permits_of (absent_at k same), launches-inserted k)
            (omega arith)
      | inr other ↦ rw (ap permits_of (find-inserted k), launches-inserted k, other) (omega arith)
    ]

    Follows-inserted :
        (k : String) (r : Operation)
        → find_operation k j.operations ≡ some r
        → (r' : Operation) × (find_operation k inserted.operations ≡ some r') × Follows r r'
    Follows-inserted k r h = elim (Bool-cases (str_eq input.operation_key k)) [
      | inl same ↦ absurd (cc (absent_at k same))
      | inr other ↦ (r, rw (find-inserted k, other) h, Follows-refl r)
    ]

    prices-inserted : AllPriced j.operations → AllPriced inserted.operations
    prices-inserted p k r h = elim (Bool-cases (str_eq input.operation_key k)) [
      | inl same ↦
          let e : some (new_operation input now) ≡ some r =
            sym (find-inserted k ∙ rw same refl) ∙ h in
          rw (← some-injective (new_operation input now) r e) (new-priced input now)
      | inr other ↦ p k r (sym (find-inserted k ∙ rw other refl) ∙ h)
    ]

    log-inserted :
        (k : String)
        → history_of k inserted.transitions
          ≡ history_of k (
              j.transitions
              ++ transition_row input.operation_key none intent "intent_and_capacity_recorded" now
                ∷ [])
    unfolding inserted insert_operation expire_reservations
    log-inserted k = refl

    Chained-inserted : (k : String) → Chained k j → Chained k inserted
    unfolding new_operation
    Chained-inserted k c =
        let row =
          transition_row input.operation_key none intent "intent_and_capacity_recorded" now in
        let grown = ap (chain none) (log-inserted k ∙ history-append k j.transitions row) in
        elim (Bool-cases (str_eq input.operation_key k)) [
          | inl same ↦
              let started : chain none (history_of k j.transitions ++ row ∷ []) ≡ ok (some intent) =
                chain-append none (history_of k j.transitions) row none
                  (c ∙ ap (λ o. ok (state_of o)) (absent_at k same)) refl in
              let after : find_operation k inserted.operations ≡ some (new_operation input now) =
                rw (find-inserted k, same) refl in
              let kept_log : chain none (
                    history_of k j.transitions
                    ++ (if str_eq input.operation_key k then row ∷ [] else []))
                  ≡ ok (some intent) =
                rw same started in
              grown ∙ kept_log ∙ ap (λ o. ok (state_of o)) (sym after)
          | inr other ↦
              let after : find_operation k inserted.operations ≡ find_operation k j.operations =
                rw (find-inserted k, other) refl in
              let kept_log : chain none (
                    history_of k j.transitions
                    ++ (if str_eq input.operation_key k then row ∷ [] else []))
                  ≡ chain none (history_of k j.transitions) =
                rw (other, append_nothing (history_of k j.transitions)) refl in
              grown ∙ kept_log ∙ c ∙ ap (λ o. ok (state_of o)) (sym after)
        ]

    insert-Sound :
        insert_allowed input j.operations ≡ true
        → Sound j (insert_operation input now (expire_reservations now j))
    unfolding inserted
    insert-Sound allowed = record {
      budget = budget-inserted;
      grows = λ k. omega (arith, launches-inserted k);
      follows = Follows-inserted;
      prices = prices-inserted;
      chained = Chained-inserted;
      exclusive = λ _. rw (unresolved-inserted allowed) (omega arith);
    }

claim_new_intent-inserts :
    (input : OperationIntent) (now : ℕ) (j : Journal) (j' : Journal)
    → claim_new_intent input now j ≡ ok j'
    → (insert_allowed input j.operations ≡ true)
      × (j' ≡ insert_operation input now (expire_reservations now j))
unfolding claim_new_intent
claim_new_intent-inserts input now j j' h = ground arith

claim_absent :
    (input : OperationIntent) (now : ℕ) (j j' : Journal)
    → find_operation input.operation_key j.operations ≡ none
    → claim_treasury_operation_intent input now j ≡ ok j'
    → claim_new_intent input now j ≡ ok j'
unfolding claim_treasury_operation_intent
claim_absent input now j j' absent h = ground arith

claim_held :
    (input : OperationIntent) (now : ℕ) (j j' : Journal) (r : Operation)
    → find_operation input.operation_key j.operations ≡ some r
    → claim_treasury_operation_intent input now j ≡ ok j'
    → j ≡ j'
unfolding claim_treasury_operation_intent
claim_held input now j j' r held h = ground arith

pub claim_intent-Sound :
    (input : OperationIntent) (now : ℕ) (j j' : Journal)
    → claim_treasury_operation_intent input now j ≡ ok j'
    → Sound j j'
claim_intent-Sound input now j j' h =
    elim (Option-cases (find_operation input.operation_key j.operations)) [
      | inl absent ↦
          let (allowed, e) =
            claim_new_intent-inserts input now j j' (claim_absent input now j j' absent h) in
          rw e (insert-Sound input now j absent allowed)
      | inr (r, held) ↦ rw (← claim_held input now j j' r held h) (Sound-refl j)
    ]
