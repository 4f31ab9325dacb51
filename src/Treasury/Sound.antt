-- ===== src/Treasury/Sound.antt =====
-- What every committed call does to the tables of src/purchase/journal.ts, row by row and in the log.
use native.Mathlib.Nat.{le_trans}
use mathlib.Core.Option.{some-injective}
use sompi.Base.{
  ℕ, ◌+◌, ◌≤◌, ◌≡◌, refl, sym, ◌∙◌, ap, inl, inr, Bool, true, false, String, Option, none, some,
  List, [], ◌∷◌, str_eq, if◌then◌else◌, count_by, ok, sum_by, sum_by-append, Bool-cases, eq_iff,
  arith,
}
use sompi.Treasury.Types.{
  Operation, Transition, Journal, OperationState, observed, completed, state_rank, same_state,
  intent,
}
use sompi.Treasury.Rows.{moved, is_terminal}
use sompi.Treasury.Tables.{find_operation, replace_operation, write_outcome, transition_row}
use sompi.Treasury.Intake.{unresolved}
use sompi.Treasury.Logs.{Chained, chain, state_of, chain-write, history-write}
use sompi.Treasury.Audit.{history_of}
use sompi.Treasury.Moves.{SameMaterial, is_priced, is_cancelled_material, Move, permits, launch}

-- The effect of the operation is known to have happened.
abbrev pub is_seen : OperationState → Bool
is_seen observed = true
is_seen completed = true
is_seen _ = false

-- What is never taken back of an operation: its request, its place in the diagram, its generation.
pub record Follows (r r' : Operation) : Type 0 where
  pub same_request : r'.request_digest ≡ r.request_digest
  pub same_kind : r'.kind ≡ r.kind
  pub same_destination : r'.destination ≡ r.destination
  pub same_requested : r'.requested_amount ≡ r.requested_amount
  pub same_ceiling : r'.fee_ceiling ≡ r.fee_ceiling
  pub same_policy : r'.policy_digest ≡ r.policy_digest
  pub no_return : state_rank r.state ≤ state_rank r'.state
  pub terminal_stays : is_terminal r.state ≡ true → r'.state ≡ r.state
  pub observed_stays : is_seen r.state ≡ true → is_seen r'.state ≡ true
  pub material : same_state r.state intent ≡ false → SameMaterial r r'
  pub cancelled : is_cancelled_material r ≡ true → is_cancelled_material r' ≡ true
  pub generation : r.driver_generation ≤ r'.driver_generation

pub Follows-refl : (r : Operation) → Follows r r
Follows-refl r = ground arith

pub Follows-trans : (r s t : Operation) → Follows r s → Follows s t → Follows r t
Follows-trans r s t p q = ground arith

Move-Follows : (r r' : Operation) {why : Option String} → Move r r' why → Follows r r'
Move-Follows r r' m = ground arith

-- The hand-overs of an operation to an adapter, as the log has them.
unfoldable pub launch_of : String → Transition → ℕ
launch_of key t =
    if str_eq t.operation_key key then launch t.from_state t.to_state (some t.reason) else 0

unfoldable pub launches : String → Journal → ℕ
launches key j = sum_by (launch_of key) j.transitions

-- The hand-overs that are still open to a key, one if it is not yet used.
abbrev pub permits_of : Option Operation → ℕ
permits_of none = 1
permits_of (some r) = permits r

abbrev pub permits_at : String → List Operation → ℕ
permits_at key rs = permits_of (find_operation key rs)

-- Every operation of the table is priced.
abbrev pub AllPriced : List Operation → Type 0
AllPriced rs = (key : String) (r : Operation) → find_operation key rs ≡ some r → is_priced r ≡ true

pub record Sound (j j' : Journal) : Type 0 where
  pub budget :
      (key : String)
      → launches key j' + permits_at key j'.operations
        ≤ launches key j + permits_at key j.operations
  pub grows : (key : String) → launches key j ≤ launches key j'
  pub follows :
      (key : String) (r : Operation)
      → find_operation key j.operations ≡ some r
      → (r' : Operation) × (find_operation key j'.operations ≡ some r') × Follows r r'
  pub prices : AllPriced j.operations → AllPriced j'.operations
  pub chained : (key : String) → Chained key j → Chained key j'
  pub exclusive : count_by unresolved j.operations ≤ 1 → count_by unresolved j'.operations ≤ 1

pub find-operation_key :
    (key : String) (rs : List Operation) (r : Operation)
    → find_operation key rs ≡ some r
    → str_eq r.operation_key key ≡ true
unfolding find_operation
find-operation_key key [] r h = cc
find-operation_key key (x ∷ rs) r h = ground (arith, find-operation_key key rs r)

pub find-replace :
    (key k : String) (r r' : Operation) (rs : List Operation)
    → find_operation key rs ≡ some r
    → r'.operation_key ≡ r.operation_key
    → find_operation k (replace_operation key r' rs)
      ≡ (if str_eq key k then some r' else find_operation k rs)
unfolding find_operation replace_operation
find-replace key k r r' [] h e = cc
find-replace key k r r' (x ∷ rs) h e = ground (
  arith,
  find-replace key k r r' rs,
  eq_iff x.operation_key key,
  eq_iff x.operation_key k,
  eq_iff key k,
  eq_iff r'.operation_key k,
)

unresolved-replace :
    (key : String) (r r' : Operation) (rs : List Operation)
    → find_operation key rs ≡ some r
    → (is_terminal r.state ≡ true → r'.state ≡ r.state)
    → count_by unresolved (replace_operation key r' rs) ≤ count_by unresolved rs
unfolding find_operation replace_operation
unresolved-replace key r r' [] h e = cc
unresolved-replace key r r' (x ∷ rs) h e = ground (arith, unresolved-replace key r r' rs)

pub Sound-refl : (j : Journal) → Sound j j
Sound-refl j = record {
  budget = λ key. omega arith;
  grows = λ key. omega arith;
  follows = λ key r h. (r, h, Follows-refl r);
  prices = λ p. p;
  chained = λ key c. c;
  exclusive = λ h. h;
}

pub launches-write :
    (key k : String) (now : ℕ) (r r' : Operation) (why : Option String) (j : Journal)
    → launches k (write_outcome key now r (moved r' why) j)
      ≡ launches k j + (if str_eq key k then launch (some r.state) r'.state why else 0)
unfolding launches write_outcome launch_of launch
launches-write key k now r r' none j = ground arith
launches-write key k now r r' (some reason) j =
    sum_by-append (launch_of k) j.transitions
      (transition_row key (some r.state) r'.state reason now ∷ [])
    ∙ omega arith

pub operations-write :
    (key : String) (now : ℕ) (r r' : Operation) (why : Option String) (j : Journal)
    → (write_outcome key now r (moved r' why) j).operations ≡ replace_operation key r' j.operations
unfolding write_outcome
operations-write key now r r' none j = refl
operations-write key now r r' (some reason) j = refl

module _ (key : String) (now : ℕ) (r r' : Operation) (why : Option String) (j base : Journal)
    (same_operations : base.operations ≡ j.operations)
    (same_transitions : base.transitions ≡ j.transitions)
    (found : find_operation key j.operations ≡ some r) (m : Move r r' why) where
  written : Journal
  written = write_outcome key now r (moved r' why) base

  find-written :
      (k : String)
      → find_operation k written.operations
        ≡ (if str_eq key k then some r' else find_operation k j.operations)
  unfolding written
  find-written k =
      rw (operations-write key now r r' why base, same_operations)
        (find-replace key k r r' j.operations found m.same_key)

  launches-written :
      (k : String)
      → launches k written
        ≡ launches k j + (if str_eq key k then launch (some r.state) r'.state why else 0)
  unfolding written launches
  launches-written k =
      launches-write key k now r r' why base
      ∙ ap
          (λ ts.
            sum_by (launch_of k) ts
            + (if str_eq key k then launch (some r.state) r'.state why else 0))
          same_transitions

  budget-written :
      (k : String)
      → launches k written + permits_at k written.operations
        ≤ launches k j + permits_at k j.operations
  budget-written k = elim (Bool-cases (str_eq key k)) [
    | inl same ↦
        let after : find_operation k written.operations ≡ some r' =
          rw (find-written k, same) refl in
        let before : find_operation k j.operations ≡ some r = rw (← (eq_iff key k).0 same) found in
        rw (ap permits_of after, ap permits_of before, launches-written k, same)
          (omega (arith, m.budget))
    | inr other ↦ rw (ap permits_of (find-written k), launches-written k, other) (omega arith)
  ]

  Follows-written :
      (k : String) (s : Operation)
      → find_operation k j.operations ≡ some s
      → (s' : Operation) × (find_operation k written.operations ≡ some s') × Follows s s'
  Follows-written k s h = elim (Bool-cases (str_eq key k)) [
    | inl same ↦
        (r', find-written k ∙ rw same refl, rw (sym (row_of k s h same)) (Move-Follows r r' m))
    | inr other ↦ (s, find-written k ∙ rw other h, Follows-refl s)
  ]
    where
      row_of :
          (k : String) (s : Operation)
          → find_operation k j.operations ≡ some s
          → str_eq key k ≡ true
          → r ≡ s
      row_of k s h same = ground (arith, eq_iff key k)

  prices-written : AllPriced j.operations → AllPriced written.operations
  prices-written p k s h = elim (Bool-cases (str_eq key k)) [
    | inl same ↦
        let e : some r' ≡ some s = sym (find-written k ∙ rw same refl) ∙ h in
        rw (← some-injective r' s e) (m.priced (p key r found))
    | inr other ↦ p k s (sym (find-written k ∙ rw other refl) ∙ h)
  ]

  log-base :
      (k : String)
      → chain none (history_of k base.transitions) ≡ chain none (history_of k j.transitions)
  log-base k = ap (λ ts. chain none (history_of k ts)) same_transitions

  Chained-written : (k : String) → Chained k j → Chained k written
  unfolding written
  Chained-written k c = elim (Bool-cases (str_eq key k)) [
    | inl same ↦
        let before : find_operation k j.operations ≡ some r = rw (← (eq_iff key k).0 same) found in
        let after : find_operation k written.operations ≡ some r' =
          rw (find-written k, same) refl in
        chain-write key k now r r' why base m same
          (log-base k ∙ c ∙ ap (λ o. ok (state_of o)) before)
        ∙ ap (λ o. ok (state_of o)) (sym after)
    | inr other ↦
        let after : find_operation k written.operations ≡ find_operation k j.operations =
          rw (find-written k, other) refl in
        ap (chain none) (history-write key k now r r' why base other)
        ∙ log-base k
        ∙ c
        ∙ ap (λ o. ok (state_of o)) (sym after)
  ]

  -- The write of a row that moves by `Move`, on top of other tables that are as before.
  pub write-Sound : Sound j (write_outcome key now r (moved r' why) base)
  unfolding written
  write-Sound = record {
    budget = budget-written;
    grows = λ k. omega (arith, launches-written k);
    follows = Follows-written;
    prices = prices-written;
    chained = Chained-written;
    exclusive = λ h.
        rw (operations-write key now r r' why base, same_operations)
          (le_trans
            (unresolved-replace key r r' j.operations found (Move-Follows r r' m).terminal_stays)
            h);
  }
