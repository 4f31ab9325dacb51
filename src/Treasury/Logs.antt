-- ===== src/Treasury/Logs.antt =====
-- The transitions of one operation as a chain, and how a chain grows (src/purchase/journal.ts).
use mathlib.Core.Path.{subst}
use sompi.Base.{
  ℕ, ◌≡◌, refl, sym, ap, ◌∙◌, Bool, true, false, not, ◌&&◌, String, Option, none, some, List, [],
  ◌∷◌, ◌++◌, ltb, str_eq, opt_eq, is_some, if◌then◌else◌, Result, ok, ◌>>◌, require, invariant,
  arith,
}
use sompi.Treasury.Types.{
  OperationState, intent, same_state, state_rank-injective, Operation, Transition, Journal,
}
use sompi.Treasury.Rows.{moved}
use sompi.Treasury.Tables.{find_operation, transition_row, write_outcome}
use sompi.Treasury.Moves.{Move, advances}
use sompi.Treasury.Audit.{transition_allowed, history_of, audit_steps, audit_history}

-- A row that continues a chain which has come to a state, or starts one.
abbrev pub continues : Option OperationState → Transition → Bool
continues none t = not (is_some t.from_state) && same_state t.to_state intent
continues (some s) t = opt_eq same_state t.from_state (some s) && transition_allowed s t.to_state

-- Where a chain ends, if it is one.
unfoldable pub chain : Option OperationState → List Transition → Result (Option OperationState)
chain s [] = ok s
chain s (t ∷ ts) = do require (continues s t) invariant; chain (some t.to_state) ts

abbrev pub state_of : Option Operation → Option OperationState
state_of none = none
state_of (some r) = some r.state

-- The log of a key is a chain that ends in the state of its row.
abbrev pub Chained : String → Journal → Type 0
Chained key j =
    chain none (history_of key j.transitions) ≡ ok (state_of (find_operation key j.operations))

pub history-append :
    (key : String) (ts : List Transition) (t : Transition)
    → history_of key (ts ++ t ∷ [])
      ≡ history_of key ts ++ (if str_eq t.operation_key key then t ∷ [] else [])
unfolding history_of
history-append key [] t = refl
history-append key (x ∷ ts) t = ground (arith, history-append key ts t)

pub chain-append :
    (s : Option OperationState) (ts : List Transition) (t : Transition) (s' : Option OperationState)
    → chain s ts ≡ ok s'
    → continues s' t ≡ true
    → chain s (ts ++ t ∷ []) ≡ ok (some t.to_state)
unfolding chain
chain-append s [] t s' h c = ground arith
chain-append s (x ∷ ts) t s' h c = ground (arith, chain-append (some x.to_state) ts t s')

-- The times of a log never go back.
unfoldable pub in_order : ℕ → List Transition → Bool
in_order at [] = true
in_order at (t ∷ ts) = not (ltb t.created_at_ms at) && in_order t.created_at_ms ts

passed_require :
    {B : Type 0} (test : Bool) (m : Result B) {x : B}
    → (require test invariant >> m) ≡ ok x
    → (test ≡ true) × (m ≡ ok x)
passed_require true m h = (refl, h)
passed_require false m h = cc

both : (a b : Bool) → (a && b) ≡ true → (a ≡ true) × (b ≡ true)
both true b h = (refl, h)
both false b h = cc

steps-chain :
    (s : OperationState) (at : ℕ) (ts : List Transition) (last : OperationState)
    → chain (some s) ts ≡ ok (some last)
    → in_order at ts ≡ true
    → audit_steps s at ts ≡ ok last
unfolding chain in_order audit_steps
steps-chain s at [] last h o = ground arith
steps-chain s at (t ∷ ts) last h o =
    let (c, rest) = passed_require (continues (some s) t) (chain (some t.to_state) ts) h in
    let (from, allowed) =
      both (opt_eq same_state t.from_state (some s)) (transition_allowed s t.to_state) c in
    let (now, later) = both (not (ltb t.created_at_ms at)) (in_order t.created_at_ms ts) o in
    rw (from, now, allowed) (steps-chain t.to_state t.created_at_ms ts last rest later)

-- What the chain says of the first row of a log.
first-chain :
    (t : Transition) (ts : List Transition) (last : OperationState)
    → chain none (t ∷ ts) ≡ ok (some last)
    → (is_some t.from_state ≡ false)
      × (t.to_state ≡ intent)
      × (chain (some intent) ts ≡ ok (some last))
unfolding chain
first-chain t ts last h =
    let (c, rest) = passed_require (continues none t) (chain (some t.to_state) ts) h in
    let (fresh, start) = both (not (is_some t.from_state)) (same_state t.to_state intent) c in
    let same : t.to_state ≡ intent = state_rank-injective t.to_state intent (ground arith) in
    (ground arith, same, subst (λ x. chain (some x) ts ≡ ok (some last)) same rest)

-- A log that is a chain and whose times never go back passes the audit, which ends in its last state.
pub audit_history-chain :
    (ts : List Transition) (last : OperationState)
    → chain none ts ≡ ok (some last)
    → in_order 0 ts ≡ true
    → audit_history ts ≡ ok last
unfolding chain in_order audit_history
audit_history-chain [] last h o = ground arith
audit_history-chain (t ∷ ts) last h o =
    let (fresh, start, rest) = first-chain t ts last h in
    let (_, later) = both (not (ltb t.created_at_ms 0)) (in_order t.created_at_ms ts) o in
    rw (fresh, start) (steps-chain intent t.created_at_ms ts last rest later)

advances_allowed :
    (from to : OperationState) → advances from to ≡ true → transition_allowed from to ≡ true
unfolding transition_allowed
advances_allowed from to h = ground arith

same_state_refl : (s : OperationState) → same_state s s ≡ true
same_state_refl s = ground arith

continues-Move :
    (key : String) (r r' : Operation) {why : Option String} (reason : String) (now : ℕ)
    → Move r r' why
    → continues (some r.state) (transition_row key (some r.state) r'.state reason now) ≡ true
continues-Move key r r' reason now m =
    rw (same_state_refl r.state, advances_allowed r.state r'.state m.forward) refl

-- The log of the key whose row is written.
pub chain-write :
    (key k : String) (now : ℕ) (r r' : Operation) (why : Option String) (j : Journal)
    → Move r r' why
    → str_eq key k ≡ true
    → chain none (history_of k j.transitions) ≡ ok (some r.state)
    → chain none (history_of k (write_outcome key now r (moved r' why) j).transitions)
      ≡ ok (some r'.state)
unfolding write_outcome
chain-write key k now r r' none j m here h = h ∙ ap (λ s. ok (some s)) (sym (m.logged refl))
chain-write key k now r r' (some reason) j m here h =
    let row = transition_row key (some r.state) r'.state reason now in
    rw (history-append k j.transitions row, here)
      (chain-append none (history_of k j.transitions) row (some r.state) h
        (continues-Move key r r' reason now m))

pub append_nothing : (ts : List Transition) → ts ++ [] ≡ ts
append_nothing [] = refl
append_nothing (t ∷ ts) = ap (λ xs. t ∷ xs) (append_nothing ts)

-- The logs of the other keys.
pub history-write :
    (key k : String) (now : ℕ) (r r' : Operation) (why : Option String) (j : Journal)
    → str_eq key k ≡ false
    → history_of k (write_outcome key now r (moved r' why) j).transitions
      ≡ history_of k j.transitions
unfolding write_outcome
history-write key k now r r' none j other = refl
history-write key k now r r' (some reason) j other =
    rw
      (
        history-append k j.transitions (transition_row key (some r.state) r'.state reason now),
        other,
      )
      (append_nothing (history_of k j.transitions))
