-- ===== src/Purchase/Lifecycle.antt =====
-- src/purchase/state-machine.ts and the states of src/purchase/types.ts.
use sompi.Base.{
  ℕ, ◌==◌, ◌≡◌, ◌||◌, Bool, List, [], ◌∷◌, any_by, length, Result, require, plain, arith,
}

pub data PurchaseState : Type 0 where
  created terms_bound awaiting_authority authorised execution_prepared submitted settled :
      PurchaseState
  fulfilled receipted denied cancelled expired failed_recoverable failed_terminal : PurchaseState

-- The position in the union type, by which two states are compared.
abbrev pub rank : PurchaseState → ℕ
rank created = 0
rank terms_bound = 1
rank awaiting_authority = 2
rank authorised = 3
rank execution_prepared = 4
rank submitted = 5
rank settled = 6
rank fulfilled = 7
rank receipted = 8
rank denied = 9
rank cancelled = 10
rank expired = 11
rank failed_recoverable = 12
rank failed_terminal = 13

abbrev pub same_state : PurchaseState → PurchaseState → Bool
same_state a b = rank a == rank b

unfoldable pub allowed_transitions : PurchaseState → List PurchaseState
allowed_transitions created = terms_bound ∷ cancelled ∷ []
allowed_transitions terms_bound = awaiting_authority ∷ expired ∷ cancelled ∷ []
allowed_transitions awaiting_authority = authorised ∷ denied ∷ expired ∷ cancelled ∷ []
allowed_transitions authorised = execution_prepared ∷ expired ∷ cancelled ∷ []
allowed_transitions execution_prepared = submitted ∷ expired ∷ cancelled ∷ failed_recoverable ∷ []
allowed_transitions submitted = settled ∷ failed_recoverable ∷ []
allowed_transitions settled = fulfilled ∷ failed_recoverable ∷ []
allowed_transitions fulfilled = receipted ∷ []
allowed_transitions receipted = []
allowed_transitions denied = []
allowed_transitions cancelled = []
allowed_transitions expired = []
allowed_transitions failed_recoverable =
    execution_prepared ∷ submitted ∷ settled ∷ expired ∷ failed_terminal ∷ []
allowed_transitions failed_terminal = []

unfoldable pub can_transition_purchase : PurchaseState → PurchaseState → Bool
unfolding allowed_transitions
can_transition_purchase from to =
    same_state from to || any_by (λ s. same_state s to) (allowed_transitions from)

unfoldable pub assert_purchase_transition : PurchaseState → PurchaseState → Result (Unit {0})
unfolding can_transition_purchase
assert_purchase_transition from to = require (can_transition_purchase from to) plain

unfoldable pub terminal_purchase_state : PurchaseState → Bool
unfolding allowed_transitions
terminal_purchase_state s = length (allowed_transitions s) == 0

-- Two states with one position are one state.
pub rank-injective : (a b : PurchaseState) → rank a ≡ rank b → a ≡ b
rank-injective a b h = ground arith
