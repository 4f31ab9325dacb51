-- ===== src/Treasury/Tables.antt =====
-- The tables of direct Treasury Operations by their keys, and the transaction around a row function
-- (src/purchase/journal.ts).
use sompi.Base.{
  ℕ, String, Option, none, some, List, [], ◌∷◌, ◌++◌, str_eq, if◌then◌else◌, Result, ok, ◌>>=◌,
  ◌>>◌, require, or_throw, invariant, not_found, is_operation_key,
}
use sompi.Treasury.Types.{OperationState, Operation, Transition, PolicySnapshot, Journal}
use sompi.Treasury.Rows.{Outcome, kept, moved}

-- SELECT * FROM treasury_operations WHERE operation_key = ?.
unfoldable pub find_operation : String → List Operation → Option Operation
find_operation key [] = none
find_operation key (r ∷ rs) = if str_eq r.operation_key key then some r else find_operation key rs

-- The row of the primary key, written anew.
unfoldable pub replace_operation : String → Operation → List Operation → List Operation
replace_operation key r' [] = []
replace_operation key r' (r ∷ rs) =
    if str_eq r.operation_key key then r' ∷ rs else r ∷ replace_operation key r' rs

unfoldable pub find_policy : String → List PolicySnapshot → Option PolicySnapshot
find_policy digest [] = none
find_policy digest (p ∷ ps) = if str_eq p.digest digest then some p else find_policy digest ps

abbrev pub transition_row :
    String → Option OperationState → OperationState → String → ℕ → Transition
transition_row key from to reason now = record {
  operation_key = key;
  from_state = from;
  to_state = to;
  reason = reason;
  created_at_ms = now;
}

-- The rows that an outcome writes, the transition row from the state read to the state written.
unfoldable pub write_outcome : String → ℕ → Operation → Outcome → Journal → Journal
unfolding replace_operation
write_outcome key now r kept j = j
write_outcome key now r (moved r' none) j = record j {
  operations = replace_operation key r' j.operations;
}
write_outcome key now r (moved r' (some reason)) j = record j {
  operations = replace_operation key r' j.operations;
  transitions = j.transitions ++ transition_row key (some r.state) r'.state reason now ∷ [];
}

-- The transaction around a row function. `base` holds the tables that the handler changed before its
-- UPDATE, and is kept only if the row is written.
unfoldable pub on_operation :
    String → ℕ → Journal → Journal → (Operation → Result Outcome) → Result (Journal × Outcome)
on_operation key now j base f = do
  require (is_operation_key key) invariant
  r ← or_throw (find_operation key j.operations) not_found
  outcome ← f r
  ok (
    elim outcome [ kept ↦ j | moved r' why ↦ write_outcome key now r (moved r' why) base ],
    outcome,
  )
