-- ===== src/Base/Rows.antt =====
-- A table as a list of rows under a text key: the SELECT and the UPDATE by a primary key.
use Prim.Native.String.{String}
use mathlib.Core.Path.{◌≡◌}
use mathlib.Core.Bool.{true}
use mathlib.Core.List.{List, [], ◌∷◌}
use mathlib.Core.Option.{Option, none, some}
use native.Mathlib.Omega.{arith}
use text.Mathlib.TextEquality.{eq_iff}
use sompi.Base.Tests.{str_eq, if◌then◌else◌}

module _ {ℓ} {A : Type ℓ} (key_of : A → String) where
  unfoldable pub find_row : String → List A → Option A
  find_row key [] = none
  find_row key (r ∷ rs) = if str_eq (key_of r) key then some r else find_row key rs

  -- The row of the key, written anew.
  unfoldable pub replace_row : String → A → List A → List A
  replace_row key r' [] = []
  replace_row key r' (r ∷ rs) = if str_eq (key_of r) key then r' ∷ rs else r ∷ replace_row key r' rs

  pub find-replace :
      (key k : String) (r r' : A) (rs : List A)
      → find_row key rs ≡ some r
      → key_of r' ≡ key_of r
      → find_row k (replace_row key r' rs) ≡ (if str_eq key k then some r' else find_row k rs)
  unfolding find_row replace_row
  find-replace key k r r' [] h e = cc
  find-replace key k r r' (x ∷ rs) h e = ground (
    arith,
    find-replace key k r r' rs,
    eq_iff (key_of x) key,
    eq_iff (key_of x) k,
    eq_iff key k,
    eq_iff (key_of r') k,
  )

  pub find-row_key :
      (key : String) (r : A) (rs : List A) → find_row key rs ≡ some r → str_eq (key_of r) key ≡ true
  unfolding find_row
  find-row_key key r [] h = cc
  find-row_key key r (x ∷ rs) h = ground (arith, find-row_key key r rs)
