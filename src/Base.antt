-- ===== src/Base.antt =====
-- The names that the other modules share: the libraries', passed on, and those of the children.
mod Tests
mod Lists
mod Outcome
pub mod Text
mod Rows
mod Int
pub use Tests.*
pub use Lists.*
pub use Outcome.*
pub use Int.{ℤ, pos, negsuc}
unfoldable pub use Int.{◌+ℤ◌, int_leb}
unfoldable pub use Rows.{find_row, replace_row}
pub use Rows.{find-replace, find-row_key}
unfoldable pub use Text.{
  codes, is_digit, is_digest, is_address, is_operation_key, is_code, is_transaction_id,
  is_transfer_id, is_bounded_text, is_safe_identity,
}
pub use Prim.Native.Nat.{ℕ, zero, suc, ◌+◌, ◌-◌, ◌*◌, ◌/◌, ◌%◌, ◌^◌, ◌≤◌, ◌<◌}
pub use Prim.Native.String.{String}
pub use mathlib.Core.Path.{◌≡◌, refl, sym, ap, ◌∙◌}
pub use mathlib.Core.Logic.{◌≢◌, ◌↔◌, ◌⊎◌, inl, inr}
pub use mathlib.Core.Bool.{Bool, true, false, not, ◌&&◌, ◌||◌}
pub use mathlib.Core.Option.{Option, none, some}
pub use mathlib.Core.List.{List, [], ◌∷◌, ◌++◌, map}
pub use native.Mathlib.Omega.{arith}
pub use text.Mathlib.TextEquality.{eq_iff}
