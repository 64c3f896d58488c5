-- ===== src/Prelude.antt =====
-- Names that every component shares: the libraries' names passed on, tests, lists, and Go's errors.
mod Tests
mod Lists
mod Outcome
mod Int
mod Text
mod Rows
mod Order
pub use Tests.*
pub use Lists.*
pub use Outcome.*
pub use Int.*
pub use Rows.{find_row-none, find_row-last, any_row-none, ||-eq-false, not-eq-true}
unfoldable pub use Rows.{find_row, any_row}
unfoldable pub use Order.{less}
pub use Order.{less-irreflexive, less-transitive, less-total}
unfoldable pub use Text.{
  is_space, trim_left, trim_right, trim_space, is_blank, contains_code, format_int,
}
pub use Text.{codes}
pub use Prim.Native.Nat.{ℕ, zero, suc, ◌+◌, ◌-◌, ◌*◌, ◌/◌, ◌%◌, ◌^◌, ◌≤◌, ◌<◌}
pub use Prim.Native.String.{String}
pub use mathlib.Core.Path.{◌≡◌, refl, sym, ap, subst, ◌∙◌}
pub use mathlib.Core.Logic.{◌≢◌, ◌↔◌, ◌⊎◌, inl, inr}
pub use mathlib.Core.Bool.{Bool, true, false, not, ◌&&◌, ◌||◌}
pub use mathlib.Core.Option.{Option, none, some}
pub use mathlib.Core.List.{List, [], ◌∷◌, ◌++◌, map}
pub use native.Mathlib.Omega.{arith}
pub use text.Mathlib.TextEquality.{eq_iff}
pub use text.Mathlib.TextPositions.{eq_refl}
unfoldable pub use native.Mathlib.Decide.{dec_lt, dec_le, ℕ_discrete}
