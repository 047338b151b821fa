-- ===== src/Base.antt =====
-- The names that every module shares: those of the libraries, Boolean tests on numbers and texts,
-- machine integers, and the part of Go's `strings` package that the program calls.
mod Tests
mod Int
mod Text
mod Lists
mod Members
mod Words
unfoldable pub use Tests.*
unfoldable pub use Int.*
unfoldable pub use Text.*
pub use Lists.*
unfoldable pub use Members.*
unfoldable pub use Words.*
pub use Prim.Native.Nat.{ℕ, zero, suc, ◌+◌, ◌-◌, ◌*◌, ◌/◌, ◌%◌, ◌^◌, ◌≤◌, ◌<◌}
pub use Prim.Native.String.{String}
pub use mathlib.Core.Path.{◌≡◌, refl, sym, ap, ◌∙◌}
pub use mathlib.Core.Logic.{◌≢◌, ◌↔◌, ◌⊎◌, inl, inr}
pub use mathlib.Core.Bool.{Bool, true, false, not, ◌&&◌, ◌||◌}
pub use mathlib.Core.Option.{Option, none, some}
pub use mathlib.Core.List.{List, [], ◌∷◌, ◌++◌, map}
pub use native.Mathlib.Omega.{arith}
pub use text.Mathlib.TextEquality.{eq_iff}
pub use text.Mathlib.TextPositions.{eq_refl}
