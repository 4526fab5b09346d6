-- ===== src/Prelude.antt =====
-- The names that the other modules share: those of the libraries, passed on, the tests on native
-- numbers and texts, lists measured by native numbers, signed integers and equality classes.
mod Tests
mod Lists
mod Int
mod Classes
mod Found
mod Assoc
pub mod Xor
pub use Tests.*
pub use Lists.*
unfoldable pub use Int.*
pub use Classes.*
pub use Found.*
unfoldable pub use Assoc.{get, insert}
pub use Assoc.{get-insert}
pub use Prim.Native.Nat.{ℕ, zero, suc, ◌+◌, ◌-◌, ◌*◌, ◌/◌, ◌%◌, ◌^◌, ◌≤◌, ◌<◌, max, min}
pub use Prim.Native.String.{String}
pub use mathlib.Core.Path.{◌≡◌, refl, sym, ap, ◌∙◌, subst}
pub use mathlib.Core.Logic.{◌≢◌, ◌↔◌, ◌⊎◌, inl, inr}
pub use mathlib.Core.Bool.{Bool, true, false, not, ◌&&◌, ◌||◌}
pub use mathlib.Core.Option.{Option, none, some}
pub use mathlib.Core.List.{List, [], ◌∷◌, ◌++◌, map, append_assoc, append-nil}
pub use native.Mathlib.Omega.{arith}
