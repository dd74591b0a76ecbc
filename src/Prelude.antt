-- ===== src/Prelude.antt =====
-- The names that the other modules share: the libraries', passed on, the Boolean tests, lists
-- measured by native numbers, byte strings, Go maps and sets, and errors as values.
mod Bools
mod Lists
mod ByteStrings
pub mod Table
pub mod Distinct
pub mod Flow
pub mod Outcome
pub mod Decimal
pub mod Text
mod Errors
pub use Bools.*
pub use Lists.*
pub use Errors.*
pub use ByteStrings.{Bytes, bytes_eq_iff, bytes_eq_refl}
unfoldable pub use ByteStrings.{bytes_eq, bytes_instance}
pub use Prim.Native.Nat.{ℕ, zero, suc, ◌+◌, ◌-◌, ◌*◌, ◌/◌, ◌%◌, ◌^◌, ◌≤◌, ◌<◌, min}
pub use mathlib.Core.Path.{◌≡◌, refl, sym, ap, ◌∙◌, subst, fun_ext}
pub use mathlib.Core.Logic.{◌≢◌, ◌↔◌, ◌⊎◌, inl, inr}
pub use mathlib.Core.Bool.{Bool, true, false, ◌&&◌, ◌||◌, not}
pub use mathlib.Core.Option.{Option, none, some}
pub use mathlib.Core.List.{List, [], ◌∷◌, ◌++◌, map}
pub use native.Mathlib.Omega.{arith}
