-- ===== src/Base.antt =====
-- The names that the other modules share: the libraries' numbers, lists, options and paths, and
-- the Boolean tests, results, checked arithmetic and bit laws of the children.
mod Tests
mod Results
mod Checked
pub mod Bits
pub mod Div
pub mod Bytes
pub use Tests.*
pub use Results.*
unfoldable pub use Checked.{add64, sub64, mul64, div64, checked_add32}
pub use Checked.{
  add64_lem, sub64_lem, mul64_lem, div64_lem, checked_add32_lem, mul64_overflow, add64_eq, sub64_eq,
  mul64_eq, div64_eq, checked_add32_eq,
}
pub use Prim.Native.Nat.{ℕ, zero, suc, ◌+◌, ◌-◌, ◌*◌, ◌/◌, ◌%◌, ◌^◌, ◌≤◌, ◌<◌, min, max}
pub use mathlib.Core.Path.{◌≡◌, refl, sym, ap, ◌∙◌, subst}
pub use mathlib.Core.Logic.{◌≢◌, ◌↔◌, ◌⊎◌, inl, inr}
pub use mathlib.Core.Bool.{Bool, true, false, ◌&&◌, ◌||◌, not}
pub use mathlib.Core.Option.{Option, none, some, some-injective}
pub use mathlib.Core.List.{List, [], ◌∷◌, ◌++◌, map}
pub use native.Mathlib.Omega.{arith}
