-- ===== src/Prelude.antt =====
-- The names that every module shares: the libraries' own, and those of six children.
-- Tests: Boolean tests on numbers and the conditional. Arrays: C arrays as functions from an index.
-- Bits: `&` and `|` at variables. Powers: powers of two. Int: signed integers. Lists: lengths.
mod Tests
mod Arrays
mod Powers
mod Int
mod Lists
pub mod Bits
pub use Tests.*
pub use Arrays.*
pub use Powers.*
pub use Int.*
pub use Lists.*
pub use Prim.Native.Nat.{
  ℕ, zero, suc, ◌+◌, ◌-◌, ◌*◌, ◌/◌, ◌%◌, ◌^◌, ◌≤◌, ◌<◌, min, max, bit_and, bit_or,
}
pub use mathlib.Core.Path.{◌≡◌, refl, sym, ap, ap₂, subst, ◌∙◌, fun_ext}
pub use mathlib.Core.Logic.{◌≢◌, ◌↔◌, ◌⊎◌, inl, inr}
pub use mathlib.Core.Bool.{Bool, true, false, not, ◌&&◌, ◌||◌}
pub use mathlib.Core.Option.{Option, none, some}
pub use mathlib.Core.List.{List, [], ◌∷◌, ◌++◌, map}
pub use native.Mathlib.Omega.{arith}
unfoldable pub use native.Mathlib.Decide.{dec_lt, dec_le, ℕ_discrete}
