-- ===== src/Base.antt =====
-- The names that the modules share: the libraries' names passed on, tests on native numbers, lists
-- measured by native numbers, results of code that may throw, and the bit operations.
mod Tests
mod Lists
mod Texts
mod Indexing
mod Binary
pub mod Bits
pub mod Decimal
pub mod TextMap
pub mod Masks
pub mod Signed
pub use Tests.*
pub use Lists.*
pub use Texts.*
pub use Indexing.*
pub use Prim.Native.String.{String}
pub use Prim.Native.Nat.{
  ℕ, zero, suc, ◌+◌, ◌-◌, ◌*◌, ◌/◌, ◌%◌, ◌^◌, ◌≤◌, ◌<◌, min, max, bit_and, bit_or,
}
pub use mathlib.Core.Path.{◌≡◌, refl, sym, ap, ap₂, subst, ◌∙◌}
pub use mathlib.Core.Logic.{◌≢◌, ◌↔◌, ◌⊎◌, inl, inr}
pub use mathlib.Core.Bool.{Bool, true, false, not, ◌&&◌, ◌||◌}
pub use mathlib.Core.Option.{Option, none, some}
pub use mathlib.Core.List.{List, [], ◌∷◌, ◌++◌, map, append-nil, append_assoc}
pub use native.Mathlib.Omega.{arith}
