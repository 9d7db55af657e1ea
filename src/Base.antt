-- ===== src/Base.antt =====
-- What the models of the C++ components share: library names passed on, Boolean tests, vectors as
-- lists with native indices, machine words and single-cell updates.
mod Tests
mod Lists
mod Word
mod Family
mod Loops
pub mod Cells
pub mod Bits
pub mod Modular
pub mod Sums
pub use Tests.*
pub use Lists.*
pub use Word.*
pub use Family.*
pub use Loops.*
pub use Prim.Native.Nat.{
  ℕ, zero, suc, ◌+◌, ◌-◌, ◌*◌, ◌/◌, ◌%◌, ◌^◌, ◌≤◌, ◌<◌, min, bit_and, bit_or, bit_xor,
}
pub use mathlib.Core.Path.{◌≡◌, refl, sym, ap, ap₂, subst, ◌∙◌}
pub use mathlib.Core.Logic.{◌≢◌, ◌↔◌, ◌⊎◌, inl, inr}
pub use mathlib.Core.Bool.{Bool, true, false, not, ◌&&◌, ◌||◌}
pub use mathlib.Core.Option.{Option, none, some}
pub use mathlib.Core.List.{List, [], ◌∷◌, ◌++◌, map}
pub use native.Mathlib.Omega.{arith}
unfoldable pub use native.Mathlib.Decide.{dec_lt, ℕ_discrete}
