-- ===== src/Common.antt =====
-- The names that the other modules share: the libraries', passed on, and those of the children.
pub mod Tests
pub mod Lists
pub mod Bits
pub mod Outcomes
pub mod Assoc
pub use Tests.*
pub use Lists.*
unfoldable pub use Tests.{string_beq}
unfoldable pub use Bits.{agree_below}
pub use Bits.{eq_below, low_seven, top_bit, set_top_bit}
pub use Outcomes.*
unfoldable pub use Assoc.{find, assign, insert, erase}
pub use Assoc.{
  find-assign, find-erase, find-insert, insert-All, assign-All, erase-All, find-All, value_or,
}
pub use Prim.Native.Nat.{ℕ, zero, suc, ◌+◌, ◌-◌, ◌*◌, ◌/◌, ◌%◌, ◌^◌, ◌≤◌, ◌<◌, bit_and, bit_or}
pub use mathlib.Core.Path.{◌≡◌, refl, sym, ap, ◌∙◌}
pub use mathlib.Core.Logic.{◌≢◌, ◌↔◌, ◌⊎◌, inl, inr}
pub use mathlib.Core.Bool.{Bool, true, false, not, ◌&&◌, ◌||◌}
pub use mathlib.Core.Option.{Option, none, some}
pub use mathlib.Core.List.{List, [], ◌∷◌, ◌++◌, map}
pub use native.Mathlib.Omega.{arith}
