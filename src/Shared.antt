-- ===== src/Shared.antt =====
-- The names that every module of the development shares: the libraries', passed on, and the
-- helpers on tests, arrays and masks of the children.
mod Tests
mod Lists
mod Bits
mod Faults
pub use Tests.*
unfoldable pub use Lists.*
pub use Bits.*
pub use Faults.*
pub use Prim.Native.Nat.{ℕ, zero, suc, ◌+◌, ◌-◌, ◌*◌, ◌/◌, ◌%◌, ◌^◌, ◌≤◌, ◌<◌, min, max}
pub use mathlib.Core.Bool.{Bool, true, false, not, ◌&&◌, ◌||◌}
pub use mathlib.Core.List.{List, [], ◌∷◌, ◌++◌, map}
pub use mathlib.Core.Logic.{◌≢◌, ◌↔◌, ◌⊎◌, inl, inr}
pub use mathlib.Core.Option.{Option, none, some}
pub use mathlib.Core.Path.{◌≡◌, refl, sym, ap, ◌∙◌, subst}
pub use native.Mathlib.Omega.{arith}
