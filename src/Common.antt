-- ===== src/Common.antt =====
-- Names that every module shares: the libraries', passed on, and the helpers of its children
-- (Boolean tests, lists over the native numbers, saturating machine words).
mod Tests
mod Lists
mod Words
pub mod Options
pub mod Equality
pub mod Unique
pub mod Order
pub use Tests.*
pub use Lists.*
unfoldable pub use Words.{sat_add}
pub use Words.*
pub use Prim.Native.Nat.{ℕ, zero, suc, ◌+◌, ◌-◌, ◌*◌, ◌/◌, ◌%◌, ◌^◌, ◌≤◌, ◌<◌, min, max}
pub use Prim.Native.String.{String}
pub use mathlib.Core.Path.{◌≡◌, refl, sym, ap, ◌∙◌, subst}
pub use mathlib.Core.Logic.{◌≢◌, ◌↔◌, ◌⊎◌, inl, inr}
pub use mathlib.Core.Bool.{Bool, true, false, not, ◌&&◌, ◌||◌}
pub use mathlib.Core.Option.{Option, none, some}
pub use mathlib.Core.List.{List, [], ◌∷◌, ◌++◌, map}
pub use native.Mathlib.Omega.{arith}
