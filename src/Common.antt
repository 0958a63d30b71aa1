-- ===== src/Common.antt =====
-- The names that the other modules share: library names passed on, Boolean tests, signed numbers,
-- Python dictionaries and sorted lists, and method calls that may raise.
pub mod Tests
pub mod Lists
pub mod Int
pub mod Keys
pub mod Dict
pub mod Order
pub mod Methods
pub use Tests.*
pub use Lists.*
pub use Keys.*
pub use Methods.*
pub use Prim.Native.Nat.{ℕ, zero, suc, ◌+◌, ◌-◌, ◌*◌, ◌/◌, ◌%◌, ◌≤◌, ◌<◌}
pub use Prim.Native.String.{String}
pub use mathlib.Core.Path.{◌≡◌, refl, sym, ap, ◌∙◌, subst}
pub use mathlib.Core.Logic.{◌≢◌, ◌↔◌, ◌⊎◌, inl, inr}
pub use mathlib.Core.Bool.{Bool, true, false, not, ◌&&◌, ◌||◌}
pub use mathlib.Core.Option.{Option, none, some}
pub use mathlib.Core.List.{List, [], ◌∷◌, ◌++◌, map}
pub use native.Mathlib.Omega.{arith}
