-- ===== src/Prelude.antt =====
-- Names that the component modules share: the libraries' names passed on, the tests on native
-- numbers, lists filtered by Boolean tests, insertion-ordered dictionaries, sorting, integers.
mod Tests
pub mod Lists
pub mod Dict
pub mod Sort
pub mod Counting
pub mod Members
pub mod Choice
pub mod Int
pub use Tests.*
pub use Prim.Native.Nat.{ℕ, zero, suc, ◌+◌, ◌-◌, ◌*◌, ◌/◌, ◌≤◌, ◌<◌, min, max}
pub use mathlib.Core.Path.{◌≡◌, refl, sym, ap, subst, ◌∙◌}
pub use mathlib.Core.Logic.{◌≢◌, ◌↔◌, ◌⊎◌, inl, inr}
pub use mathlib.Core.Bool.{Bool, true, false, not, ◌&&◌, ◌||◌}
pub use mathlib.Core.Option.{Option, none, some}
pub use mathlib.Core.List.{List, [], ◌∷◌, ◌++◌, map}
pub use native.Mathlib.Omega.{arith}
