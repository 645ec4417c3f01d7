-- ===== src/Common.antt =====
-- What every component shares: the libraries' names passed on, Boolean tests and equality, lists
-- measured by native numbers, JavaScript's insertion-ordered `Map`, stable sorting and text tests.
mod Tests
mod Attempts
mod Lists
mod Maps
mod Sorting
mod Restoring
mod Text
unfoldable pub use Tests.*
pub use Attempts.*
unfoldable pub use Lists.*
unfoldable pub use Maps.*
unfoldable pub use Sorting.*
unfoldable pub use Restoring.*
unfoldable pub use Text.*
pub use Prim.Native.Nat.{ℕ, zero, suc, ◌+◌, ◌-◌, ◌*◌, ◌/◌, ◌%◌, ◌≤◌, ◌<◌}
pub use Prim.Native.String.{String}
pub use mathlib.Core.Path.{◌≡◌, refl, sym, ap, ◌∙◌}
pub use mathlib.Core.Logic.{◌≢◌, ◌↔◌, ◌⊎◌, inl, inr}
pub use mathlib.Core.Bool.{Bool, true, false, not, ◌&&◌, ◌||◌}
pub use mathlib.Core.Option.{Option, none, some}
pub use mathlib.Core.List.{List, [], ◌∷◌, ◌++◌, map}
pub use native.Mathlib.Omega.{arith}
pub use text.Mathlib.TextEquality.{eq_iff}
