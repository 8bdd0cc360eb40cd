-- ===== src/Base.antt =====
-- The names that the other modules share: the libraries' names, passed on, Boolean tests on the
-- native numbers, lists measured by native numbers, signed integers and finite maps.
mod Tests
mod Lists
mod Int
mod Maps
mod Status
pub use Tests.*
pub use Lists.*
unfoldable pub use Int.*
pub use Maps.*
pub use Status.*
pub use Prim.Native.Nat.{ℕ, zero, suc, ◌+◌, ◌-◌, ◌*◌, ◌/◌, ◌%◌, ◌^◌, ◌≤◌, ◌<◌, min, max}
pub use mathlib.Core.Path.{◌≡◌, refl, sym, ap, ◌∙◌, subst}
pub use mathlib.Core.Logic.{◌≢◌, ◌↔◌, ◌⊎◌, inl, inr}
pub use mathlib.Core.Bool.{Bool, true, false, ◌&&◌, ◌||◌, not}
pub use mathlib.Core.Option.{Option, none, some}
pub use mathlib.Core.List.{List, [], ◌∷◌, ◌++◌, map}
pub use native.Mathlib.Omega.{arith}
