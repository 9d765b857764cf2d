-- ===== src/Prelude.antt =====
-- What the other modules share: the libraries' names, passed on, with the Boolean tests, the list
-- functions over the native numbers and the result type of the children.
mod Tests
mod Lists
pub mod Results
pub mod Options
pub mod Bytes
pub mod Int
pub mod Dict
pub mod Table
pub use Tests.*
unfoldable pub use Tests.{list_eq}
pub use Lists.*
pub use Prim.Native.Nat.{ℕ, zero, suc, ◌+◌, ◌-◌, ◌*◌, ◌/◌, ◌%◌, ◌^◌, ◌≤◌, ◌<◌, min, max}
pub use mathlib.Core.Path.{◌≡◌, refl, sym, ap, ◌∙◌}
pub use mathlib.Core.Logic.{◌≢◌, ◌⊎◌, inl, inr}
pub use mathlib.Core.Bool.{Bool, true, false, not, ◌&&◌, ◌||◌}
pub use mathlib.Core.Option.{Option, none, some}
pub use mathlib.Core.List.{List, [], ◌∷◌, ◌++◌, map}
pub use native.Mathlib.Omega.{arith}
