-- ===== src/Base.antt =====
-- The names that the other modules share: the libraries', passed on, and those of the children.
-- The children hold what JavaScript itself gives the program: numbers, ordered maps, thrown values.
mod Booleans
mod Lists
mod Outcome
pub mod Number
pub mod StringMap
pub mod StringSet
pub mod Text
pub mod Uri
pub use Booleans.*
pub use Lists.*
pub use Outcome.*
pub use Prim.Native.Nat.{ℕ, zero, suc, ◌+◌, ◌-◌, ◌*◌, ◌/◌, ◌%◌, ◌^◌, ◌≤◌, ◌<◌, min, max}
pub use Prim.Native.String.{String}
pub use mathlib.Core.Path.{◌≡◌, refl, sym, ap, ◌∙◌}
pub use mathlib.Core.Logic.{◌≢◌, ◌↔◌, ◌⊎◌, inl, inr}
pub use mathlib.Core.Bool.{Bool, true, false, not, ◌&&◌, ◌||◌}
pub use mathlib.Core.Option.{Option, none, some}
pub use mathlib.Core.List.{List, [], ◌∷◌, ◌++◌, map}
pub use native.Mathlib.Omega.{arith}
