-- ===== src/Prelude.antt =====
-- The names that the modules share: the libraries', passed on, and those of the children.
mod Tests
mod Lists
mod Members
pub mod Int
pub mod Map
pub mod Words
pub mod Modulo
pub mod Names
pub mod Bytes
pub mod Texts
pub use Tests.*
pub use Lists.*
pub use Members.*
pub use Prim.Native.Nat.{ℕ, zero, suc, ◌+◌, ◌-◌, ◌*◌, ◌/◌, ◌%◌, ◌^◌, ◌≤◌, ◌<◌, min}
pub use mathlib.Core.Path.{◌≡◌, refl, sym, ap, ◌∙◌, subst}
pub use mathlib.Core.Logic.{◌≢◌, ◌↔◌, ◌⊎◌, inl, inr}
pub use mathlib.Core.Bool.{Bool, true, false, ◌&&◌, ◌||◌, not}
pub use mathlib.Core.Option.{Option, none, some}
pub use mathlib.Core.List.{List, [], ◌∷◌, ◌++◌, map, append-nil, append_assoc}
pub use native.Mathlib.Omega.{arith}
