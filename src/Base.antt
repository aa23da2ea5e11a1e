-- ===== src/Base.antt =====
-- The names that all parts share: those of the libraries, passed on, and the helpers of the
-- children (Boolean tests, lists and their counts, UTF-8 texts, hash maps, floats).
mod Tests
mod Lists
mod Counts
mod Ids
pub mod Pieces
pub mod Text
pub mod Names
pub mod Strs
pub mod Map
pub mod Float
pub mod Int
pub use Tests.*
pub use Lists.*
pub use Counts.*
pub use Ids.*
pub use Prim.Native.Nat.{ℕ, zero, suc, ◌+◌, ◌-◌, ◌*◌, ◌/◌, ◌%◌, ◌≤◌, ◌<◌, min}
pub use mathlib.Core.Path.{◌≡◌, refl, sym, ap, ◌∙◌}
pub use mathlib.Core.Logic.{◌≢◌, ◌↔◌, ◌⊎◌, inl, inr}
pub use mathlib.Core.Bool.{Bool, true, false, ◌&&◌, ◌||◌, not}
pub use mathlib.Core.Option.{Option, none, some}
pub use mathlib.Core.List.{List, [], ◌∷◌, ◌++◌, map}
pub use native.Mathlib.Omega.{arith}
