-- ===== src/Base.antt =====
-- The names that the modules share: numbers, tests, options, lists and C arrays.
mod Tests
mod Arrays
mod Loops
mod Lists
pub mod Pigeonhole
pub use Tests.*
pub use Arrays.*
pub use Lists.*
pub use Loops.{for_up_inv, for_down_inv}
unfoldable pub use Loops.{for_up, for_down}
pub use Prim.Native.Nat.{ℕ, zero, suc, ◌+◌, ◌-◌, ◌*◌, ◌/◌, ◌%◌, ◌^◌, ◌≤◌, ◌<◌}
pub use mathlib.Core.Path.{◌≡◌, refl, sym, ap, ◌∙◌}
pub use mathlib.Core.Logic.{◌≢◌, ◌↔◌, ◌⊎◌, inl, inr}
pub use mathlib.Core.Bool.{Bool, true, false, not, ◌&&◌, ◌||◌}
pub use mathlib.Core.Option.{Option, none, some}
pub use mathlib.Core.List.{List, [], ◌∷◌, ◌++◌}
pub use mathlib.Core.List.{append-nil, append_assoc}
pub use native.Mathlib.Omega.{arith}
