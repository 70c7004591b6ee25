-- ===== src/Base.antt =====
-- Names that every component shares: the libraries', passed on, and those of the children below
-- (tests and lists over the native numbers, Go's errors and texts, loops, recorded API calls).
mod Tests
mod Errors
mod Text
mod Lists
pub mod Int
pub mod Loops
pub mod Calls
pub mod AllCalls
pub mod Members
pub mod SortedSets
pub use Tests.*
pub use Errors.*
unfoldable pub use Text.*
pub use Lists.*
pub use Prim.Native.Nat.{ℕ, zero, suc, ◌+◌, ◌-◌, ◌*◌, ◌≤◌, ◌<◌}
pub use Prim.Native.String.{String, ◌++◌ as ◌<>◌}
pub use mathlib.Core.Path.{◌≡◌, refl, sym, ap, ◌∙◌}
pub use mathlib.Core.Logic.{◌≢◌, ◌↔◌, ◌⊎◌, inl, inr}
pub use mathlib.Core.Bool.{Bool, true, false, not, ◌&&◌, ◌||◌}
pub use mathlib.Core.Option.{Option, none, some}
pub use mathlib.Core.List.{List, [], ◌∷◌, ◌++◌, map}
pub use native.Mathlib.Omega.{arith}
pub use text.Mathlib.Text.{◌==◌}
pub use text.Mathlib.TextEquality.{eq_iff}
pub use text.Mathlib.TextPositions.{eq_refl}
