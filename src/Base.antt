-- ===== src/Base.antt =====
-- Shared names: the libraries' that every component uses, and those of the three children.
mod Tests
mod Lists
mod Search
mod Texts
mod Trim
mod Append
mod Objects
mod TrimEnds
mod Rows
mod Batches
pub use Tests.*
unfoldable pub use Lists.*
pub use Search.*
unfoldable pub use Texts.*
pub use Trim.*
pub use Append.*
pub use Objects.*
unfoldable pub use TrimEnds.*
pub use Rows.*
pub use Batches.*
pub use Prim.Native.Nat.{ℕ, zero, suc, ◌+◌, ◌-◌, ◌*◌, ◌/◌, ◌%◌, ◌≤◌, ◌<◌}
pub use mathlib.Core.Path.{◌≡◌, refl, sym, ap, ◌∙◌, subst}
pub use mathlib.Core.Logic.{◌≢◌, ◌↔◌, ◌⊎◌, inl, inr}
pub use mathlib.Core.Bool.{Bool, true, false, ◌&&◌, ◌||◌, not}
pub use mathlib.Core.Option.{Option, none, some}
pub use mathlib.Core.List.{List, [], ◌∷◌, ◌++◌, map}
pub use native.Mathlib.Omega.{arith}
