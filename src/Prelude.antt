-- ===== src/Prelude.antt =====
-- Names that the other modules share: the libraries', passed on, and those of the children.
mod Tests
mod Lists
mod Int
mod Loops
mod Outcome
mod Sets
mod Any
mod Distinct
mod Members
mod Slices
mod Combinations
mod Permutations
mod TextOrder
mod SetMembers
pub use Tests.*
pub use Lists.*
pub use Int.*
pub use Loops.*
pub use Outcome.*
pub use Sets.*
pub use Any.*
pub use Distinct.*
pub use Members.*
pub use SetMembers.*
unfoldable pub use Slices.*
unfoldable pub use Combinations.*
unfoldable pub use Permutations.*
pub use Prim.Native.String.{◌++◌ as concat}
pub use Prim.Native.Nat.{ℕ, zero, suc, ◌+◌, ◌-◌, ◌*◌, ◌%◌, ◌^◌, ◌≤◌, ◌<◌}
pub use Prim.Native.String.{String}
pub use mathlib.Core.Path.{◌≡◌, refl, sym, ap, ap₂, ◌∙◌, subst}
pub use mathlib.Core.Logic.{◌≢◌, ◌↔◌, ◌⊎◌, inl, inr}
pub use mathlib.Core.Bool.{Bool, true, false, not, ◌&&◌, ◌||◌, false≢true}
pub use mathlib.Core.Option.{Option, none, some}
pub use mathlib.Core.List.{List, [], ◌∷◌, ◌++◌, append_assoc, map, Memᴰ}
pub use native.Mathlib.Omega.{arith}
pub use native.Mathlib.Nat.{zero-add}
pub use text.Mathlib.Text.{◌==◌, starts_with}
pub use text.Mathlib.TextEquality.{eq_iff}
pub use text.Mathlib.TextPositions.{eq_refl}
