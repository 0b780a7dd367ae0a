-- ===== src/Base.antt =====
-- The names that every module shares: the library's, passed on, and those of the children, which
-- hold Boolean tests, list functions over the native numbers, dictionaries and result types.
mod Tests
mod Lists
mod Dicts
mod Results
mod Octets
mod Ints
pub mod Bits
pub use Tests.*
pub use Lists.*
unfoldable pub use Dicts.*
pub use Results.*
unfoldable pub use Octets.*
unfoldable pub use Ints.*
pub use Prim.Native.Nat.{ℕ, zero, suc, ◌+◌, ◌-◌, ◌*◌, ◌/◌, ◌%◌, ◌^◌, ◌≤◌, ◌<◌}
pub use Prim.Native.String.{String}
pub use mathlib.Core.Path.{◌≡◌, refl, sym, subst, ap, ◌∙◌}
pub use mathlib.Core.Logic.{◌≢◌, ◌↔◌, ◌⊎◌, inl, inr}
pub use mathlib.Core.Bool.{Bool, true, false, not, ◌&&◌, ◌||◌}
pub use mathlib.Core.Option.{Option, none, some}
pub use mathlib.Core.List.{List, [], ◌∷◌, ◌++◌, map}
pub use native.Mathlib.Omega.{arith}
pub use text.Mathlib.TextEquality.{eq_iff}
