-- ===== src/Base.antt =====
-- Shared names: the library's, passed on, and those of the children.
mod Bools
mod Lists
mod Int
mod Http
mod Keyed
mod Strings
pub mod Crashes
pub mod Ensures
pub mod Returns
pub mod Decimal
pub mod Sort
pub mod Newest
pub mod Ranges
pub use Bools.*
pub use Lists.*
unfoldable pub use Int.*
pub use Http.*
pub use Keyed.*
pub use Strings.*
pub use Prim.Native.Nat.{ℕ, zero, suc, ◌+◌, ◌-◌, ◌*◌, ◌/◌, ◌%◌, ◌^◌, ◌≤◌, ◌<◌}
pub use Prim.Native.String.{String}
pub use mathlib.Core.Path.{◌≡◌, refl, sym, ap, ap₂, ◌∙◌, subst, fun_ext}
pub use mathlib.Core.Logic.{◌≢◌, ◌↔◌, ◌⊎◌, inl, inr}
pub use mathlib.Core.Bool.{Bool, true, false, not, ◌&&◌, ◌||◌}
pub use mathlib.Core.Option.{Option, none, some}
pub use mathlib.Core.List.{List, [], ◌∷◌, ◌++◌, map}
pub use native.Mathlib.Omega.{arith}
