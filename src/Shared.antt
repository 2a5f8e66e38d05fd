-- ===== src/Shared.antt =====
-- The names that every module shares: the libraries' types and laws, Boolean tests, lists
-- indexed by native numbers, and big-endian machine words.
mod Tests
pub mod Result
pub mod Maps
pub mod Records
pub mod Decimal
pub mod Splitting
pub mod Trimming
pub mod Search
pub mod Naming
pub mod Signed
mod Lists
mod Words
mod Strings
pub use Tests.*
pub use Lists.*
pub use Words.*
unfoldable pub use Strings.*
pub use Prim.Native.Nat.{ℕ, zero, suc, ◌+◌, ◌-◌, ◌*◌, ◌/◌, ◌%◌, ◌^◌, ◌≤◌, ◌<◌, min}
pub use mathlib.Core.Path.{◌≡◌, refl, sym, ap, ap₂, subst, ◌∙◌}
pub use mathlib.Core.Logic.{◌≢◌, ◌↔◌, ◌⊎◌, inl, inr}
pub use mathlib.Core.Bool.{Bool, true, false, not, ◌&&◌, ◌||◌}
pub use mathlib.Core.Option.{Option, none, some}
pub use mathlib.Core.List.{List, [], ◌∷◌, ◌++◌, map, append_assoc, append-nil}
pub use native.Mathlib.Omega.{arith}
