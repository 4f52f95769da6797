-- ===== src/Base.antt =====
-- Names, notation and lemmas that every component shares.
pub mod Bools
pub mod Lists
pub mod Strings
pub mod Maps
pub mod Chars
pub mod Integers
pub mod Sorting
pub mod Entries
pub mod Comparisons
pub use Bools.*
pub use Lists.*
unfoldable pub use Strings.*
unfoldable pub use Maps.*
unfoldable pub use Chars.*
unfoldable pub use Integers.*
unfoldable pub use Sorting.*
pub use Entries.*
pub use Comparisons.*
pub use Prim.Native.Nat.{
  ℕ, zero, suc, compare, Ordering, ◌+◌, ◌-◌, ◌*◌, ◌/◌, ◌%◌, ◌^◌, ◌≤◌, ◌<◌, min, max,
}
pub use Prim.Native.String.{String}
pub use mathlib.Core.Path.{◌≡◌, refl, sym, ap, ◌∙◌, subst}
pub use mathlib.Core.Logic.{◌≢◌, ◌↔◌, ◌⊎◌, inl, inr}
pub use mathlib.Core.Bool.{Bool, true, false, not, ◌&&◌, ◌||◌}
pub use mathlib.Core.Option.{Option, none, some}
pub use mathlib.Core.List.{List, [], ◌∷◌, ◌++◌, map, append-nil, append_assoc}
pub use native.Mathlib.Omega.{arith}
