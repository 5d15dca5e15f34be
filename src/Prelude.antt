-- ===== src/Prelude.antt =====
-- The names that the other modules share: the libraries', passed on, and those of four children.
mod Tests
mod Lists
mod Int
mod Strings
mod Results
pub mod Exec
mod Maps
mod Sorting
pub use Sorting.*
unfoldable pub use Sorting.{insert_by, sort_by}
pub use Maps.*
unfoldable pub use Maps.{at, set_at, delete_at}
pub use Tests.*
unfoldable pub use Tests.{all_of}
pub use Lists.*
pub use Int.*
unfoldable pub use Int.{to_u64, of_u64}
unfoldable pub use Strings.{text_eq, space_width, is_blank, is_label, text_lt}
pub use Strings.*
pub use Results.*
pub use Prim.Native.Nat.{ℕ, zero, suc, ◌+◌, ◌-◌, ◌*◌, ◌/◌, ◌%◌, ◌^◌, ◌≤◌, ◌<◌}
pub use mathlib.Core.Path.{◌≡◌, refl, sym, ap, ap₂, subst, ◌∙◌}
pub use mathlib.Core.Logic.{◌≢◌, ◌↔◌, ◌⊎◌, inl, inr}
pub use mathlib.Core.Bool.{Bool, true, false, not, ◌&&◌, ◌||◌}
pub use mathlib.Core.Option.{Option, none, some}
pub use mathlib.Core.List.{List, [], ◌∷◌, ◌++◌, map}
pub use native.Mathlib.Omega.{arith}
