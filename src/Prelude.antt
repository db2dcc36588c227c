-- ===== src/Prelude.antt =====
-- The names that the other modules share: the libraries', passed on, and those of the children.
mod Tests
pub mod Lists
mod Equality
mod Unique
pub mod Rows
pub mod Strings
pub mod Maps
pub mod Results
pub mod Effects
pub use Tests.*
pub use Lists.*
unfoldable pub use Equality.{text_eq}
pub use Equality.*
pub use Unique.*
pub use Prim.Native.Nat.{ℕ, zero, suc, ◌+◌, ◌-◌, ◌*◌, ◌/◌, ◌%◌, ◌≤◌, ◌<◌}
pub use Prim.Native.String.{String}
pub use mathlib.Core.Path.{◌≡◌, refl, sym, ap, ◌∙◌, fun_ext, subst}
pub use mathlib.Core.Logic.{◌≢◌, ◌↔◌, ◌⊎◌, inl, inr}
pub use mathlib.Core.Bool.{Bool, true, false, ◌&&◌, ◌||◌, not}
pub use mathlib.Core.Option.{Option, none, some}
pub use mathlib.Core.List.{List, [], ◌∷◌, ◌++◌, map, reverse}
pub use native.Mathlib.Omega.{arith}
pub use Strings.{Lacks}
unfoldable pub use Strings.{to_lowercase, contains_text, split_once}
pub use Maps.{HashMap}
pub use Results.{Result, ok, err, Result-cases}
pub use Effects.{Exec, Lock, pure, raise, map_err}
