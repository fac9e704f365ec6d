-- ===== src/Common.antt =====
-- The names that the other modules share: the libraries', passed on, and the children's helpers
-- on tests, lists, texts, dictionaries and results. Nothing here models a source file but
-- `Common.Errors` (error.rs).
mod Tests
mod Lists
mod Texts
pub mod Chars
pub mod Dict
mod Errors
mod Ints
pub use Tests.*
pub use Lists.*
unfoldable pub use Texts.*
pub use Errors.*
unfoldable pub use Ints.*
pub use Prim.Native.Nat.{ℕ, zero, suc, ◌+◌, ◌-◌, ◌*◌, ◌^◌, ◌/◌, ◌%◌, ◌≤◌, ◌<◌, min, max}
pub use Prim.Native.String.{String}
pub use mathlib.Core.Path.{◌≡◌, refl, sym, ap, ap₂, ◌∙◌}
pub use mathlib.Core.Logic.{◌≢◌, ◌↔◌, ◌⊎◌, inl, inr}
pub use mathlib.Core.Bool.{Bool, true, false, false≢true, ◌&&◌, ◌||◌, not}
pub use mathlib.Core.Option.{Option, none, some}
pub use mathlib.Core.List.{List, [], ◌∷◌, ◌++◌, map}
pub use native.Mathlib.Omega.{arith}
pub use text.Mathlib.Text.{◌==◌ as str_eq}
pub use text.Mathlib.TextEquality.{eq_iff}
