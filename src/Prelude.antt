-- ===== src/Prelude.antt =====
-- The names that the modules of the development share: the libraries', passed on, the Boolean
-- tests, lists over the native numbers, and the unsigned words of the source.
mod Tests
mod Lists
mod Arrays
mod Words
pub mod Bits
pub mod Int
pub use Tests.*
pub use Lists.*
unfoldable pub use Arrays.*
pub use Words.*
pub use Prim.Native.Nat.{ℕ, zero, suc, ◌+◌, ◌-◌, ◌*◌, ◌/◌, ◌%◌, ◌^◌, ◌≤◌, ◌<◌}
pub use Prim.Native.String.{String, ◌++◌ as str_append}
pub use text.Mathlib.Text.{◌==◌ as str_eq}
pub use mathlib.Core.Path.{◌≡◌, refl, sym, ap, subst, ◌∙◌}
pub use mathlib.Core.Logic.{◌≢◌, ◌↔◌, ◌⊎◌, inl, inr}
pub use mathlib.Core.Bool.{Bool, true, false, not, ◌&&◌, ◌||◌}
pub use mathlib.Core.Option.{Option, none, some}
pub use mathlib.Core.List.{List, [], ◌∷◌, ◌++◌, map, reverse, reverse-cons}
pub use native.Mathlib.Omega.{arith}
