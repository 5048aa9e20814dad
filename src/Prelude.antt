-- ===== src/Prelude.antt =====
-- Names and lemmas that the other files share.
mod Tests
mod Lists
mod Texts
mod Results
pub mod Int
pub mod Sums
pub use Tests.*
pub use Results.*
pub use Lists.*
unfoldable pub use Texts.{update, strip}
pub use Texts.{str_eq, str_eq_iff, str_eq_refl, update_self, update_ne}
pub use Prim.Native.Nat.{ℕ, zero, suc, ◌+◌, ◌-◌, ◌*◌, ◌/◌, ◌%◌, ◌≤◌, ◌<◌, min, max}
pub use Prim.Native.String.{String}
pub use mathlib.Core.Path.{◌≡◌, refl, sym, ap, ◌∙◌}
pub use mathlib.Core.Logic.{◌≢◌, ◌↔◌, ◌⊎◌, inl, inr}
pub use mathlib.Core.Bool.{Bool, true, false, not, ◌&&◌, ◌||◌}
pub use mathlib.Core.Option.{Option, none, some}
pub use mathlib.Core.List.{List, [], ◌∷◌, ◌++◌, map}
pub use native.Mathlib.Omega.{arith}
