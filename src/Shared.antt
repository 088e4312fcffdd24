-- ===== src/Shared.antt =====
-- The names that every part uses: the libraries', passed on, and those of the children: Boolean
-- tests (`Tests`), lists over the native numbers (`Lists`), Go maps with text keys (`Dict`) and
-- Go's clock (`Clock`) and signed numbers (`Int`).
mod Tests
mod Lists
mod Clock
mod Int
pub mod Dict
pub mod Text
pub use Tests.*
pub use Lists.*
pub use Clock.*
pub use Int.*
pub use Prim.Native.Nat.{ℕ, zero, suc, ◌+◌, ◌-◌, ◌*◌, ◌/◌, ◌%◌, ◌^◌, ◌≤◌, ◌<◌, min}
pub use Prim.Native.String.{String}
pub use mathlib.Core.Path.{◌≡◌, refl, sym, ap, ◌∙◌}
pub use mathlib.Core.Logic.{◌≢◌, ◌↔◌, ◌⊎◌, inl, inr}
pub use mathlib.Core.Bool.{Bool, true, false, not, ◌&&◌, ◌||◌}
pub use mathlib.Core.Option.{Option, none, some}
pub use mathlib.Core.List.{List, [], ◌∷◌, ◌++◌, map}
pub use native.Mathlib.Omega.{arith}
pub use text.Mathlib.Text.{◌==◌ as str_eq}
pub use text.Mathlib.TextEquality.{eq_iff}
pub use text.Mathlib.TextPositions.{eq_refl}
