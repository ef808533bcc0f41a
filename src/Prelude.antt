-- ===== src/Prelude.antt =====
-- Names, tests, lists and results that the components share. No code of the repository is modelled
-- here: these are the operations of the language that the code is written in.
mod Tests
mod Lists
mod Results
mod Text
pub mod Maps
pub use Tests.*
pub use Lists.*
pub use Results.*
unfoldable pub use Text.{same_text}
pub use Text.{codes, same_text-eq, same_text_refl}
pub use Prim.Native.Nat.{ℕ, zero, suc, ◌+◌, ◌-◌, ◌*◌, ◌/◌, ◌%◌, ◌^◌, ◌≤◌, ◌<◌, min, max}
pub use mathlib.Core.Path.{◌≡◌, refl, sym, ap, subst, ◌∙◌}
pub use mathlib.Core.Logic.{◌≢◌, ◌↔◌, ◌⊎◌, inl, inr}
pub use mathlib.Core.Bool.{Bool, true, false, not, ◌&&◌, ◌||◌}
pub use mathlib.Core.Option.{Option, none, some}
pub use mathlib.Core.List.{List, [], ◌∷◌, ◌++◌, map, reverse}
pub use native.Mathlib.Omega.{arith}
