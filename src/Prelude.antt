-- ===== src/Prelude.antt =====
-- The names that every module shares: the libraries', passed on, and those of the children below.
mod Tests
pub mod Lists
pub mod Int
pub mod Text
pub mod Join
pub mod Best
pub mod Result
pub mod Float
pub mod Map
pub use Tests.*
pub use Prim.Native.Nat.{ℕ, zero, suc, ◌+◌, ◌-◌, ◌*◌, ◌/◌, ◌%◌, ◌^◌, ◌≤◌, ◌<◌}
pub use Prim.Native.String.{String}
pub use mathlib.Core.Path.{◌≡◌, refl, sym, ap, subst, ◌∙◌, fun_ext}
pub use mathlib.Core.Logic.{◌≢◌, ◌↔◌, ◌⊎◌, inl, inr}
pub use mathlib.Core.Bool.{Bool, true, false, not, ◌&&◌, ◌||◌}
pub use mathlib.Core.Option.{Option, none, some}
pub use mathlib.Core.List.{List, [], ◌∷◌, ◌++◌, map}
pub use native.Mathlib.Omega.{arith}
pub use text.Mathlib.Text.{◌==◌ as str_eq}
pub use text.Mathlib.TextEquality.{eq_iff}
