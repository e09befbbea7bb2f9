-- ===== src/Base.antt =====
-- The names that the other modules share: the libraries', passed on, and those of the children.
pub mod Tests
pub mod Lists
pub mod Strings
pub mod Digits
pub mod Int
pub mod Attempt
pub use Tests.{
  ltb, leb, ◌==◌, if◌then◌else◌, ==_iff, not-true, Bool-cases, and_inv, Option-cases,
  holds_below_lem,
}
unfoldable pub use Tests.{holds_below}
pub use Lists.*
pub use Strings.{Text, codes, text_mem, text_eq_iff, text_eq_refl, text_ne}
unfoldable pub use Strings.{text_eq, text_lt}
pub use Prim.Native.Nat.{ℕ, zero, suc, ◌+◌, ◌-◌, ◌*◌, ◌/◌, ◌%◌, ◌^◌, ◌≤◌, ◌<◌, max}
pub use mathlib.Core.Path.{◌≡◌, refl, sym, ap, subst, ◌∙◌}
pub use mathlib.Core.Logic.{◌≢◌, ◌↔◌, ◌⊎◌, inl, inr}
pub use mathlib.Core.Bool.{Bool, true, false, not, ◌&&◌, ◌||◌}
pub use mathlib.Core.Option.{Option, none, some}
pub use mathlib.Core.List.{List, [], ◌∷◌, ◌++◌, map}
pub use native.Mathlib.Omega.{arith}
