-- ===== src/Prelude.antt =====
-- The names that the modules share: the libraries', passed on, and those of two children.
mod Tests
mod Lists
mod Int
pub use Tests.{
  ltb, leb, nat_beq, nat_beq_iff, if◌then◌else◌, Eq, ◌==◌, nat_eq, string_eq, option_eq, bool_beq,
  option_beq, Bool-cases, Option-cases, &&-eq-true, ◌orelse◌, orelse_lem, orelse-eq-none,
}
pub use Lists.{length, take, length-append, any-append, last?-snoc}
unfoldable pub use Lists.{drop, any, all, filter, last?, elem, find_first, find_last, views}
pub use Int.{ℤ, pos, negsuc, int_eq}
pub use Prim.Native.Nat.{ℕ, zero, suc, ◌+◌, ◌-◌, ◌*◌, ◌/◌, ◌≤◌, ◌<◌, max, min}
pub use Prim.Native.String.{String, ◌++◌ as join}
pub use mathlib.Core.Path.{◌≡◌, refl, sym, ap, ◌∙◌, subst}
pub use mathlib.Core.Logic.{◌≢◌, ◌↔◌, ◌⊎◌, inl, inr}
pub use mathlib.Core.Bool.{Bool, true, false, not, ◌&&◌, ◌||◌}
pub use mathlib.Core.Option.{Option, none, some}
pub use mathlib.Core.List.{List, [], ◌∷◌, ◌++◌, map}
pub use native.Mathlib.Omega.{arith}
pub use text.Mathlib.TextEquality.{eq_iff}
