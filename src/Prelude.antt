-- ===== src/Prelude.antt =====
-- The names that the other modules share: the libraries', passed on, and those of the children.
mod Tests
mod Lists
mod Order
pub use Tests.{
  ltb, leb, if◌then◌else◌, Testable, ◌==◌, nat_eq, string_eq, pair_eq, beq_refl, Option-cases,
}
unfoldable pub use Tests.{Bool-cases}
unfoldable pub use Lists.{length, take, drop, contains, add, get, put}
pub use Lists.{
  length-append, contains-append, contains-add, get-put, get-put_self, get-put_ne, get-put_cases,
  List-cases, length-put_le, All, All-append, All-map, All-map₂, add_of_contains,
}
pub use Order.{text_leb, text_leb_total, text_leb_antisymm, text_leb_trans}
pub use Prim.Native.Nat.{ℕ, zero, suc, ◌+◌, ◌-◌, ◌≤◌, ◌<◌}
pub use Prim.Native.String.{String}
pub use mathlib.Core.Path.{◌≡◌, refl, sym, ap, ◌∙◌, subst}
pub use mathlib.Core.Logic.{◌≢◌, ◌↔◌, ◌⊎◌, inl, inr}
pub use mathlib.Core.Bool.{Bool, true, false, not, ◌&&◌, ◌||◌}
pub use mathlib.Core.Option.{Option, none, some}
pub use mathlib.Core.List.{List, [], ◌∷◌, ◌++◌, map, Mem}
pub use native.Mathlib.Omega.{arith}
pub use text.Mathlib.TextEquality.{eq_iff}
