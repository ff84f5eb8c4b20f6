-- ===== src/Prelude.antt =====
-- The names that the other modules share: the libraries', passed on, and those of the children.
mod Tests
mod Lists
mod Texts
mod Sort
mod Int
mod Results
pub use Tests.*
pub use Lists.*
pub use Results.*
unfoldable pub use Texts.{Text, codes, text_eq, text_lt, has_prefix, Assoc, lookup, insert}
pub use Texts.{text_eq_iff, text_lt_irrefl, text_lt_trans, text_lt_total, lookup-insert}
unfoldable pub use Sort.{insert_stable, sort_stable, IsSorted}
pub use Sort.{
  IsStrictOrder, sort_stable-perm, sort_stable-IsSorted, sort_stable-Any, sort_stable-All,
  insert_stable-All, length-sort_stable, text_lt-order, Any-sort_stable,
}
pub use Int.{ℤ, pos, negsuc}
unfoldable pub use Int.{pos_part, neg_part, sub_ℕ, ◌+ℤ◌, ◌-ℤ◌, ◌≤ℤ◌, leb_ℤ, ltb_ℤ}
pub use Int.{int_laws, +ℤ_parts, -ℤ_parts, eq_of_parts}
pub use Prim.Native.Nat.{ℕ, zero, suc, ◌+◌, ◌-◌, ◌*◌, ◌/◌, ◌%◌, ◌^◌, ◌≤◌, ◌<◌, min, max}
pub use Prim.Native.String.{String}
pub use mathlib.Core.Path.{◌≡◌, refl, sym, ap, ◌∙◌, subst}
pub use mathlib.Core.Logic.{◌≢◌, ◌↔◌, ◌⊎◌, inl, inr}
pub use mathlib.Core.Bool.{Bool, true, false, not, ◌&&◌, ◌||◌}
pub use mathlib.Core.Option.{Option, none, some}
pub use mathlib.Core.List.{List, [], ◌∷◌, ◌++◌, map, append-nil, append_assoc}
pub use native.Mathlib.Omega.{arith}
