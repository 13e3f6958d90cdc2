-- ===== src/Base.antt =====
-- The names that the other modules share: the libraries', passed on, and those of the children.
mod Tests
mod Lists
mod Texts
mod Dicts
mod Sorting
pub use Tests.*
pub use Lists.*
pub use Texts.{◌++ₛ◌, is_empty_text, is_dash, append-not-empty}
pub use Dicts.{
  Eq, string_eq, nat_eq, pair_eq, lookup-insert, lookup-remove, lookup-In, In-lookup, has_key,
  IsDict, lookup_absent, insert-IsDict, remove-IsDict, collect, collected, lookup-collect, members,
  append_to, members-append_to, group_from-IsDict, members-group_from,
}
pub use Sorting.{
  total, total-sort_by, All-sort_by, In-sort_by, In-of_sort_by, In-sort_with, In-of_sort_with,
}
unfoldable pub use Sorting.{sort_by, sort_with}
unfoldable pub use Dicts.{lookup, insert, remove, group_from}
unfoldable pub use Texts.{
  lower_below, lower_at, lower_char, lower, replace_char, is_space, is_blank, contains, prefix,
  strip, before, join, show, is_slug_char, slug_from, strip_left, strip_right, slug,
}
pub use Prim.Native.Nat.{ℕ, zero, suc, ◌+◌, ◌-◌, ◌*◌, ◌/◌, ◌%◌, ◌^◌, ◌≤◌, ◌<◌, min, max}
pub use Prim.Native.String.{String}
pub use Prim.Native.Char.{Char, code}
pub use mathlib.Core.Path.{◌≡◌, refl, sym, ap, ◌∙◌, subst}
pub use mathlib.Core.Logic.{◌≢◌, ◌↔◌, ◌⊎◌, inl, inr}
pub use mathlib.Core.Bool.{Bool, true, false, not, ◌&&◌, ◌||◌}
pub use mathlib.Core.Option.{Option, none, some}
pub use mathlib.Core.List.{List, [], ◌∷◌, ◌++◌, map, append-nil, append_assoc, map-append}
pub use native.Mathlib.Omega.{arith}
pub use text.Mathlib.Text.{◌==◌ as str_eq}
pub use text.Mathlib.TextEquality.{eq_iff}
pub use text.Mathlib.TextPositions.{eq_refl}
