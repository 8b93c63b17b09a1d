-- ===== src/Common.antt =====
-- The names that the other modules share: the libraries', passed on, and those of the children:
-- tests, lists, Go's strings, association maps, results, sorting, paths, base64 and printed dates.
mod Tests
mod Lists
mod Text
pub mod Words
pub mod Assoc
pub mod Results
pub mod Sorting
pub mod Format
pub mod Base64
pub mod Paths
pub use Tests.*
pub use Lists.*
unfoldable pub use Text.{
  str_eq, has_prefix, has_suffix, trim_prefix, trim_left, trim_right, trim_space, split_on, fields,
  is_space, str_lt, contains, utf8, drop_prefix, to_lower,
}
pub use Text.{
  has_prefix_cut, has_prefix-append, drop_prefix-append, has_suffix_cut, has_suffix-append, Str,
  codes, str_eq_iff, str_eq_refl, nat_eq, str_instance, Eq, ◌==◌, eq_iff, not_eq,
}
pub use Prim.Native.Nat.{ℕ, zero, suc, ◌+◌, ◌-◌, ◌*◌, ◌/◌, ◌%◌, ◌^◌, ◌≤◌, ◌<◌}
pub use Prim.Native.String.{String}
pub use mathlib.Core.Path.{◌≡◌, refl, sym, ap, ◌∙◌}
pub use mathlib.Core.Logic.{◌≢◌, ◌↔◌, ◌⊎◌, inl, inr}
pub use mathlib.Core.Bool.{Bool, true, false, not, ◌&&◌, ◌||◌}
pub use mathlib.Core.Option.{Option, none, some}
pub use mathlib.Core.List.{List, [], ◌∷◌, ◌++◌, map, append_assoc, append-nil}
pub use native.Mathlib.Omega.{arith}
