-- ===== src/Common.antt =====
-- The names that every other module shares: those of the libraries, passed on, the tests on numbers,
-- lists measured by native numbers, signed integers, and Go's strings as lists of bytes.
mod Tests
mod Lists
mod Int
mod Strings
mod Maps
pub use Tests.*
pub use Lists.*
pub use Int.*
pub use Strings.*
pub use Maps.*
unfoldable pub use Maps.{lookup, erase, put}
unfoldable pub use Int.{◌+ℤ◌, ◌-ℤ◌, sub_ℕ, scale, ltb_ℤ}
unfoldable pub use Strings.{
  text_eq, split, join, trim_prefix, has_prefix, has_suffix, trim_left, trim_space, to_lower,
  lower_byte, is_space, is_space_2, is_space_3, trim_runes, trim_end, contains_byte,
}
pub use Prim.Native.Nat.{ℕ, zero, suc, ◌+◌, ◌-◌, ◌*◌, ◌/◌, ◌%◌, ◌^◌, ◌≤◌, ◌<◌}
pub use mathlib.Core.Path.{◌≡◌, refl, sym, ap, ◌∙◌, subst}
pub use mathlib.Core.Logic.{◌≢◌, ◌↔◌, ◌⊎◌, inl, inr}
pub use mathlib.Core.Bool.{Bool, true, false, not, ◌&&◌, ◌||◌}
pub use mathlib.Core.Option.{Option, none, some}
pub use mathlib.Core.List.{List, [], ◌∷◌, ◌++◌, map}
pub use native.Mathlib.Omega.{arith}
