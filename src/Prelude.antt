-- ===== src/Prelude.antt =====
-- The names that the other modules share: the libraries', passed on, and those of the children.
pub mod Tests
pub mod Lists
pub mod Strings
pub mod Digits
pub mod Chars
pub use Prim.Native.Nat.{ℕ, zero, suc, ◌+◌, ◌-◌, ◌*◌, ◌/◌, ◌%◌, ◌^◌, ◌≤◌, ◌<◌}
pub use mathlib.Core.Path.{◌≡◌, refl, sym, ap, ◌∙◌, subst}
pub use mathlib.Core.Logic.{◌≢◌, ◌↔◌, ◌⊎◌, inl, inr}
pub use mathlib.Core.Bool.{Bool, true, false, not, ◌&&◌, ◌||◌}
pub use mathlib.Core.Option.{Option, none, some}
pub use mathlib.Core.List.{List, [], ◌∷◌, ◌++◌, map}
pub use native.Mathlib.Omega.{arith}
pub use Tests.*
pub use Lists.*
pub use Strings.*
unfoldable pub use Lists.{any}
pub use Chars.*
unfoldable pub use Chars.{char_count, take_chars}
unfoldable pub use Digits.{decimal, hex}
unfoldable pub use Strings.{is_ascii_whitespace, is_ascii_alphabetic, is_ascii_alphanumeric}
unfoldable pub use Strings.{
  white_front, trim_start, to_ascii_lowercase, eq, eq_ignore_ascii_case, contains, starts_with,
  ends_with, trim, trim_quotes, join,
}
