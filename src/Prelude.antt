-- ===== src/Prelude.antt =====
-- The names that the other modules share: the libraries', passed on, and those of the children.
mod Tests
mod Lists
mod Digits
mod Utf8
mod Machine
pub use Tests.*
pub use Lists.*
pub use Machine.*
pub use Digits.{
  is_digit, IsDigit, NoDigitFirst, digit_value, digits_value, le_digits, le_value, le_value-digits,
  le_digits-lt_ten, length-le_digits, le_digits-ne-nil, digits_value-to_string, to_string-IsDigit,
  to_string-ne-nil, digits_split,
}
pub use Utf8.{Bytes, Str, IsChar, is_utf8-as_bytes, as_bytes-NoDigitFirst, from_utf8-as_bytes}
unfoldable pub use Digits.{to_string}
unfoldable pub use Utf8.{char_utf8, as_bytes, is_utf8, from_utf8}
pub use Prim.Native.Nat.{ℕ, zero, suc, ◌+◌, ◌-◌, ◌*◌, ◌/◌, ◌%◌, ◌^◌, ◌≤◌, ◌<◌}
pub use mathlib.Core.Path.{◌≡◌, refl, sym, ap, ◌∙◌}
pub use mathlib.Core.Logic.{◌≢◌, ◌↔◌, ◌⊎◌, inl, inr}
pub use mathlib.Core.Bool.{Bool, true, false, not, ◌&&◌, ◌||◌}
pub use mathlib.Core.Option.{Option, none, some}
pub use mathlib.Core.List.{List, [], ◌∷◌, ◌++◌, map, append-nil, append_assoc}
pub use native.Mathlib.Omega.{arith}
