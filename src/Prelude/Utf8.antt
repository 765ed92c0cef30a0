-- ===== src/Prelude/Utf8.antt =====
-- Rust's `String` and `&str`: a list of Unicode scalar values, its UTF-8 bytes, and the check that
-- `std::str::from_utf8` makes.
use Prim.Native.Nat.{ℕ, zero, suc, ◌+◌, ◌-◌, ◌*◌, ◌/◌, ◌%◌, ◌<◌}
use mathlib.Core.Path.{◌≡◌, refl, ap, ◌∙◌}
use mathlib.Core.Logic.{◌⊎◌}
use mathlib.Core.Bool.{Bool, true, false, ◌&&◌}
use mathlib.Core.Option.{Option, none, some}
use mathlib.Core.List.{List, [], ◌∷◌, ◌++◌, append_assoc}
use native.Mathlib.Omega.{arith}
use socket_io_server_rust.Prelude.Tests.{leb, ltb, ◌==◌, if◌then◌else◌}
use socket_io_server_rust.Prelude.Lists.{All}
use socket_io_server_rust.Prelude.Digits.{is_digit, NoDigitFirst}

abbrev pub Bytes : Type 0
Bytes = List ℕ

abbrev pub Str : Type 0
Str = List ℕ

-- A Unicode scalar value: no surrogate.
abbrev pub IsChar : ℕ → Type 0
IsChar c = (c < 0xd800) ⊎ ((0xdfff < c) × (c < 0x110000))

-- `char::encode_utf8`.
unfoldable pub char_utf8 : ℕ → Bytes
char_utf8 c =
    if ltb c 0x80
    then c ∷ []
    else if ltb c 0x800
    then (0xc0 + c / 64) ∷ (0x80 + c % 64) ∷ []
    else if ltb c 0x10000
    then (0xe0 + c / 4096) ∷ (0x80 + c / 64 % 64) ∷ (0x80 + c % 64) ∷ []
    else (0xf0 + c / 262144) ∷ (0x80 + c / 4096 % 64) ∷ (0x80 + c / 64 % 64) ∷ (0x80 + c % 64) ∷ []

-- `str::as_bytes`.
unfoldable pub as_bytes : Str → Bytes
unfolding char_utf8
as_bytes [] = []
as_bytes (c ∷ cs) = char_utf8 c ++ as_bytes cs

-- `pending more lo hi`: a continuation byte in [lo, hi] is due, and `more` behind it.
pub data State : Type 0 where
  start : State
  pending : ℕ → ℕ → ℕ → State

within : ℕ → ℕ → ℕ → Bool
within lo hi b = leb lo b && leb b hi

after_byte : ℕ → State
after_byte zero = start
after_byte (suc more) = pending more 0x80 0xbf

-- The well-formed byte sequences of Unicode's table 3-7, which `from_utf8` accepts.
next_state : State → ℕ → Option State
unfolding within after_byte
next_state start b =
    if ltb b 0x80
    then some start
    else if within 0xc2 0xdf b
    then some (pending 0 0x80 0xbf)
    else if b == 0xe0
    then some (pending 1 0xa0 0xbf)
    else if b == 0xed
    then some (pending 1 0x80 0x9f)
    else if within 0xe1 0xef b
    then some (pending 1 0x80 0xbf)
    else if b == 0xf0
    then some (pending 2 0x90 0xbf)
    else if within 0xf1 0xf3 b
    then some (pending 2 0x80 0xbf)
    else if b == 0xf4
    then some (pending 2 0x80 0x8f)
    else none
next_state (pending more lo hi) b = if within lo hi b then some (after_byte more) else none

check_from : State → Bytes → Bool
check_from start [] = true
check_from (pending more lo hi) [] = false
check_from s (b ∷ bs) = elim (next_state s b) [ none ↦ false | some s' ↦ check_from s' bs ]

-- `from_utf8(bytes).is_ok()`.
unfoldable pub is_utf8 : Bytes → Bool
unfolding check_from next_state
is_utf8 = check_from start

check_from-char_utf8 :
    (c : ℕ) (rest : Bytes)
    → IsChar c
    → check_from start (char_utf8 c ++ rest) ≡ check_from start rest
unfolding check_from next_state char_utf8
check_from-char_utf8 c rest h = ground arith

-- The bytes of a string are valid.
pub is_utf8-as_bytes : (s : Str) → All IsChar s → is_utf8 (as_bytes s) ≡ true
unfolding is_utf8 as_bytes
is_utf8-as_bytes [] h = refl
is_utf8-as_bytes (c ∷ cs) h = check_from-char_utf8 c (as_bytes cs) h.0 ∙ is_utf8-as_bytes cs h.1

char_utf8_first : (c : ℕ) (rest : Bytes) → is_digit c ≡ false → NoDigitFirst (char_utf8 c ++ rest)
unfolding char_utf8
char_utf8_first c rest h = ground arith

-- Only a digit is written with a digit in front.
pub as_bytes-NoDigitFirst :
    (s : Str) (rest : Bytes)
    → NoDigitFirst s
    → NoDigitFirst rest
    → NoDigitFirst (as_bytes s ++ rest)
unfolding as_bytes
as_bytes-NoDigitFirst [] rest h r = r
as_bytes-NoDigitFirst (c ∷ cs) rest h r =
    rw (append_assoc (char_utf8 c) (as_bytes cs) rest) (char_utf8_first c (as_bytes cs ++ rest) h)

-- The bits of a first byte, and those of a byte behind it.
lead_bits : ℕ → ℕ
lead_bits b =
    if ltb b 0x80
    then b
    else if ltb b 0xe0
    then b - 0xc0
    else if ltb b 0xf0
    then b - 0xe0
    else b - 0xf0

next_bits : State → ℕ → ℕ → ℕ
unfolding lead_bits
next_bits start acc b = lead_bits b
next_bits (pending more lo hi) acc b = acc * 64 + (b - 0x80)

push_char : ℕ → Option Str → Option Str
push_char c none = none
push_char c (some s) = some (c ∷ s)

-- The character that ends here, if one does, in front of the others.
emit : State → ℕ → Option Str → Option Str
emit start c o = push_char c o
emit (pending more lo hi) c o = o

-- The bits that are carried to the next byte.
carried : State → ℕ → ℕ
carried start v = 0
carried (pending more lo hi) v = v

decode_from : State → ℕ → Bytes → Option Str
unfolding next_bits emit carried
decode_from start acc [] = some []
decode_from (pending more lo hi) acc [] = none
decode_from s acc (b ∷ bs) = elim (next_state s b) [
  | none ↦ none
  | some s' ↦ emit s' (next_bits s acc b) (decode_from s' (carried s' (next_bits s acc b)) bs)
]

-- `std::str::from_utf8`, where `none` is its error.
unfoldable pub from_utf8 : Bytes → Option Str
unfolding decode_from next_state push_char
from_utf8 = decode_from start 0

decode_from-char_utf8 :
    (c : ℕ) (rest : Bytes)
    → IsChar c
    → decode_from start 0 (char_utf8 c ++ rest) ≡ push_char c (decode_from start 0 rest)
unfolding decode_from next_state char_utf8
decode_from-char_utf8 c rest h = ground arith

-- A string is read back from its bytes.
pub from_utf8-as_bytes : (s : Str) → All IsChar s → from_utf8 (as_bytes s) ≡ some s
unfolding from_utf8 as_bytes
from_utf8-as_bytes [] h = refl
from_utf8-as_bytes (c ∷ cs) h =
    decode_from-char_utf8 c (as_bytes cs) h.0 ∙ ap (push_char c) (from_utf8-as_bytes cs h.1)
