-- ===== src/Prelude/Digits.antt =====
-- Decimal digits: the standard library's `to_string` and `parse` on unsigned numbers, and the
-- little-endian digits that both `to_string` and the engine.io length field are made of.
use Prim.Native.Nat.{ℕ, zero, suc, ◌+◌, ◌-◌, ◌*◌, ◌/◌, ◌%◌, ◌^◌, ◌≤◌, ◌<◌}
use mathlib.Core.Path.{◌≡◌, refl, ap, ◌∙◌}
use mathlib.Core.Logic.{◌≢◌, inl, inr}
use mathlib.Core.Bool.{Bool, true, false, ◌&&◌}
use mathlib.Core.List.{List, [], ◌∷◌, ◌++◌}
use native.Mathlib.Omega.{arith}
use socket_io_server_rust.Prelude.Tests.{leb, ltb, ◌==◌, if◌then◌else◌, Bool-cases}
use socket_io_server_rust.Prelude.Lists.{length, All, All-append}

-- `is_ascii_digit` on a byte or a code point.
abbrev pub is_digit : ℕ → Bool
is_digit c = leb b'0' c && leb c b'9'

abbrev pub IsDigit : ℕ → Type 0
IsDigit c = is_digit c ≡ true

abbrev pub NoDigitFirst : List ℕ → Type 0
NoDigitFirst [] = Unit
NoDigitFirst (c ∷ cs) = is_digit c ≡ false

abbrev pub digit_value : ℕ → ℕ
digit_value c = c - b'0'

-- The number that a run of ASCII digits stands for.
abbrev pub digits_value : ℕ → List ℕ → ℕ
digits_value acc [] = acc
digits_value acc (c ∷ cs) = digits_value (acc * 10 + digit_value c) cs

-- The decimal digits of `v`, least significant first, with no leading zeros; `v` rounds suffice.
abbrev pub le_digits : ℕ → ℕ → List ℕ
le_digits zero v = []
le_digits (suc f) v = let rest = le_digits f (v / 10) in if ltb 0 v then v % 10 ∷ rest else []

abbrev pub le_value : List ℕ → ℕ
le_value [] = 0
le_value (d ∷ ds) = d + 10 * le_value ds

pub le_value-digits : (f v : ℕ) → v ≤ f → le_value (le_digits f v) ≡ v
le_value-digits zero v h = omega arith
le_value-digits (suc f) v h = ground (arith, le_value-digits f (v / 10))

pub le_digits-lt_ten : (f v : ℕ) → All (λ d. d < 10) (le_digits f v)
le_digits-lt_ten zero v = tt
le_digits-lt_ten (suc f) v = ground (arith, le_digits-lt_ten f (v / 10))

pub length-le_digits : (k f v : ℕ) → v < 10 ^ k → length (le_digits f v) ≤ k
length-le_digits k zero v h = omega arith
length-le_digits zero (suc f) v h = ground arith
length-le_digits (suc k) (suc f) v h = ground (arith, length-le_digits k f (v / 10))

pub le_digits-ne-nil : (v : ℕ) → 0 < v → le_digits v v ≢ []
le_digits-ne-nil zero h = absurd (omega arith)
le_digits-ne-nil (suc v) h = ground arith

-- The digits as ASCII, most significant first.
abbrev ascii_be : List ℕ → List ℕ
ascii_be [] = []
ascii_be (d ∷ ds) = ascii_be ds ++ (d + b'0') ∷ []

-- `to_string` of an unsigned number.
unfoldable pub to_string : ℕ → List ℕ
to_string v = if v == 0 then b'0' ∷ [] else ascii_be (le_digits v v)

digits_value-concat :
    (acc c : ℕ) (cs : List ℕ)
    → digits_value acc (cs ++ c ∷ []) ≡ digits_value acc cs * 10 + digit_value c
digits_value-concat acc c [] = refl
digits_value-concat acc c (x ∷ cs) = digits_value-concat (acc * 10 + digit_value x) c cs

digits_value-ascii_be : (ds : List ℕ) → digits_value 0 (ascii_be ds) ≡ le_value ds
digits_value-ascii_be [] = refl
digits_value-ascii_be (d ∷ ds) =
    omega (arith, digits_value-concat 0 (d + b'0') (ascii_be ds), digits_value-ascii_be ds)

ascii_be-IsDigit : (ds : List ℕ) → All (λ d. d < 10) ds → All IsDigit (ascii_be ds)
ascii_be-IsDigit [] h = tt
ascii_be-IsDigit (d ∷ ds) h =
    All-append IsDigit (ascii_be ds) ((d + b'0') ∷ []) (ascii_be-IsDigit ds h.1) (ground arith, tt)

concat-ne-nil : (c : ℕ) (cs : List ℕ) → cs ++ c ∷ [] ≢ []
concat-ne-nil c [] e = cc
concat-ne-nil c (x ∷ cs) e = cc

ascii_be-ne-nil : (ds : List ℕ) → ds ≢ [] → ascii_be ds ≢ []
ascii_be-ne-nil [] h = absurd (h refl)
ascii_be-ne-nil (d ∷ ds) h = concat-ne-nil _ (ascii_be ds)

to_string-suc : (v : ℕ) → to_string (suc v) ≡ ascii_be (le_digits (suc v) (suc v))
unfolding to_string
to_string-suc v = ground arith

-- Parsing what was printed gives the number back.
pub digits_value-to_string : (v : ℕ) → digits_value 0 (to_string v) ≡ v
unfolding to_string
digits_value-to_string zero = refl
digits_value-to_string (suc v) =
    ap (digits_value 0) (to_string-suc v)
    ∙ digits_value-ascii_be (le_digits (suc v) (suc v))
    ∙ le_value-digits (suc v) (suc v) (omega arith)

pub to_string-IsDigit : (v : ℕ) → All IsDigit (to_string v)
unfolding to_string
to_string-IsDigit zero = (refl, tt)
to_string-IsDigit (suc v) =
    rw (to_string-suc v)
      (ascii_be-IsDigit (le_digits (suc v) (suc v)) (le_digits-lt_ten (suc v) (suc v)))

pub to_string-ne-nil : (v : ℕ) → to_string v ≢ []
unfolding to_string
to_string-ne-nil zero = λ e. cc
to_string-ne-nil (suc v) =
    rw (to_string-suc v)
      (ascii_be-ne-nil (le_digits (suc v) (suc v)) (le_digits-ne-nil (suc v) (omega arith)))

-- A text splits at the end of its leading digits.
pub digits_split :
    (s : List ℕ)
    → (ds : List ℕ) × (rest : List ℕ) × (s ≡ ds ++ rest) × All IsDigit ds × NoDigitFirst rest
digits_split [] = ([], [], refl, tt, tt)
digits_split (c ∷ cs) = elim (Bool-cases (is_digit c)) [
  | inl h ↦
      let (ds, rest, e, all, first) = digits_split cs in
      (c ∷ ds, rest, ap (λ t. c ∷ t) e, (h, all), first)
  | inr h ↦ ([], c ∷ cs, refl, tt, h)
]
