-- ===== src/SocketParser/Counts.antt =====
-- socket_io_parser/src/decoder.rs: the numbers that `digits_to_u32` makes of digits, and its bounds.
use native.Mathlib.Nat.{pow-le-pow_right}
use socket_io_server_rust.Prelude.{
  ℕ, suc, ◌+◌, ◌-◌, ◌*◌, ◌^◌, ◌≤◌, ◌<◌, ltb, ltb→lt, ◌≡◌, ◌⊎◌, refl, ap, sym, ◌∙◌, true, false,
  Bool-cases, if◌then◌else◌, inl, inr, none, some, [], ◌∷◌, length, All, IsDigit, is_digit,
  digit_value, digits_value, u32_bound, fits_u32, Str, ok, panic, arith,
}
use socket_io_server_rust.SocketParser.Parsing.{digit_at, digits_fold, digits_to_u32}

-- Each digit times the power of ten that the fold gives it.
abbrev scaled : Str → ℕ
scaled [] = 0
scaled (c ∷ cs) = (c - 48) * 10 ^ length (c ∷ cs) + scaled cs

pow_ten-suc : (n : ℕ) → 10 ^ suc n ≡ 10 * 10 ^ n
pow_ten-suc n = omega arith

shift : (a d p v : ℕ) → (a * 10 + d) * p + v ≡ a * (10 * p) + ((0 * 10 + d) * p + v)
shift a d p v = omega arith

digits_value-split : (a : ℕ) (ds : Str) → digits_value a ds ≡ a * 10 ^ length ds + digits_value 0 ds
digits_value-split a [] = omega arith
digits_value-split a (c ∷ cs) =
    digits_value-split (a * 10 + digit_value c) cs
    ∙ shift a (digit_value c) (10 ^ length cs) (digits_value 0 cs)
    ∙ ap (λ x. a * x + ((0 * 10 + digit_value c) * 10 ^ length cs + digits_value 0 cs))
        (sym (pow_ten-suc (length cs)))
    ∙ ap (λ x. a * 10 ^ length (c ∷ cs) + x) (sym (digits_value-split (0 * 10 + digit_value c) cs))

scale : (d p v : ℕ) → d * (10 * p) + 10 * v ≡ 10 * ((0 * 10 + d) * p + v)
scale d p v = omega arith

scaled-digits_value : (ds : Str) → scaled ds ≡ 10 * digits_value 0 ds
scaled-digits_value [] = refl
scaled-digits_value (c ∷ cs) =
    ap (λ x. (c - 48) * 10 ^ length (c ∷ cs) + x) (scaled-digits_value cs)
    ∙ ap (λ x. (c - 48) * x + 10 * digits_value 0 cs) (pow_ten-suc (length cs))
    ∙ scale (c - 48) (10 ^ length cs) (digits_value 0 cs)
    ∙ ap (λ x. 10 * x) (sym (digits_value-split (0 * 10 + digit_value c) cs))

pow_ten-le : (n m : ℕ) → n ≤ m → 10 ^ n ≤ 10 ^ m
pow_ten-le n m h = pow-le-pow_right (omega arith) h

pow_ten_fits : (n : ℕ) → n ≤ 9 → 10 ^ n < u32_bound
pow_ten_fits n h = omega (arith, pow_ten-le n 9 h)

pow_ten_overflows : (n : ℕ) → 9 < n → fits_u32 (10 ^ n) ≡ none
pow_ten_overflows n h = ground (arith, pow_ten-le 10 n h)

fits_some : (n : ℕ) → n < u32_bound → fits_u32 n ≡ some n
fits_some n h = ground arith

fits-cases : (n : ℕ) → ((fits_u32 n ≡ some n) × (n < u32_bound)) ⊎ (fits_u32 n ≡ none)
fits-cases n = ground arith

digit_at_fits :
    (n acc c : ℕ)
    → n ≤ 9
    → acc + (c - 48) * 10 ^ n < u32_bound
    → digit_at n acc c ≡ some (acc + (c - 48) * 10 ^ n)
digit_at_fits n acc c h small =
    rw (fits_some (10 ^ n) (pow_ten_fits n h), digit_at)
      (rw (fits_some ((c - 48) * 10 ^ n) (omega arith)) (fits_some _ small))

-- A step is a panic, or adds the scaled digit, and the sum fits.
digit_at-cases :
    (n acc c : ℕ)
    → (digit_at n acc c ≡ none)
      ⊎ ((digit_at n acc c ≡ some (acc + (c - 48) * 10 ^ n))
          × (acc + (c - 48) * 10 ^ n < u32_bound))
digit_at-cases n acc c = elim (fits-cases (10 ^ n)) [
  | inr e ↦ inl (rw (e, digit_at) refl)
  | inl (e, _) ↦ elim (fits-cases ((c - 48) * 10 ^ n)) [
    | inr e' ↦ inl (rw (e, digit_at) (rw e' refl))
    | inl (e', _) ↦ elim (fits-cases (acc + (c - 48) * 10 ^ n)) [
      | inr e'' ↦ inl (rw (e, digit_at) (rw e' e''))
      | inl (e'', small) ↦ inr (rw (e, digit_at) (rw e' e''), small)
    ]
  ]
]

step_none :
    (n k acc c : ℕ) (cs : Str)
    → is_digit c ≡ true
    → digit_at (n - k) acc c ≡ none
    → digits_fold n k (c ∷ cs) acc ≡ panic
step_none n k acc c cs d e = rw (d, digits_fold) (rw e refl)

step_some :
    (n k acc c acc' : ℕ) (cs : Str)
    → is_digit c ≡ true
    → digit_at (n - k) acc c ≡ some acc'
    → digits_fold n k (c ∷ cs) acc ≡ digits_fold n (k + 1) cs acc'
step_some n k acc c acc' cs d e = rw (d, digits_fold) (rw e (rw d refl))

fold_fits :
    (ds : Str) (n k acc : ℕ)
    → n ≡ k + length ds
    → All IsDigit ds
    → length ds ≤ 9
    → acc + scaled ds < u32_bound
    → digits_fold n k ds acc ≡ ok (acc + scaled ds)
fold_fits [] n k acc e all l small = ap ok (omega arith)
fold_fits (c ∷ cs) n k acc e (d, all) l small =
    let next = acc + (c - 48) * 10 ^ length (c ∷ cs) in
    let power : n - k ≡ length (c ∷ cs) = omega arith in
    step_some n k acc c next cs d (rw power (digit_at_fits (length (c ∷ cs)) acc c l (omega arith)))
    ∙ fold_fits cs n (k + 1) next (omega arith) all (omega arith) (omega arith)
    ∙ ap ok (omega arith)

fold_large :
    (ds : Str) (n k acc : ℕ)
    → n ≡ k + length ds
    → All IsDigit ds
    → acc < u32_bound
    → u32_bound ≤ acc + scaled ds
    → digits_fold n k ds acc ≡ panic
fold_large [] n k acc e all small large = absurd (omega arith)
fold_large (c ∷ cs) n k acc e (d, all) small large =
    let next = acc + (c - 48) * 10 ^ length (c ∷ cs) in
    let power : n - k ≡ length (c ∷ cs) = omega arith in
    elim (digit_at-cases (length (c ∷ cs)) acc c) [
      | inl over ↦ step_none n k acc c cs d (rw power over)
      | inr (sum, fits) ↦
          step_some n k acc c next cs d (rw power sum)
          ∙ fold_large cs n (k + 1) next (omega arith) all fits (omega arith)
    ]

fold_long : (ds : Str) → All IsDigit ds → 9 < length ds → digits_fold (length ds) 0 ds 0 ≡ panic
fold_long [] all long = absurd (omega arith)
fold_long (c ∷ cs) (d, all) long =
    let power : length (c ∷ cs) - 0 ≡ length (c ∷ cs) = omega arith in
    step_none (length (c ∷ cs)) 0 0 c cs d
      (rw power (rw (pow_ten_overflows (length (c ∷ cs)) long, digit_at) refl))

le_of_ltb : (a b : ℕ) → ltb a b ≡ false → b ≤ a
le_of_ltb a b h = ground arith

-- Digits are read as ten times the number that they stand for. It panics where that does not fit 32
-- bits, and on ten digits or more, whatever they are.
pub digits_to_u32-digits :
    (ds : Str)
    → All IsDigit ds
    → digits_to_u32 ds ≡ (
        if ltb 9 (length ds)
        then panic
        else if ltb (10 * digits_value 0 ds) u32_bound
        then ok (10 * digits_value 0 ds)
        else panic)
unfolding digits_to_u32
digits_to_u32-digits ds all = elim (Bool-cases (ltb 9 (length ds))) [
  | inl long ↦ rw long (fold_long ds all (ltb→lt 9 (length ds) long))
  | inr short ↦ rw short (elim (Bool-cases (ltb (10 * digits_value 0 ds) u32_bound)) [
    | inl fits ↦ rw fits (
        fold_fits ds (length ds) 0 0 (omega arith) all (le_of_ltb 9 (length ds) short)
          (omega (arith, scaled-digits_value ds, ltb→lt (10 * digits_value 0 ds) u32_bound fits))
        ∙ ap ok (omega (arith, scaled-digits_value ds)))
    | inr wide ↦ rw wide (
        fold_large ds (length ds) 0 0 (omega arith) all (omega arith) (
          omega (arith, scaled-digits_value ds, le_of_ltb (10 * digits_value 0 ds) u32_bound wide)))
  ])
]
