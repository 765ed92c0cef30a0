-- ===== src/Nom/Model.antt =====
-- Concrete combinators that meet the laws of the interface: the tests run with them.
mod Folds
use socket_io_server_rust.Prelude.{
  ℕ, zero, suc, ◌<◌, ◌≡◌, ◌≢◌, refl, Bool, true, false, not, List, [], ◌∷◌, ◌++◌, All, length,
  arith, ◌==◌, leb, if◌then◌else◌, ◌⊎◌, inl, inr, is_digit, IsDigit, NoDigitFirst, append-nil,
}
use socket_io_server_rust.Nom.{
  Input, ErrorKind, digit, eof, char, take_till1, many0, IResult, parsed, error, failure, panicked,
  Combinators,
}
use socket_io_server_rust.Nom.Model.Folds.{
  alt_model, alt_model_first, or_else, fold_after, fold_loop, fold_model, fold_model_step,
  fold_model_stuck,
}

-- The longest prefix of elements that do not stop, and the rest.
span : (ℕ → Bool) → Input → Input × Input
span stop [] = ([], [])
span stop (x ∷ xs) =
    let (ys, rest) = span stop xs in if stop x then ([], x ∷ xs) else (x ∷ ys, rest)

abbrev Stops : (ℕ → Bool) → Input → Type 0
Stops stop [] = Unit
Stops stop (y ∷ rest) = stop y ≡ true

span-append :
    (stop : ℕ → Bool) (xs rest : Input)
    → All (λ x. stop x ≡ false) xs
    → Stops stop rest
    → span stop (xs ++ rest) ≡ (xs, rest)
unfolding span
span-append stop [] [] h r = refl
span-append stop [] (y ∷ rest) h r = rw r
span-append stop (x ∷ xs) rest h r = rw (h.0, span-append stop xs rest h.1 r)

-- A non-empty prefix, or the error.
prefix1 : ErrorKind → Input → Input × Input → IResult Input
prefix1 k s ([], rest) = error s k
prefix1 k s (x ∷ xs, rest) = parsed (rest, x ∷ xs)

till1 : ErrorKind → (ℕ → Bool) → Input → IResult Input
till1 k stop s = prefix1 k s (span stop s)

till1-append :
    (k : ErrorKind) (stop : ℕ → Bool) (xs rest : Input)
    → xs ≢ []
    → All (λ x. stop x ≡ false) xs
    → Stops stop rest
    → till1 k stop (xs ++ rest) ≡ parsed (rest, xs)
unfolding till1 prefix1
till1-append k stop [] rest ne h r = absurd (ne refl)
till1-append k stop (x ∷ xs) rest ne h r = rw (span-append stop (x ∷ xs) rest h r)

till1_none :
    (k : ErrorKind) (stop : ℕ → Bool) (s : Input) → Stops stop s → till1 k stop s ≡ error s k
unfolding till1 prefix1
till1_none k stop s r = rw (span-append stop [] s tt r)

till1_end :
    (k : ErrorKind) (stop : ℕ → Bool) (xs : Input)
    → xs ≢ []
    → All (λ x. stop x ≡ false) xs
    → till1 k stop xs ≡ parsed ([], xs)
till1_end k stop xs ne h = rw append-nil at (till1-append k stop xs [] ne h tt)

take_model : ℕ → Input → IResult Input
take_model zero s = parsed (s, [])
take_model (suc n) [] = error [] eof
take_model (suc n) (x ∷ xs) = elim (take_model n xs) [
  | parsed (rest, ys) ↦ parsed (rest, x ∷ ys)
  | _ ↦ error (x ∷ xs) eof
]

take_model-append : (xs rest : Input) → take_model (length xs) (xs ++ rest) ≡ parsed (rest, xs)
unfolding take_model
take_model-append [] rest = refl
take_model-append (x ∷ xs) rest = rw (take_model-append xs rest)

take_model_eof : (n : ℕ) (s : Input) → length s < n → take_model n s ≡ error s eof
unfolding take_model
take_model_eof zero s h = absurd (omega arith)
take_model_eof (suc n) [] h = refl
take_model_eof (suc n) (x ∷ xs) h = rw (take_model_eof n xs (omega arith))

le_u8_model : Input → IResult ℕ
le_u8_model [] = error [] eof
le_u8_model (b ∷ rest) = parsed (rest, b)

one_char_model : ℕ → Input → IResult ℕ
one_char_model c [] = error [] char
one_char_model c (d ∷ rest) = if c == d then parsed (rest, d) else error (d ∷ rest) char

one_char_model-cons : (c : ℕ) (rest : Input) → one_char_model c (c ∷ rest) ≡ parsed (rest, c)
unfolding one_char_model
one_char_model-cons c rest = ground arith

one_char_model-ne :
    (c d : ℕ) (rest : Input) → c ≢ d → one_char_model c (d ∷ rest) ≡ error (d ∷ rest) char
unfolding one_char_model
one_char_model-ne c d rest h = ground arith

not_digit : ℕ → Bool
not_digit c = not (is_digit c)

NoDigitFirst-Stops : (s : Input) → NoDigitFirst s → Stops not_digit s
unfolding not_digit
NoDigitFirst-Stops [] h = tt
NoDigitFirst-Stops (c ∷ cs) h = rw h

IsDigit-not_digit : (s : Input) → All IsDigit s → All (λ c. not_digit c ≡ false) s
unfolding not_digit
IsDigit-not_digit [] h = tt
IsDigit-not_digit (c ∷ cs) h = (rw h.0, IsDigit-not_digit cs h.1)

module _ {O : Type 0} where
  -- A value of the interface: its laws can be met.
  unfoldable pub model : Combinators O
  unfolding fold_model fold_loop fold_after alt_model or_else till1 prefix1 span not_digit
      one_char_model le_u8_model take_model take_model-append take_model_eof till1-append
      IsDigit-not_digit NoDigitFirst-Stops till1_none till1_end one_char_model-cons
      one_char_model-ne span-append
  model = record {
    take = take_model;
    take-append = take_model-append;
    take_eof = take_model_eof;
    le_u8 = le_u8_model;
    le_u8-cons = λ b rest. refl;
    le_u8-nil = refl;
    digit1 = till1 digit not_digit;
    digit1-append = λ ds rest ne h r.
        till1-append digit not_digit ds rest ne (IsDigit-not_digit ds h)
          (NoDigitFirst-Stops rest r);
    digit1_none = λ s h. till1_none digit not_digit s (NoDigitFirst-Stops s h);
    one_char = one_char_model;
    one_char-cons = one_char_model-cons;
    one_char-ne = one_char_model-ne;
    one_char-nil = λ c. refl;
    take_till1 = till1 take_till1;
    take_till1-append = λ p xs y rest ne h r. till1-append take_till1 p xs (y ∷ rest) ne h r;
    take_till1_end = λ p xs ne h. till1_end take_till1 p xs ne h;
    take_till1_none = λ p y rest r. till1_none take_till1 p (y ∷ rest) r;
    take_till1-nil = λ p. till1_none take_till1 p [] tt;
    alt = alt_model;
    alt_first = alt_model_first;
    alt_second = λ f g s i k e. rw (e, alt_model);
    fold_many0 = fold_model;
    fold_many0_step = fold_model_step;
    fold_many0_stuck = fold_model_stuck;
    fold_many0-error = λ f acc g s i k e. rw (e, fold_model, fold_loop);
    fold_many0-failure = λ f acc g s i k e. rw (e, fold_model, fold_loop);
    fold_many0-panicked = λ f acc g s e. rw (e, fold_model, fold_loop);
  }
