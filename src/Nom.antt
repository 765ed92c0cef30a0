-- ===== src/Nom.antt =====
-- The parser combinators of the `nom` crate, which the two parser crates are written with: the
-- result type that their code matches on, and the combinators as an interface, with the laws of
-- their documentation. Bytes and characters are both numbers here.
pub mod Model
use socket_io_server_rust.Prelude.{
  ℕ, ◌<◌, ◌≡◌, ◌≢◌, Bool, true, false, List, [], ◌∷◌, ◌++◌, All, length, IsDigit, NoDigitFirst,
}

abbrev pub Input : Type 0
Input = List ℕ

pub data ErrorKind : Type 0 where
  digit eof char alpha_numeric take_while1 take_till1 many0 satisfy : ErrorKind

-- `nom::IResult`: the rest of the input and a value, `Err::Error` (another branch may be tried) or
-- `Err::Failure` (none may). `panicked` is the unwinding of a Rust panic: an overflow that is
-- checked, or an index out of bounds.
pub data IResult {ℓ} (A : Type ℓ) : Type ℓ where
  parsed : Input × A → IResult A
  error : Input → ErrorKind → IResult A
  failure : Input → ErrorKind → IResult A
  panicked : IResult A

-- The operator `?` on each step of a parser.
infixl 5 ◌>>=◌
abbrev pub ◌>>=◌ {ℓ κ} : {A : Type ℓ} {B : Type κ} → IResult A → (Input × A → IResult B) → IResult B
parsed r >>= f = f r
error i k >>= f = error i k
failure i k >>= f = failure i k
panicked >>= f = panicked

-- The combinators, for parsers of values of `O`.
pub record Combinators (O : Type 0) : Type 0 where
  pub take : ℕ → Input → IResult Input
  pub take-append : (xs rest : Input) → take (length xs) (xs ++ rest) ≡ parsed (rest, xs)
  pub take_eof : (n : ℕ) (s : Input) → length s < n → take n s ≡ error s eof
  pub le_u8 : Input → IResult ℕ
  pub le_u8-cons : (b : ℕ) (rest : Input) → le_u8 (b ∷ rest) ≡ parsed (rest, b)
  pub le_u8-nil : le_u8 [] ≡ error [] eof
  -- One or more ASCII digits, as many as there are.
  pub digit1 : Input → IResult Input
  pub digit1-append :
      (ds rest : Input)
      → ds ≢ []
      → All IsDigit ds
      → NoDigitFirst rest
      → digit1 (ds ++ rest) ≡ parsed (rest, ds)
  pub digit1_none : (s : Input) → NoDigitFirst s → digit1 s ≡ error s digit
  pub one_char : ℕ → Input → IResult ℕ
  pub one_char-cons : (c : ℕ) (rest : Input) → one_char c (c ∷ rest) ≡ parsed (rest, c)
  pub one_char-ne : (c d : ℕ) (rest : Input) → c ≢ d → one_char c (d ∷ rest) ≡ error (d ∷ rest) char
  pub one_char-nil : (c : ℕ) → one_char c [] ≡ error [] char
  -- One or more elements, up to the first that passes the test, or to the end of the input.
  pub take_till1 : (ℕ → Bool) → Input → IResult Input
  pub take_till1-append :
      (p : ℕ → Bool) (xs : Input) (y : ℕ) (rest : Input)
      → xs ≢ []
      → All (λ x. p x ≡ false) xs
      → p y ≡ true
      → take_till1 p (xs ++ y ∷ rest) ≡ parsed (y ∷ rest, xs)
  pub take_till1_end :
      (p : ℕ → Bool) (xs : Input)
      → xs ≢ []
      → All (λ x. p x ≡ false) xs
      → take_till1 p xs ≡ parsed ([], xs)
  pub take_till1_none :
      (p : ℕ → Bool) (y : ℕ) (rest : Input)
      → p y ≡ true
      → take_till1 p (y ∷ rest) ≡ error (y ∷ rest) ErrorKind.take_till1
  pub take_till1-nil : (p : ℕ → Bool) → take_till1 p [] ≡ error [] ErrorKind.take_till1
  -- The second parser is tried where the first answers `Err::Error`, and not otherwise.
  pub alt : (Input → IResult O) → (Input → IResult O) → Input → IResult O
  pub alt_first :
      (f g : Input → IResult O) (s : Input)
      → ((i : Input) (k : ErrorKind) → f s ≢ error i k)
      → alt f g s ≡ f s
  pub alt_second :
      (f g : Input → IResult O) (s i : Input) (k : ErrorKind) → f s ≡ error i k → alt f g s ≡ g s
  -- The parser is applied until it answers `Err::Error`; a parser that takes nothing is an error.
  pub fold_many0 : (Input → IResult O) → List O → (List O → O → List O) → Input → IResult (List O)
  pub fold_many0_step :
      (f : Input → IResult O) (acc : List O) (g : List O → O → List O) (s rest : Input) (o : O)
      → f s ≡ parsed (rest, o)
      → length rest < length s
      → fold_many0 f acc g s ≡ fold_many0 f (g acc o) g rest
  pub fold_many0_stuck :
      (f : Input → IResult O) (acc : List O) (g : List O → O → List O) (s rest : Input) (o : O)
      → f s ≡ parsed (rest, o)
      → length rest ≡ length s
      → fold_many0 f acc g s ≡ error s many0
  pub fold_many0-error :
      (f : Input → IResult O) (acc : List O) (g : List O → O → List O) (s i : Input) (k : ErrorKind)
      → f s ≡ error i k
      → fold_many0 f acc g s ≡ parsed (s, acc)
  pub fold_many0-failure :
      (f : Input → IResult O) (acc : List O) (g : List O → O → List O) (s i : Input) (k : ErrorKind)
      → f s ≡ failure i k
      → fold_many0 f acc g s ≡ failure i k
  pub fold_many0-panicked :
      (f : Input → IResult O) (acc : List O) (g : List O → O → List O) (s : Input)
      → f s ≡ panicked
      → fold_many0 f acc g s ≡ panicked
