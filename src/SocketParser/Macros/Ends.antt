-- ===== src/SocketParser/Macros/Ends.antt =====
-- socket_io_parser/src/macros.rs: the cases of its rules, and when they come to an end.
use socket_io_server_rust.Prelude.{◌<◌, Option, none, some, Option-cases, inl, inr, arith, Str}
use socket_io_server_rust.SocketParser.Serializer.Values.{Numbers}
use socket_io_server_rust.SocketParser.Macros.Trees.{
  Token, comma, bracket, brace, paren, Tokens, nil, ◌▸◌, token_weight, weight, Rust,
}
use socket_io_server_rust.SocketParser.Macros.Rules.{
  Expansion, expanded, refused, out_of_fuel, ◌>>=◌, Code, Vec, Inserts, Elements, with_comma,
  element, expect_expr_comma, field, parenthesized, whole, converted, key_of, next,
}

pub weight-pos : {A : Type 0} (t : Token A) → 0 < token_weight t
unfolding weight
weight-pos (bracket ts) = omega arith
weight-pos (brace ts) = omega arith
weight-pos (paren ts) = omega arith
weight-pos _ = omega arith

-- The expansion does not run out of fuel.
abbrev pub Ends : {A : Type 0} → Expansion A → Type 0
Ends (expanded _) = Unit
Ends refused = Unit
Ends out_of_fuel = ⊥

pub >>=-Ends :
    {A B : Type 0} (m : Expansion A) (k : A → Expansion B)
    → Ends m
    → ((a : A) → Ends (k a))
    → Ends (m >>= k)
>>=-Ends (expanded a) k h hk = hk a
>>=-Ends refused k h hk = tt
>>=-Ends out_of_fuel k h hk = h

converted-Ends : (k : Option Str) → Ends (converted k)
converted-Ends none = tt
converted-Ends (some k) = tt

module _ {numbers : Numbers} (rust : Rust numbers) where
  abbrev pub Parse : Type 0
  Parse = Option (rust.Expr × Tokens rust.Atom)

  -- What the compiler leaves behind an expression weighs less.
  abbrev pub Leaves : Tokens rust.Atom → Parse → Type 0
  Leaves ts none = Unit
  Leaves ts (some (e, rest)) = weight rest < weight ts

  pub parse_expr-Leaves : (ts : Tokens rust.Atom) → Leaves ts (rust.parse_expr ts)
  parse_expr-Leaves ts = elim (Option-cases (rust.parse_expr ts)) [
    | inl e ↦ rw e tt
    | inr ((e, rest), eq) ↦ rw eq (rust.parse_expr-weight ts e rest eq)
  ]

  pub key_of-Ends : (key : Tokens rust.Atom) → Ends (key_of rust key)
  key_of-Ends key = converted-Ends (rust.key key)

  pub whole-Ends : (p : Parse) → Ends (whole rust p)
  unfolding whole
  whole-Ends none = tt
  whole-Ends (some (e, nil)) = tt
  whole-Ends (some (e, t ▸ ts)) = tt

  pub next-Ends :
      (code : Expansion (Code rust.Expr)) (more : Expansion (Vec rust.Expr))
      → Ends code
      → Ends more
      → Ends (next rust code more)
  next-Ends code more hc hm = >>=-Ends code _ hc (λ c. >>=-Ends more _ hm (λ elems. tt))

  pub element-Ends :
      (more : Elements → Tokens rust.Atom → Expansion (Vec rust.Expr)) (ts : Tokens rust.Atom)
      (p : Parse)
      → Leaves ts p
      → ((rest : Tokens rust.Atom) → weight rest < weight ts → Ends (more with_comma rest))
      → Ends (element rust more p)
  unfolding element weight
  element-Ends more ts none h hm = tt
  element-Ends more ts (some (e, nil)) h hm = tt
  element-Ends more ts (some (e, comma ▸ rest)) h hm =
      >>=-Ends (more with_comma rest) _ (hm rest (omega arith)) (λ _. tt)
  element-Ends more ts (some (e, _ ▸ rest)) h hm = tt

  pub field-Ends :
      (entry : Code rust.Expr → Tokens rust.Atom → Expansion (Inserts rust.Expr))
      (ts : Tokens rust.Atom) (p : Parse)
      → Leaves ts p
      → ((value : Code rust.Expr) (rest : Tokens rust.Atom)
          → weight rest < weight ts
          → Ends (entry value rest))
      → Ends (field rust entry p)
  unfolding field expect_expr_comma
  field-Ends entry ts none h he = tt
  field-Ends entry ts (some (e, nil)) h he = he (Code.to_value e) nil h
  field-Ends entry ts (some (e, comma ▸ rest)) h he = he (Code.to_value e) (comma ▸ rest) h
  field-Ends entry ts (some (e, _ ▸ rest)) h he = tt

  pub parenthesized-Ends :
      (more : Tokens rust.Atom → Expansion (Inserts rust.Expr)) (key : Tokens rust.Atom) (p : Parse)
      → ((key' : Tokens rust.Atom) → Ends (more key'))
      → Ends (parenthesized rust more key p)
  unfolding parenthesized
  parenthesized-Ends more key none h = tt
  parenthesized-Ends more key (some (e, nil)) h = h key
  parenthesized-Ends more key (some (e, t ▸ ts)) h = h (paren key ▸ nil)
