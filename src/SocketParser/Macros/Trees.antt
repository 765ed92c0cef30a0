-- ===== src/SocketParser/Macros/Trees.antt =====
-- socket_io_parser/src/macros.rs: the token trees that the rules of its macros match, and what they
-- take from the compiler.
use socket_io_server_rust.Prelude.{ℕ, ◌+◌, ◌<◌, ◌≡◌, Bool, Option, some, Str}
use socket_io_server_rust.SocketParser.Serializer.Values.{Numbers, Term}

-- The trees that the rules name, and the others: literals, identifiers, operators.
mutual
  pub data Token (A : Type 0) : Type 0 where
    null : Token A
    bool : Bool → Token A
    comma : Token A
    colon : Token A
    other : A → Token A
    bracket : Tokens A → Token A
    brace : Tokens A → Token A
    paren : Tokens A → Token A

  pub data Tokens (A : Type 0) : Type 0 where
    nil : Tokens A
    tree : Token A → Tokens A → Tokens A

infixr 67 ◌▸◌
pattern abbrev pub ◌▸◌ : {A : Type 0} → Token A → Tokens A → Tokens A
t ▸ ts = tree t ts

-- A tree behind the others.
infixl 66 ◌◂◌
abbrev pub ◌◂◌ : {A : Type 0} → Tokens A → Token A → Tokens A
nil ◂ t = tree t nil
(tree s ts) ◂ t = tree s (ts ◂ t)

-- Two for each tree, at any depth.
unfoldable mutual
  pub token_weight : {A : Type 0} → Token A → ℕ
  token_weight (bracket ts) = 2 + weight ts
  token_weight (brace ts) = 2 + weight ts
  token_weight (paren ts) = 2 + weight ts
  token_weight _ = 2

  pub weight : {A : Type 0} → Tokens A → ℕ
  weight nil = 0
  weight (tree t ts) = token_weight t + weight ts

-- The Rust compiler: `parse_expr` is what a fragment `$e:expr` takes of the trees, and what it leaves
-- behind it, `key` the `String` that `($($key)+).into()` makes, if the trees are an expression of such
-- a type, `term` the calls that the value of an expression makes on a serializer, and `in_scope` whether
-- the names `indexmap` and `PacketDataValue` mean where the macro is used what they mean in its crate.
pub record Rust (numbers : Numbers) : Type 1 where
  pub Atom : Type 0
  pub Expr : Type 0
  pub parse_expr : Tokens Atom → Option (Expr × Tokens Atom)
  pub parse_expr-weight :
      (ts : Tokens Atom) (e : Expr) (rest : Tokens Atom)
      → parse_expr ts ≡ some (e, rest)
      → weight rest < weight ts
  pub key : Tokens Atom → Option Str
  pub term : Expr → Term numbers
  pub in_scope : Bool
