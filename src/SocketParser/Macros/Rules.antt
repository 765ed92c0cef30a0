-- ===== src/SocketParser/Macros/Rules.antt =====
-- socket_io_parser/src/macros.rs: the rules of `packet_data_internal!`, each on the trees that it
-- matches. A macro that expands to another call of itself spends one unit of fuel.
use socket_io_server_rust.Prelude.{ℕ, zero, suc, Bool, Option, none, some, Str}
use socket_io_server_rust.SocketParser.Serializer.Values.{Numbers}
use socket_io_server_rust.SocketParser.Macros.Trees.{
  Token, comma, colon, bracket, brace, paren, Tokens, nil, ◌▸◌, ◌◂◌, Rust,
}

-- What the compiler makes of a macro: the code that it expands to, or an error at compile time.
pub data Expansion {ℓ} (A : Type ℓ) : Type ℓ where
  expanded : A → Expansion A
  refused : Expansion A
  out_of_fuel : Expansion A

infixl 5 ◌>>=◌
abbrev pub ◌>>=◌ : {A B : Type 0} → Expansion A → (A → Expansion B) → Expansion B
expanded a >>= f = f a
refused >>= f = refused
out_of_fuel >>= f = out_of_fuel

-- The code of an expansion. `to_value e` is `$crate::to_value(&e).unwrap()`, and `new_object` is
-- `$crate::Map::new()`; `object` names the map and its values as the caller's names.
mutual
  pub data Code (E : Type 0) : Type 0 where
    null : Code E
    bool : Bool → Code E
    array : Vec E → Code E
    new_object : Code E
    object : Inserts E → Code E
    to_value : E → Code E

  -- `vec![...]`
  pub data Vec (E : Type 0) : Type 0 where
    no_items : Vec E
    item : Code E → Vec E → Vec E

  -- `object.insert(key, value)`, for each entry.
  pub data Inserts (E : Type 0) : Type 0 where
    end : Inserts E
    insert : Str → Code E → Inserts E → Inserts E

-- How the elements of `@array [...]` end: there is none, the last has a comma behind it, or it has none.
pub data Elements : Type 0 where
  none_yet with_comma without_comma : Elements

abbrev pub converted : Option Str → Expansion Str
converted (some k) = expanded k
converted none = refused

module _ {numbers : Numbers} (rust : Rust numbers) where
  -- `packet_data_unexpected!($tt)`, which takes no arguments.
  abbrev unexpected : {A : Type 0} → Expansion A
  unexpected = refused

  -- An element that is an expression, with a comma behind it or none.
  unfoldable pub element :
      (more : Elements → Tokens rust.Atom → Expansion (Vec rust.Expr))
      → Option (rust.Expr × Tokens rust.Atom)
      → Expansion (Vec rust.Expr)
  element more (some (next, comma ▸ rest)) = do
    elems ← more with_comma rest
    expanded (item (Code.to_value next) elems)
  element more (some (last, nil)) = expanded (item (Code.to_value last) no_items)
  element more _ = unexpected

  -- `packet_data_expect_expr_comma!`
  unfoldable pub expect_expr_comma :
      Option (rust.Expr × Tokens rust.Atom) → Expansion (Inserts rust.Expr)
  expect_expr_comma (some (e, comma ▸ rest)) = expanded Inserts.end
  expect_expr_comma _ = refused

  -- A value that is an expression, with a comma behind it or none.
  unfoldable pub field :
      (entry : Code rust.Expr → Tokens rust.Atom → Expansion (Inserts rust.Expr))
      → Option (rust.Expr × Tokens rust.Atom)
      → Expansion (Inserts rust.Expr)
  unfolding expect_expr_comma
  field entry (some (value, comma ▸ rest)) = entry (Code.to_value value) (comma ▸ rest)
  field entry (some (value, nil)) = entry (Code.to_value value) nil
  field entry other_parse = expect_expr_comma other_parse

  -- A key in parentheses: they go where they hold one expression, and stay where it does not end there.
  unfoldable pub parenthesized :
      (more : Tokens rust.Atom → Expansion (Inserts rust.Expr))
      → Tokens rust.Atom
      → Option (rust.Expr × Tokens rust.Atom)
      → Expansion (Inserts rust.Expr)
  parenthesized more key (some (e, nil)) = more key
  parenthesized more key (some (e, _)) = more (paren key ▸ nil)
  parenthesized more key none = refused

  -- `$other:expr`
  unfoldable pub whole : Option (rust.Expr × Tokens rust.Atom) → Expansion (Code rust.Expr)
  whole (some (e, nil)) = expanded (Code.to_value e)
  whole _ = refused

  -- The conversion of a key.
  abbrev pub key_of : Tokens rust.Atom → Expansion Str
  key_of key = converted (rust.key key)

  -- The next element or value is one tree, and others stand behind it.
  abbrev pub next :
      Expansion (Code rust.Expr) → Expansion (Vec rust.Expr) → Expansion (Vec rust.Expr)
  next code more = do c ← code; elems ← more; expanded (item c elems)

  unfoldable mutual
    unfolding element field whole expect_expr_comma parenthesized

    -- `packet_data_internal!($($json)+)`
    pub internal : ℕ → Tokens rust.Atom → Expansion (Code rust.Expr)
    internal zero json = out_of_fuel
    internal (suc f) nil = refused
    internal (suc f) (Token.null ▸ nil) = expanded Code.null
    internal (suc f) (Token.bool b ▸ nil) = expanded (Code.bool b)
    internal (suc f) (bracket nil ▸ nil) = expanded (Code.array no_items)
    internal (suc f) (bracket (t ▸ ts) ▸ nil) = do
      elems ← at_array f none_yet (t ▸ ts)
      expanded (Code.array elems)
    internal (suc f) (brace nil ▸ nil) = expanded Code.new_object
    internal (suc f) (brace (t ▸ ts) ▸ nil) = do
      inserts ← at_object f nil (t ▸ ts)
      expanded (Code.object inserts)
    internal (suc f) (t ▸ ts) = whole (rust.parse_expr (t ▸ ts))

    -- `@array [$elems] $tt`: the elements that it adds to `$elems`.
    pub at_array : ℕ → Elements → Tokens rust.Atom → Expansion (Vec rust.Expr)
    at_array zero elems tts = out_of_fuel
    at_array (suc f) elems nil = expanded no_items
    at_array (suc f) with_comma (comma ▸ rest) = refused
    at_array (suc f) none_yet (comma ▸ rest) = at_array f none_yet rest
    at_array (suc f) without_comma (comma ▸ rest) = at_array f with_comma rest
    at_array (suc f) without_comma (t ▸ rest) = unexpected
    at_array (suc f) elems (Token.null ▸ rest) =
        next (internal f (Token.null ▸ nil)) (at_array f without_comma rest)
    at_array (suc f) elems (Token.bool b ▸ rest) =
        next (internal f (Token.bool b ▸ nil)) (at_array f without_comma rest)
    at_array (suc f) elems (bracket ts ▸ rest) =
        next (internal f (bracket ts ▸ nil)) (at_array f without_comma rest)
    at_array (suc f) elems (brace ts ▸ rest) =
        next (internal f (brace ts ▸ nil)) (at_array f without_comma rest)
    at_array (suc f) elems (t ▸ rest) = element (at_array f) (rust.parse_expr (t ▸ rest))

    -- `@object $object ($key) ($tt) ($copy)`: what it inserts. The two copies are equal.
    pub at_object : ℕ → Tokens rust.Atom → Tokens rust.Atom → Expansion (Inserts rust.Expr)
    at_object zero key tts = out_of_fuel
    at_object (suc f) nil nil = expanded Inserts.end
    at_object (suc f) (k ▸ ks) (colon ▸ Token.null ▸ rest) = do
      value ← internal f (Token.null ▸ nil)
      at_entry f (k ▸ ks) value rest
    at_object (suc f) (k ▸ ks) (colon ▸ Token.bool b ▸ rest) = do
      value ← internal f (Token.bool b ▸ nil)
      at_entry f (k ▸ ks) value rest
    at_object (suc f) (k ▸ ks) (colon ▸ bracket ts ▸ rest) = do
      value ← internal f (bracket ts ▸ nil)
      at_entry f (k ▸ ks) value rest
    at_object (suc f) (k ▸ ks) (colon ▸ brace ts ▸ rest) = do
      value ← internal f (brace ts ▸ nil)
      at_entry f (k ▸ ks) value rest
    at_object (suc f) (k ▸ ks) (colon ▸ nil) = refused
    at_object (suc f) (k ▸ ks) (colon ▸ t ▸ rest) =
        field (at_entry f (k ▸ ks)) (rust.parse_expr (t ▸ rest))
    at_object (suc f) (k ▸ ks) nil = refused
    at_object (suc f) nil (colon ▸ rest) = unexpected
    at_object (suc f) key (comma ▸ rest) = unexpected
    at_object (suc f) nil (paren key ▸ colon ▸ rest) =
        parenthesized (λ key'. at_object f key' (colon ▸ rest)) key (rust.parse_expr key)
    at_object (suc f) key (t ▸ rest) = at_object f (key ◂ t) rest

    -- `@object $object [$key] ($value) $tt`
    pub at_entry :
        ℕ → Tokens rust.Atom → Code rust.Expr → Tokens rust.Atom → Expansion (Inserts rust.Expr)
    at_entry zero key value tts = out_of_fuel
    at_entry (suc f) key value nil = do k ← key_of key; expanded (insert k value Inserts.end)
    at_entry (suc f) key value (comma ▸ rest) = do
      k ← key_of key
      inserts ← at_object f nil rest
      expanded (insert k value inserts)
    at_entry (suc f) key value (t ▸ rest) = unexpected
