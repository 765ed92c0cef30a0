-- ===== src/SocketParser/Macros/Arrays.antt =====
-- socket_io_parser/src/macros.rs: what the rules for arrays make of a JSON literal.
use socket_io_server_rust.Prelude.{ℕ, suc, ◌≤◌, Bool, true, false, some, ◌≡◌, refl, arith}
use socket_io_server_rust.SocketParser.Json.{JsonValue, JsonArray, JsonObject}
use socket_io_server_rust.SocketParser.Serializer.Values.{Numbers}
use socket_io_server_rust.SocketParser.Macros.Trees.{
  Token, other, Tokens, nil, ◌▸◌, token_weight, weight, Rust,
}
use socket_io_server_rust.SocketParser.Macros.Rules.{
  expanded, Code, Vec, no_items, item, Elements, none_yet, with_comma, without_comma, element,
  whole, next, internal, at_array,
}
use socket_io_server_rust.SocketParser.Macros.Ends.{weight-pos}
use socket_io_server_rust.SocketParser.Macros.Literals.{
  last_comma, Literals, spelled, more_items, code, code_items,
}
use socket_io_server_rust.SocketParser.Macros.Expands.{
  IsNext, Expands, more_items-EndsElement, at_array-nil,
}

module _ {numbers : Numbers} {rust : Rust numbers} (literals : Literals rust)
    (trailing : Bool) where
  abbrev token : JsonValue numbers.Number → Token rust.Atom
  token v = spelled literals trailing v

  abbrev others : JsonArray numbers.Number → Tokens rust.Atom
  others xs = more_items literals trailing xs

  abbrev item_of : JsonValue numbers.Number → JsonArray numbers.Number → Vec rust.Expr
  item_of v xs = item (code literals trailing v) (code_items literals trailing xs)

  module _ (f : ℕ) (expands : Expands literals trailing f) where
    pub internal-spelled :
        (v : JsonValue numbers.Number)
        → token_weight (token v) ≤ suc f
        → internal rust (suc f) (token v ▸ nil) ≡ expanded (code literals trailing v)
    unfolding internal spelled code weight whole
    internal-spelled JsonValue.null h = refl
    internal-spelled (JsonValue.bool b) h = refl
    internal-spelled (JsonValue.number n) h = rw (literals.parse_expr-number n nil tt) refl
    internal-spelled (JsonValue.string s) h = rw (literals.parse_expr-string s nil tt) refl
    internal-spelled (JsonValue.array JsonArray.no_items) h = refl
    internal-spelled (JsonValue.array (JsonArray.item v xs)) h =
        rw (expands.items none_yet v xs tt (omega arith)) refl
    internal-spelled (JsonValue.object JsonObject.end) h = refl
    internal-spelled (JsonValue.object (JsonObject.entry k v obj)) h =
        rw (expands.keys k v obj (omega arith)) refl

    next-spelled :
        (v : JsonValue numbers.Number) (xs : JsonArray numbers.Number)
        → weight (token v ▸ others xs) ≤ f
        → next rust (internal rust f (token v ▸ nil)) (at_array rust f without_comma (others xs))
          ≡ expanded (item_of v xs)
    unfolding weight
    next-spelled v xs h =
        rw (expands.values v (omega arith))
          (rw (expands.more xs (omega (arith, weight-pos (token v)))) refl)

    element-last :
        (e : rust.Expr) (comma_behind : Bool)
        → weight (last_comma {A = rust.Atom} comma_behind) ≤ f
        → element rust (at_array rust f) (some (e, last_comma comma_behind))
          ≡ expanded (item (Code.to_value e) no_items)
    unfolding weight element
    element-last e true h = rw (at_array-nil literals trailing f with_comma (omega arith)) refl
    element-last e false h = refl

    element-spelled :
        (e : rust.Expr) (xs : JsonArray numbers.Number)
        → weight (others xs) ≤ f
        → element rust (at_array rust f) (some (e, others xs))
          ≡ expanded (item (Code.to_value e) (code_items literals trailing xs))
    unfolding weight element spelled code
    element-spelled e JsonArray.no_items h = element-last e trailing h
    element-spelled e (JsonArray.item v xs) h =
        rw (expands.items with_comma v xs tt (omega arith)) refl

    atom-spelled :
        (a : rust.Atom) (e : rust.Expr) (elems : Elements) (xs : JsonArray numbers.Number)
        → IsNext elems
        → weight (others xs) ≤ f
        → rust.parse_expr (other a ▸ others xs) ≡ some (e, others xs)
        → at_array rust (suc f) elems (other a ▸ others xs)
          ≡ expanded (item (Code.to_value e) (code_items literals trailing xs))
    unfolding internal
    atom-spelled a e none_yet xs i h p = rw p (element-spelled e xs h)
    atom-spelled a e with_comma xs i h p = rw p (element-spelled e xs h)
    atom-spelled a e without_comma xs i h p = absurd i

    pub at_array-spelled :
        (elems : Elements) (v : JsonValue numbers.Number) (xs : JsonArray numbers.Number)
        → IsNext elems
        → weight (token v ▸ others xs) ≤ f
        → at_array rust (suc f) elems (token v ▸ others xs) ≡ expanded (item_of v xs)
    unfolding internal weight spelled code
    at_array-spelled elems (JsonValue.number n) xs i h =
        atom-spelled (literals.number n) (literals.number_expr n) elems xs i (omega arith)
          (literals.parse_expr-number n (others xs) (more_items-EndsElement literals trailing xs))
    at_array-spelled elems (JsonValue.string s) xs i h =
        atom-spelled (literals.string s) (literals.string_expr s) elems xs i (omega arith)
          (literals.parse_expr-string s (others xs) (more_items-EndsElement literals trailing xs))
    at_array-spelled without_comma v xs i h = absurd i
    at_array-spelled _ v xs i h = next-spelled v xs h

    at_array-last :
        (comma_behind : Bool)
        → weight (last_comma {A = rust.Atom} comma_behind) ≤ f
        → at_array rust (suc f) without_comma (last_comma comma_behind) ≡ expanded no_items
    unfolding internal weight
    at_array-last true h = at_array-nil literals trailing f with_comma (omega arith)
    at_array-last false h = refl

    pub at_array-others :
        (xs : JsonArray numbers.Number)
        → weight (others xs) ≤ f
        → at_array rust (suc f) without_comma (others xs)
          ≡ expanded (code_items literals trailing xs)
    unfolding internal weight spelled code
    at_array-others JsonArray.no_items h = at_array-last trailing h
    at_array-others (JsonArray.item v xs) h = expands.items with_comma v xs tt (omega arith)
