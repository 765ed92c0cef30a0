-- ===== src/SocketParser/Macros/Objects.antt =====
-- socket_io_parser/src/macros.rs: what the rules for objects make of a JSON literal.
use socket_io_server_rust.Prelude.{
  ℕ, suc, ◌≤◌, ◌<◌, Bool, true, false, some, ◌≡◌, refl, ◌∙◌, Str, arith,
}
use socket_io_server_rust.SocketParser.Json.{JsonValue, JsonObject}
use socket_io_server_rust.SocketParser.Serializer.Values.{Numbers}
use socket_io_server_rust.SocketParser.Macros.Trees.{
  Token, comma, colon, other, Tokens, nil, ◌▸◌, weight, Rust,
}
use socket_io_server_rust.SocketParser.Macros.Rules.{
  Expansion, expanded, ◌>>=◌, Code, Inserts, insert, field, internal, at_object, at_entry,
}
use socket_io_server_rust.SocketParser.Macros.Ends.{weight-pos}
use socket_io_server_rust.SocketParser.Macros.Literals.{
  EndsElement, last_comma, Literals, spelled, more_entries, code, code_entries,
}
use socket_io_server_rust.SocketParser.Macros.Expands.{
  Expands, more_entries-EndsElement, at_object-nil,
}

module _ {numbers : Numbers} {rust : Rust numbers} (literals : Literals rust)
    (trailing : Bool) where
  abbrev token : JsonValue numbers.Number → Token rust.Atom
  token v = spelled literals trailing v

  abbrev other_entries : JsonObject numbers.Number → Tokens rust.Atom
  other_entries obj = more_entries literals trailing obj

  abbrev key : Str → Token rust.Atom
  key k = other (literals.string k)

  abbrev insert_of : Str → JsonValue numbers.Number → JsonObject numbers.Number → Inserts rust.Expr
  insert_of k v obj = insert k (code literals trailing v) (code_entries literals trailing obj)

  module _ (f : ℕ) (expands : Expands literals trailing f) where
    pub at_object-key :
        (k : Str) (v : JsonValue numbers.Number) (obj : JsonObject numbers.Number)
        → weight (key k ▸ colon ▸ token v ▸ other_entries obj) ≤ f
        → at_object rust (suc f) nil (key k ▸ colon ▸ token v ▸ other_entries obj)
          ≡ expanded (insert_of k v obj)
    unfolding internal weight
    at_object-key k v obj h = expands.fields k v obj (omega arith)

    value-spelled :
        (k : Str) (v : JsonValue numbers.Number) (obj : JsonObject numbers.Number)
        → weight (token v ▸ other_entries obj) ≤ f
        → (internal rust f (token v ▸ nil) >>= λ value.
            at_entry rust f (key k ▸ nil) value (other_entries obj))
          ≡ expanded (insert_of k v obj)
    unfolding weight
    value-spelled k v obj h =
        rw (expands.values v (omega arith))
          (expands.entries k (code literals trailing v) obj (omega (arith, weight-pos (token v))))

    field-behind :
        (entry : Code rust.Expr → Tokens rust.Atom → Expansion (Inserts rust.Expr)) (e : rust.Expr)
        (rest : Tokens rust.Atom)
        → EndsElement rest
        → field rust entry (some (e, rest)) ≡ entry (Code.to_value e) rest
    unfolding field
    field-behind entry e nil h = refl
    field-behind entry e (comma ▸ rest) h = refl
    field-behind entry e (_ ▸ rest) h = absurd h

    field-spelled :
        (k : Str) (a : rust.Atom) (e : rust.Expr) (obj : JsonObject numbers.Number)
        → weight (other_entries obj) < f
        → rust.parse_expr (other a ▸ other_entries obj) ≡ some (e, other_entries obj)
        → at_object rust (suc f) (key k ▸ nil) (colon ▸ other a ▸ other_entries obj)
          ≡ expanded (insert k (Code.to_value e) (code_entries literals trailing obj))
    unfolding internal
    field-spelled k a e obj h p = rw p (
        field-behind (at_entry rust f (key k ▸ nil)) e (other_entries obj)
          (more_entries-EndsElement literals trailing obj)
        ∙ expands.entries k (Code.to_value e) obj h)

    pub at_object-field :
        (k : Str) (v : JsonValue numbers.Number) (obj : JsonObject numbers.Number)
        → weight (colon ▸ token v ▸ other_entries obj) ≤ f
        → at_object rust (suc f) (key k ▸ nil) (colon ▸ token v ▸ other_entries obj)
          ≡ expanded (insert_of k v obj)
    unfolding internal weight spelled code
    at_object-field k (JsonValue.number n) obj h =
        field-spelled k (literals.number n) (literals.number_expr n) obj (omega arith) (
          literals.parse_expr-number n (other_entries obj)
            (more_entries-EndsElement literals trailing obj))
    at_object-field k (JsonValue.string s) obj h =
        field-spelled k (literals.string s) (literals.string_expr s) obj (omega arith) (
          literals.parse_expr-string s (other_entries obj)
            (more_entries-EndsElement literals trailing obj))
    at_object-field k v obj h = value-spelled k v obj (omega arith)

    at_entry-last :
        (k : Str) (value : Code rust.Expr) (comma_behind : Bool)
        → weight (last_comma {A = rust.Atom} comma_behind) ≤ f
        → at_entry rust (suc f) (key k ▸ nil) value (last_comma comma_behind)
          ≡ expanded (insert k value Inserts.end)
    unfolding internal weight
    at_entry-last k value true h =
        rw (literals.key-string k) (rw (at_object-nil literals trailing f (omega arith)) refl)
    at_entry-last k value false h = rw (literals.key-string k) refl

    pub at_entry-spelled :
        (k : Str) (value : Code rust.Expr) (obj : JsonObject numbers.Number)
        → weight (other_entries obj) ≤ f
        → at_entry rust (suc f) (key k ▸ nil) value (other_entries obj)
          ≡ expanded (insert k value (code_entries literals trailing obj))
    unfolding internal weight spelled code
    at_entry-spelled k value JsonObject.end h = at_entry-last k value trailing h
    at_entry-spelled k value (JsonObject.entry j v obj) h =
        rw (literals.key-string k) (rw (expands.keys j v obj (omega arith)) refl)
