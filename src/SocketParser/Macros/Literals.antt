-- ===== src/SocketParser/Macros/Literals.antt =====
-- socket_io_parser/src/macros.rs: JSON literals, and the code that they are to give.
use socket_io_server_rust.Prelude.{Bool, true, false, some, ◌≡◌, Str}
use socket_io_server_rust.SocketParser.Json.{JsonValue, JsonArray, JsonObject}
use socket_io_server_rust.SocketParser.Serializer.Values.{Numbers, Term}
use socket_io_server_rust.SocketParser.Serializer.Json.{Forms, form_term}
use socket_io_server_rust.SocketParser.Macros.Trees.{
  Token, comma, colon, other, bracket, brace, Tokens, nil, ◌▸◌, Rust,
}
use socket_io_server_rust.SocketParser.Macros.Rules.{Code, Vec, no_items, item, Inserts, insert}

-- What may stand behind an element or a value: nothing, or a comma.
abbrev pub EndsElement : {A : Type 0} → Tokens A → Type 0
EndsElement nil = Unit
EndsElement (comma ▸ rest) = Unit
EndsElement _ = ⊥

-- A comma at the end, or none.
abbrev pub last_comma : {A : Type 0} → Bool → Tokens A
last_comma true = comma ▸ nil
last_comma false = nil

-- How numbers and strings are spelled, each as one tree, a literal or a variable: it is an expression
-- up to the comma behind it, its value makes on a serializer the call of its type, and a string is a key.
pub record Literals {numbers : Numbers} (rust : Rust numbers) : Type 0 where
  pub number : numbers.Number → rust.Atom
  pub number_expr : numbers.Number → rust.Expr
  pub parse_expr-number :
      (n : numbers.Number) (rest : Tokens rust.Atom)
      → EndsElement rest
      → rust.parse_expr (other (number n) ▸ rest) ≡ some (number_expr n, rest)
  pub forms : Forms numbers
  pub term-number : (n : numbers.Number) → rust.term (number_expr n) ≡ form_term (forms.form n)
  pub string : Str → rust.Atom
  pub string_expr : Str → rust.Expr
  pub parse_expr-string :
      (s : Str) (rest : Tokens rust.Atom)
      → EndsElement rest
      → rust.parse_expr (other (string s) ▸ rest) ≡ some (string_expr s, rest)
  pub term-string : (s : Str) → rust.term (string_expr s) ≡ Term.str s
  pub key-string : (s : Str) → rust.key (other (string s) ▸ nil) ≡ some s

module _ {numbers : Numbers} {rust : Rust numbers} (literals : Literals rust)
    (trailing : Bool) where
  -- A JSON value as it is written in the macro, with a comma at the end of each array and object that is
  -- not empty, or none.
  unfoldable mutual
    pub spelled : JsonValue numbers.Number → Token rust.Atom
    spelled JsonValue.null = Token.null
    spelled (JsonValue.bool b) = Token.bool b
    spelled (JsonValue.number n) = other (literals.number n)
    spelled (JsonValue.string s) = other (literals.string s)
    spelled (JsonValue.array xs) = bracket (spelled_items xs)
    spelled (JsonValue.object obj) = brace (spelled_entries obj)

    pub spelled_items : JsonArray numbers.Number → Tokens rust.Atom
    spelled_items JsonArray.no_items = nil
    spelled_items (JsonArray.item v xs) = spelled v ▸ more_items xs

    pub more_items : JsonArray numbers.Number → Tokens rust.Atom
    more_items JsonArray.no_items = last_comma trailing
    more_items (JsonArray.item v xs) = comma ▸ spelled v ▸ more_items xs

    pub spelled_entries : JsonObject numbers.Number → Tokens rust.Atom
    spelled_entries JsonObject.end = nil
    spelled_entries (JsonObject.entry k v obj) =
        other (literals.string k) ▸ colon ▸ spelled v ▸ more_entries obj

    pub more_entries : JsonObject numbers.Number → Tokens rust.Atom
    more_entries JsonObject.end = last_comma trailing
    more_entries (JsonObject.entry k v obj) =
        comma ▸ other (literals.string k) ▸ colon ▸ spelled v ▸ more_entries obj

  -- The code that its expansion gives.
  unfoldable mutual
    pub code : JsonValue numbers.Number → Code rust.Expr
    code JsonValue.null = Code.null
    code (JsonValue.bool b) = Code.bool b
    code (JsonValue.number n) = Code.to_value (literals.number_expr n)
    code (JsonValue.string s) = Code.to_value (literals.string_expr s)
    code (JsonValue.array xs) = Code.array (code_items xs)
    code (JsonValue.object JsonObject.end) = Code.new_object
    code (JsonValue.object (JsonObject.entry k v obj)) =
        Code.object (code_entries (JsonObject.entry k v obj))

    pub code_items : JsonArray numbers.Number → Vec rust.Expr
    code_items JsonArray.no_items = no_items
    code_items (JsonArray.item v xs) = item (code v) (code_items xs)

    pub code_entries : JsonObject numbers.Number → Inserts rust.Expr
    code_entries JsonObject.end = Inserts.end
    code_entries (JsonObject.entry k v obj) = insert k (code v) (code_entries obj)
