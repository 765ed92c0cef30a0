-- ===== src/SocketParser/Macros/Expands.antt =====
-- socket_io_parser/src/macros.rs: what each of its rules is to make of the trees of a JSON literal.
use socket_io_server_rust.Prelude.{ℕ, zero, suc, ◌≤◌, ◌<◌, Bool, true, false, ◌≡◌, refl, Str, arith}
use socket_io_server_rust.SocketParser.Json.{JsonValue, JsonArray, JsonObject}
use socket_io_server_rust.SocketParser.Serializer.Values.{Numbers}
use socket_io_server_rust.SocketParser.Macros.Trees.{
  Token, colon, other, Tokens, nil, ◌▸◌, token_weight, weight, Rust,
}
use socket_io_server_rust.SocketParser.Macros.Rules.{
  expanded, Code, Vec, no_items, item, Inserts, insert, Elements, without_comma, internal, at_array,
  at_object, at_entry,
}
use socket_io_server_rust.SocketParser.Macros.Literals.{
  EndsElement, last_comma, Literals, spelled, more_items, more_entries, code, code_items,
  code_entries,
}

-- An element may stand next.
abbrev pub IsNext : Elements → Type 0
IsNext without_comma = ⊥
IsNext _ = Unit

module _ {numbers : Numbers} {rust : Rust numbers} (literals : Literals rust)
    (trailing : Bool) where
  abbrev pub token : JsonValue numbers.Number → Token rust.Atom
  token v = spelled literals trailing v

  abbrev pub others : JsonArray numbers.Number → Tokens rust.Atom
  others xs = more_items literals trailing xs

  abbrev pub other_entries : JsonObject numbers.Number → Tokens rust.Atom
  other_entries obj = more_entries literals trailing obj

  abbrev pub key : Str → Token rust.Atom
  key k = other (literals.string k)

  abbrev pub item_of : JsonValue numbers.Number → JsonArray numbers.Number → Vec rust.Expr
  item_of v xs = item (code literals trailing v) (code_items literals trailing xs)

  abbrev pub insert_of :
      Str → JsonValue numbers.Number → JsonObject numbers.Number → Inserts rust.Expr
  insert_of k v obj = insert k (code literals trailing v) (code_entries literals trailing obj)

  pub more_items-EndsElement : (xs : JsonArray numbers.Number) → EndsElement (others xs)
  unfolding spelled
  more_items-EndsElement (JsonArray.item v xs) = tt
  more_items-EndsElement JsonArray.no_items =
      elim trailing as (λ b. EndsElement (last_comma {A = rust.Atom} b)) [ true ↦ tt | false ↦ tt ]

  pub more_entries-EndsElement : (obj : JsonObject numbers.Number) → EndsElement (other_entries obj)
  unfolding spelled
  more_entries-EndsElement (JsonObject.entry k v obj) = tt
  more_entries-EndsElement JsonObject.end =
      elim trailing as (λ b. EndsElement (last_comma {A = rust.Atom} b)) [ true ↦ tt | false ↦ tt ]

  pub at_array-nil :
      (f : ℕ) (elems : Elements) → 0 < f → at_array rust f elems nil ≡ expanded no_items
  unfolding internal
  at_array-nil zero elems h = absurd (omega arith)
  at_array-nil (suc f) elems h = refl

  pub at_object-nil : (f : ℕ) → 0 < f → at_object rust f nil nil ≡ expanded Inserts.end
  unfolding internal
  at_object-nil zero h = absurd (omega arith)
  at_object-nil (suc f) h = refl

  -- With this fuel, a literal that weighs less expands to its code.
  pub record Expands (f : ℕ) : Type 0 where
    pub values :
        (v : JsonValue numbers.Number)
        → token_weight (token v) ≤ f
        → internal rust f (token v ▸ nil) ≡ expanded (code literals trailing v)
    pub items :
        (elems : Elements) (v : JsonValue numbers.Number) (xs : JsonArray numbers.Number)
        → IsNext elems
        → weight (token v ▸ others xs) < f
        → at_array rust f elems (token v ▸ others xs) ≡ expanded (item_of v xs)
    pub more :
        (xs : JsonArray numbers.Number)
        → weight (others xs) < f
        → at_array rust f without_comma (others xs) ≡ expanded (code_items literals trailing xs)
    pub keys :
        (k : Str) (v : JsonValue numbers.Number) (obj : JsonObject numbers.Number)
        → weight (key k ▸ colon ▸ token v ▸ other_entries obj) < f
        → at_object rust f nil (key k ▸ colon ▸ token v ▸ other_entries obj)
          ≡ expanded (insert_of k v obj)
    pub fields :
        (k : Str) (v : JsonValue numbers.Number) (obj : JsonObject numbers.Number)
        → weight (colon ▸ token v ▸ other_entries obj) < f
        → at_object rust f (key k ▸ nil) (colon ▸ token v ▸ other_entries obj)
          ≡ expanded (insert_of k v obj)
    pub entries :
        (k : Str) (value : Code rust.Expr) (obj : JsonObject numbers.Number)
        → weight (other_entries obj) < f
        → at_entry rust f (key k ▸ nil) value (other_entries obj)
          ≡ expanded (insert k value (code_entries literals trailing obj))
