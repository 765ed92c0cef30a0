-- ===== src/SocketParser/Macros/Values.antt =====
-- socket_io_parser/src/macros.rs and src/packet.rs: the value of a JSON literal in the macro.
use socket_io_server_rust.Prelude.{Bool, true, false, Str, ◌≡◌, refl, sym, ap, ◌∙◌, ok}
use socket_io_server_rust.SocketParser.Json.{JsonValue, JsonArray, JsonObject}
use socket_io_server_rust.SocketParser.Packet.{
  ValueObject, from_json, from_json_array, from_json_object,
}
use socket_io_server_rust.SocketParser.Serializer.Values.{Numbers}
use socket_io_server_rust.SocketParser.Serializer as Serializer
use socket_io_server_rust.SocketParser.Serializer.Objects.{join, insert-append}
use socket_io_server_rust.SocketParser.Serializer.Json.{
  IsJson, AllJson, IsJsonMap, Fresh, Fresh-end, Fresh-insert, join-end, serialize-form,
}
use socket_io_server_rust.SocketParser.Macros.{
  eval, eval_vec, eval_inserts, resolves, resolves_vec, resolves_inserts, packet_data,
}
use socket_io_server_rust.SocketParser.Macros.Trees.{nil, ◌▸◌, Rust}
use socket_io_server_rust.SocketParser.Macros.Rules.{refused}
use socket_io_server_rust.SocketParser.Macros.Literals.{
  Literals, spelled, code, code_items, code_entries,
}
use socket_io_server_rust.SocketParser.Macros.Json.{internal-literal}

module _ {numbers : Numbers} {rust : Rust numbers} (literals : Literals rust)
    (trailing : Bool) where
  mutual
    unfolding eval code from_json IsJson Serializer.to_value Serializer.serialize

    eval-code :
        (v : JsonValue numbers.Number)
        → IsJson v
        → eval rust (code literals trailing v) ≡ ok (from_json v)
    eval-code JsonValue.null h = refl
    eval-code (JsonValue.bool b) h = refl
    eval-code (JsonValue.number n) h =
        rw (literals.term-number n)
          (rw (serialize-form (literals.forms.form n) n (literals.forms.of_form-form n)) refl)
    eval-code (JsonValue.string s) h = rw (literals.term-string s) refl
    eval-code (JsonValue.array xs) h = rw (eval_vec-code xs h) refl
    eval-code (JsonValue.object JsonObject.end) h = refl
    eval-code (JsonValue.object (JsonObject.entry k v obj)) h =
        rw
          (eval_inserts-code ValueObject.end (JsonObject.entry k v obj) h
            (Fresh-end (JsonObject.entry k v obj)))
          refl

    eval_vec-code :
        (xs : JsonArray numbers.Number)
        → AllJson xs
        → eval_vec rust (code_items literals trailing xs) ≡ ok (from_json_array xs)
    eval_vec-code JsonArray.no_items h = refl
    eval_vec-code (JsonArray.item v xs) (h, hs) = rw (eval-code v h) (rw (eval_vec-code xs hs) refl)

    eval_inserts-code :
        (map : ValueObject numbers.Number) (obj : JsonObject numbers.Number)
        → IsJsonMap obj
        → Fresh map obj
        → eval_inserts rust map (code_entries literals trailing obj)
          ≡ ok (join map (from_json_object obj))
    eval_inserts-code map JsonObject.end h f = ap ok (sym (join-end map))
    eval_inserts-code map (JsonObject.entry k v obj) (hk, h, hs) (fk, f) = rw (eval-code v h) (
        eval_inserts-code (Serializer.insert k (from_json v) map) obj hs
          (Fresh-insert k (from_json v) map obj hk f)
        ∙ ap ok (insert-append k (from_json v) map (from_json_object obj) fk))

  mutual
    unfolding resolves code

    resolves-code :
        (v : JsonValue numbers.Number)
        → rust.in_scope ≡ true
        → resolves rust (code literals trailing v) ≡ true
    resolves-code JsonValue.null i = refl
    resolves-code (JsonValue.bool b) i = refl
    resolves-code (JsonValue.number n) i = refl
    resolves-code (JsonValue.string s) i = refl
    resolves-code (JsonValue.array xs) i = resolves_vec-code xs i
    resolves-code (JsonValue.object JsonObject.end) i = refl
    resolves-code (JsonValue.object (JsonObject.entry k v obj)) i =
        rw i (resolves_inserts-code (JsonObject.entry k v obj) i)

    resolves_vec-code :
        (xs : JsonArray numbers.Number)
        → rust.in_scope ≡ true
        → resolves_vec rust (code_items literals trailing xs) ≡ true
    resolves_vec-code JsonArray.no_items i = refl
    resolves_vec-code (JsonArray.item v xs) i = rw (resolves-code v i) (resolves_vec-code xs i)

    resolves_inserts-code :
        (obj : JsonObject numbers.Number)
        → rust.in_scope ≡ true
        → resolves_inserts rust (code_entries literals trailing obj) ≡ true
    resolves_inserts-code JsonObject.end i = refl
    resolves_inserts-code (JsonObject.entry k v obj) i =
        rw (resolves-code v i) (resolves_inserts-code obj i)

  -- Where the names are not in scope, an object that is not empty does not compile.
  packet_data_out_of_scope :
      (k : Str) (w : JsonValue numbers.Number) (obj : JsonObject numbers.Number)
      → rust.in_scope ≡ false
      → packet_data rust
          (spelled literals trailing (JsonValue.object (JsonObject.entry k w obj)) ▸ nil)
        ≡ refused
  unfolding packet_data code resolves
  packet_data_out_of_scope k w obj i =
      rw (internal-literal literals trailing (JsonValue.object (JsonObject.entry k w obj)))
        (rw i refl)
