-- ===== src/Tests/Serializer.antt =====
-- socket_io_parser/src/ser.rs: runs, and the theorems at concrete inputs.
use socket_io_server_rust.Prelude.{
  to_string, ℕ, ◌^◌, ◌-◌, ◌≡◌, ◌≢◌, refl, none, some, Str, List, [], ◌∷◌, ok, panic,
}
use socket_io_server_rust.SocketParser.Json.{chars, JsonValue, JsonArray, JsonObject}
use socket_io_server_rust.SocketParser.Packet.{PacketDataValue, ValueObject, from_json}
use socket_io_server_rust.SocketParser.Serializer.Values.{
  Numbers, Term, Terms, no_terms, element, Calls, key, value,
}
use socket_io_server_rust.SocketParser.Serializer.{serialize, to_value}
use socket_io_server_rust.SocketParser.Serializer.Maps.{calls_of, Holds, to_value-map}
use socket_io_server_rust.SocketParser.Serializer.Panics.{IsSafe, to_value-ne-panic}
use socket_io_server_rust.SocketParser.Serializer.Json.{
  JsonTerms, IsJson, HasRooms, pos_int, count, to_value-from_json,
}

abbrev pub numbers : Numbers
numbers = record {
  Number = ℕ;
  F32 = Unit;
  F64 = Unit;
  from_i64 = λ _. 0;
  from_u64 = λ n. n;
  from_f64 = λ _. none;
  as_f64 = λ _. tt;
  max_capacity = 2 ^ 57;
}

-- A map with the key 1 twice, one of them a string.
abbrev twice : Term numbers
twice = Term.map none (
    key (Term.u8 1)
      (value (Term.bytes (7 ∷ [])) (key (Term.str (b'1' ∷ [])) (value Term.unit Calls.end))))

twice_run :
    to_value twice
    ≡ ok (
        PacketDataValue.object (ValueObject.entry (b'1' ∷ []) PacketDataValue.null ValueObject.end))
unfolding to_value
twice_run = refl

-- The same entries, and what they serialise to.
abbrev entries : List (Term numbers × Term numbers)
entries = (Term.u8 1, Term.bytes (7 ∷ [])) ∷ (Term.str (b'1' ∷ []), Term.unit) ∷ []

abbrev pairs : List (Str × PacketDataValue ℕ)
pairs = (b'1' ∷ [], PacketDataValue.binary (7 ∷ [])) ∷ (b'1' ∷ [], PacketDataValue.null) ∷ []

to_value-map_example :
    (obj : ValueObject ℕ) × (to_value (Term.map none (calls_of entries))
      ≡ ok (PacketDataValue.object obj))
    × Holds pairs obj
unfolding to_string to_value
to_value-map_example = to_value-map none entries pairs (refl, refl, (refl, refl, tt))

to_value-ne-panic_example : to_value twice ≢ panic
unfolding IsSafe
to_value-ne-panic_example = to_value-ne-panic twice (tt, (tt, tt))

-- A sequence that announces more than there can be.
abbrev huge : Term numbers
huge = Term.seq (some (2 ^ 64 - 1)) no_terms

huge_run : to_value huge ≡ panic
unfolding to_value
huge_run = refl

-- The calls of a JSON value whose numbers are unsigned.
mutual
  json_term : JsonValue ℕ → Term numbers
  json_term JsonValue.null = Term.unit
  json_term (JsonValue.bool b) = Term.bool b
  json_term (JsonValue.number n) = Term.u64 n
  json_term (JsonValue.string s) = Term.str s
  json_term (JsonValue.array xs) = Term.seq (some (count xs)) (json_terms xs)
  json_term (JsonValue.object obj) = Term.map none (json_calls obj)

  json_terms : JsonArray ℕ → Terms numbers
  json_terms JsonArray.no_items = no_terms
  json_terms (JsonArray.item v xs) = element (json_term v) (json_terms xs)

  json_calls : JsonObject ℕ → Calls numbers
  json_calls JsonObject.end = Calls.end
  json_calls (JsonObject.entry k v obj) = key (Term.str k) (value (json_term v) (json_calls obj))

abbrev json_terms_of : JsonTerms numbers
unfolding json_term serialize
json_terms_of = record {
  forms = record { form = pos_int; of_form-form = λ n. refl };
  term = json_term;
  terms = json_terms;
  calls = json_calls;
  term-null = refl;
  term-bool = λ b. refl;
  term-number = λ n. refl;
  term-string = λ s. refl;
  term-array = λ xs. refl;
  object_len = λ _. none;
  term-object = λ obj. refl;
  terms-nil = refl;
  terms-item = λ v xs. refl;
  calls-end = refl;
  calls-entry = λ k v obj. refl;
}

-- `["a"]`
abbrev letters : JsonValue ℕ
letters = JsonValue.array (JsonArray.item (JsonValue.string (chars "a")) JsonArray.no_items)

-- `{"a": 1, "b": ["a"]}`
abbrev pub settings : JsonValue ℕ
settings = JsonValue.object (
    JsonObject.entry (chars "a") (JsonValue.number 1)
      (JsonObject.entry (chars "b") letters JsonObject.end))

to_value-from_json_example : to_value (json_term settings) ≡ ok (from_json settings)
unfolding IsJson HasRooms json_terms_of
to_value-from_json_example =
    to_value-from_json json_terms_of settings (refl, tt, (refl, (tt, tt), tt))
      (tt, ((refl, (tt, tt)), tt))
