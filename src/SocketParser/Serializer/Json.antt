-- ===== src/SocketParser/Serializer/Json.antt =====
-- socket_io_parser/src/ser.rs and src/packet.rs: JSON values, serialised and
-- converted.
use socket_io_server_rust.Prelude.{
  ℕ, suc, leb, true, Bool, false, ◌||◌, Option, none, some, ◌≡◌, refl, sym, ap, ◌∙◌, Str, ok,
}
use socket_io_server_rust.SocketParser.Json.{JsonValue, JsonArray, JsonObject, same}
use socket_io_server_rust.SocketParser.Packet.{
  PacketDataValue, ValueArray, ValueObject, from_json, from_json_array, from_json_object,
}
use socket_io_server_rust.SocketParser.Serializer.Values.{
  ℤ, Numbers, Term, Terms, no_terms, element, Calls, key, value,
}
use socket_io_server_rust.SocketParser.Serializer.{
  serialize, serialize_elements, serialize_calls, insert, push, to_value, with_capacity,
  number_or_null,
}
use socket_io_server_rust.SocketParser.Serializer.Objects.{
  has_key, append, join, append-push, insert-append, or_false, has_key-insert,
}

-- How a `serde_json::Number` is kept.
pub data Form (numbers : Numbers) : Type 0 where
  pos_int : ℕ → Form numbers
  neg_int : ℤ → Form numbers
  float : numbers.F64 → Form numbers

-- The call that `Serialize for Number` makes, and the number that its conversions make of a form.
abbrev pub form_term : {numbers : Numbers} → Form numbers → Term numbers
form_term (pos_int u) = Term.u64 u
form_term (neg_int i) = Term.i64 i
form_term (float x) = Term.f64 x

abbrev pub of_form : {numbers : Numbers} → Form numbers → Option numbers.Number
of_form {numbers} (pos_int u) = some (numbers.from_u64 u)
of_form {numbers} (neg_int i) = some (numbers.from_i64 i)
of_form {numbers} (float x) = numbers.from_f64 x

-- Of the `serde_json` crate: every number has a form, and is made of it.
pub record Forms (numbers : Numbers) : Type 0 where
  pub form : numbers.Number → Form numbers
  pub of_form-form : (n : numbers.Number) → of_form (form n) ≡ some n

abbrev pub count : {N : Type 0} → JsonArray N → ℕ
count JsonArray.no_items = 0
count (JsonArray.item v xs) = suc (count xs)

-- `Serialize for Value` of the `serde_json` crate, as its documentation has it: an array as a sequence
-- of its length, an object as a map of its entries, and a number by the call for its form.
pub record JsonTerms (numbers : Numbers) : Type 1 where
  pub forms : Forms numbers
  pub term : JsonValue numbers.Number → Term numbers
  pub terms : JsonArray numbers.Number → Terms numbers
  pub calls : JsonObject numbers.Number → Calls numbers
  pub term-null : term JsonValue.null ≡ Term.unit
  pub term-bool : (b : Bool) → term (JsonValue.bool b) ≡ Term.bool b
  pub term-number : (n : numbers.Number) → term (JsonValue.number n) ≡ form_term (forms.form n)
  pub term-string : (s : Str) → term (JsonValue.string s) ≡ Term.str s
  pub term-array :
      (xs : JsonArray numbers.Number)
      → term (JsonValue.array xs) ≡ Term.seq (some (count xs)) (terms xs)
  pub object_len : JsonObject numbers.Number → Option ℕ
  pub term-object :
      (obj : JsonObject numbers.Number)
      → term (JsonValue.object obj) ≡ Term.map (object_len obj) (calls obj)
  pub terms-nil : terms JsonArray.no_items ≡ no_terms
  pub terms-item :
      (v : JsonValue numbers.Number) (xs : JsonArray numbers.Number)
      → terms (JsonArray.item v xs) ≡ element (term v) (terms xs)
  pub calls-end : calls JsonObject.end ≡ Calls.end
  pub calls-entry :
      (k : Str) (v : JsonValue numbers.Number) (obj : JsonObject numbers.Number)
      → calls (JsonObject.entry k v obj) ≡ key (Term.str k) (value (term v) (calls obj))

-- The serializer gives a number back, by its form.
pub serialize-form :
    {numbers : Numbers} (f : Form numbers) (n : numbers.Number)
    → of_form f ≡ some n
    → serialize (form_term f) ≡ ok (PacketDataValue.number n)
unfolding serialize
serialize-form {numbers} (pos_int u) n e = ap (λ o. ok (number_or_null o)) e
serialize-form {numbers} (neg_int i) n e = ap (λ o. ok (number_or_null o)) e
serialize-form {numbers} (float x) n e = ap (λ o. ok (number_or_null o)) e

-- There is room for each array.
unfoldable mutual
  pub HasRooms : {N : Type 0} → ℕ → JsonValue N → Type 0
  HasRooms room (JsonValue.array xs) = (leb (count xs) room ≡ true) × AllRooms room xs
  HasRooms room (JsonValue.object obj) = MapRooms room obj
  HasRooms room _ = Unit

  pub AllRooms : {N : Type 0} → ℕ → JsonArray N → Type 0
  AllRooms room JsonArray.no_items = Unit
  AllRooms room (JsonArray.item v xs) = HasRooms room v × AllRooms room xs

  pub MapRooms : {N : Type 0} → ℕ → JsonObject N → Type 0
  MapRooms room JsonObject.end = Unit
  MapRooms room (JsonObject.entry k v obj) = HasRooms room v × MapRooms room obj

abbrev pub json_has_key : {N : Type 0} → Str → JsonObject N → Bool
json_has_key k JsonObject.end = false
json_has_key k (JsonObject.entry j w obj) = same k j || json_has_key k obj

-- The keys of each object are distinct, as those of a `serde_json::Map` are.
unfoldable mutual
  pub IsJson : {N : Type 0} → JsonValue N → Type 0
  IsJson (JsonValue.array xs) = AllJson xs
  IsJson (JsonValue.object obj) = IsJsonMap obj
  IsJson _ = Unit

  pub AllJson : {N : Type 0} → JsonArray N → Type 0
  AllJson JsonArray.no_items = Unit
  AllJson (JsonArray.item v xs) = IsJson v × AllJson xs

  pub IsJsonMap : {N : Type 0} → JsonObject N → Type 0
  IsJsonMap JsonObject.end = Unit
  IsJsonMap (JsonObject.entry k v obj) = (json_has_key k obj ≡ false) × IsJson v × IsJsonMap obj

-- No key of the object is there already.
abbrev pub Fresh : {N : Type 0} → ValueObject N → JsonObject N → Type 0
Fresh map JsonObject.end = Unit
Fresh map (JsonObject.entry k v obj) = (has_key k map ≡ false) × Fresh map obj

pub Fresh-end : {N : Type 0} (obj : JsonObject N) → Fresh ValueObject.end obj
Fresh-end JsonObject.end = tt
Fresh-end (JsonObject.entry k v obj) = (refl, Fresh-end obj)

pub Fresh-insert :
    {N : Type 0} (k : Str) (v : PacketDataValue N) (map : ValueObject N) (obj : JsonObject N)
    → json_has_key k obj ≡ false
    → Fresh map obj
    → Fresh (insert k v map) obj
Fresh-insert k v map JsonObject.end h f = tt
Fresh-insert k v map (JsonObject.entry j w obj) h (fj, f) =
    let (ne, rest) = or_false (same k j) (json_has_key k obj) h in
    (has_key-insert k j v map ne fj, Fresh-insert k v map obj rest f)

append-nil_array : {N : Type 0} (xs : ValueArray N) → append xs ValueArray.no_items ≡ xs
append-nil_array ValueArray.no_items = refl
append-nil_array (ValueArray.item v xs) = ap (ValueArray.item v) (append-nil_array xs)

pub join-end : {N : Type 0} (map : ValueObject N) → join map ValueObject.end ≡ map
join-end ValueObject.end = refl
join-end (ValueObject.entry k v map) = ap (ValueObject.entry k v) (join-end map)

module _ {numbers : Numbers} (json : JsonTerms numbers) where
  mutual
    unfolding serialize with_capacity from_json IsJson HasRooms

    serialize-term :
        (v : JsonValue numbers.Number)
        → IsJson v
        → HasRooms numbers.max_capacity v
        → serialize (json.term v) ≡ ok (from_json v)
    serialize-term JsonValue.null h r = rw json.term-null refl
    serialize-term (JsonValue.bool b) h r = rw (json.term-bool b) refl
    serialize-term (JsonValue.number n) h r =
        rw (json.term-number n) (serialize-form (json.forms.form n) n (json.forms.of_form-form n))
    serialize-term (JsonValue.string s) h r = rw (json.term-string s) refl
    serialize-term (JsonValue.array xs) h (room, r) =
        rw (json.term-array xs) (rw room (rw (serialize-terms ValueArray.no_items xs h r) refl))
    serialize-term (JsonValue.object obj) h r =
        rw (json.term-object obj)
          (rw (serialize-calls ValueObject.end obj h r (Fresh-end obj)) refl)

    serialize-terms :
        (vec : ValueArray numbers.Number) (xs : JsonArray numbers.Number)
        → AllJson xs
        → AllRooms numbers.max_capacity xs
        → serialize_elements vec (json.terms xs) ≡ ok (append vec (from_json_array xs))
    serialize-terms vec JsonArray.no_items h r =
        rw json.terms-nil (ap ok (sym (append-nil_array vec)))
    serialize-terms vec (JsonArray.item v xs) (h, hs) (r, rs) = rw (json.terms-item v xs) (
        rw (serialize-term v h r) (
          serialize-terms (push vec (from_json v)) xs hs rs
          ∙ ap ok (append-push vec (from_json v) (from_json_array xs))))

    serialize-calls :
        (map : ValueObject numbers.Number) (obj : JsonObject numbers.Number)
        → IsJsonMap obj
        → MapRooms numbers.max_capacity obj
        → Fresh map obj
        → serialize_calls map none (json.calls obj) ≡ ok (join map (from_json_object obj))
    serialize-calls map JsonObject.end h r f = rw json.calls-end (ap ok (sym (join-end map)))
    serialize-calls map (JsonObject.entry k v obj) (hk, h, hs) (r, rs) (fk, f) =
        rw (json.calls-entry k v obj) (
          rw (serialize-term v h r) (
            serialize-calls (insert k (from_json v) map) obj hs rs
              (Fresh-insert k (from_json v) map obj hk f)
            ∙ ap ok (insert-append k (from_json v) map (from_json_object obj) fk)))

  -- Serialising a JSON value gives what `From` makes of it directly: the two ways to data for a packet
  -- agree on JSON, whose objects have distinct keys and whose arrays a vector has room for.
  pub to_value-from_json :
      (v : JsonValue numbers.Number)
      → IsJson v
      → HasRooms numbers.max_capacity v
      → to_value (json.term v) ≡ ok (from_json v)
  unfolding to_value
  to_value-from_json v h r = serialize-term v h r
