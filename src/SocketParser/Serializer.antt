-- ===== src/SocketParser/Serializer.antt =====
-- socket_io_parser/src/ser.rs, and `to_value` in socket_io_parser/src/lib.rs: a serializer of serde
-- whose result is a `PacketDataValue`. An `IndexMap` is the list of its entries.
pub mod Values
pub mod Objects
pub mod Json
pub mod Panics
pub mod Maps
use socket_io_server_rust.Prelude.{
  ℕ, leb, if◌then◌else◌, Option, none, some, [], ◌∷◌, Str, Outcome, ok, err, panic, to_string,
}
use socket_io_server_rust.SocketParser.Json.{same}
use socket_io_server_rust.SocketParser.Packet.{PacketDataValue, ValueArray, ValueObject}
use socket_io_server_rust.SocketParser.Serializer.Values.{
  ℤ, signed_to_string, Numbers, Term, Terms, no_terms, element, Calls, key, value, Fields,
  no_fields, field,
}

-- `ser::Error`
pub data Error : Type 0 where
  error : Error

-- The operator `?`.
infixl 5 ◌>>=◌
abbrev pub ◌>>=◌ : {A B : Type 0} → Outcome Error A → (A → Outcome Error B) → Outcome Error B
ok a >>= f = f a
err e >>= f = err e
panic >>= f = panic

-- `IndexMap::insert`: an entry that is there keeps its place.
unfoldable pub insert : {N : Type 0} → Str → PacketDataValue N → ValueObject N → ValueObject N
insert k v ValueObject.end = ValueObject.entry k v ValueObject.end
insert k v (ValueObject.entry j w obj) =
    let rest = insert k v obj in
    if same j k then ValueObject.entry j v obj else ValueObject.entry j w rest

-- `Vec::push`
unfoldable pub push : {N : Type 0} → ValueArray N → PacketDataValue N → ValueArray N
push ValueArray.no_items v = ValueArray.item v ValueArray.no_items
push (ValueArray.item w xs) v = ValueArray.item w (push xs v)

-- An object with one entry.
abbrev pub single : {N : Type 0} → Str → PacketDataValue N → PacketDataValue N
single k v = PacketDataValue.object (ValueObject.entry k v ValueObject.end)

abbrev pub number_or_null : {N : Type 0} → Option N → PacketDataValue N
number_or_null (some n) = PacketDataValue.number n
number_or_null none = PacketDataValue.null

-- `Vec::with_capacity`, which panics where there cannot be so much room.
unfoldable pub with_capacity : (numbers : Numbers) → ℕ → Outcome Error (ValueArray numbers.Number)
with_capacity numbers capacity =
    if leb capacity numbers.max_capacity then ok ValueArray.no_items else panic

-- `len.unwrap_or(0)`
abbrev pub len_or_zero : Option ℕ → ℕ
len_or_zero (some len) = len
len_or_zero none = 0

-- `MapKeySerializer`
unfoldable pub serialize_key : {numbers : Numbers} → Term numbers → Outcome Error Str
unfolding signed_to_string to_string
serialize_key (Term.unit_variant name variant_index variant) = ok variant
serialize_key (Term.newtype_struct name t) = serialize_key t
serialize_key (Term.i8 n) = ok (signed_to_string n)
serialize_key (Term.i16 n) = ok (signed_to_string n)
serialize_key (Term.i32 n) = ok (signed_to_string n)
serialize_key (Term.i64 n) = ok (signed_to_string n)
serialize_key (Term.u8 n) = ok (to_string n)
serialize_key (Term.u16 n) = ok (to_string n)
serialize_key (Term.u32 n) = ok (to_string n)
serialize_key (Term.u64 n) = ok (to_string n)
serialize_key (Term.char c) = ok (c ∷ [])
serialize_key (Term.str s) = ok s
serialize_key (Term.collect_str s) = ok s
serialize_key _ = err error

-- `Serializer`, and the elements, the calls and the fields inside a compound value. A vector
-- gets room for the length that the value announces, which is a hint otherwise. `next_key` is the state of a `SerializeMap` beside its map.
unfoldable mutual
  unfolding insert push with_capacity serialize_key

  pub serialize :
      {numbers : Numbers} → Term numbers → Outcome Error (PacketDataValue numbers.Number)
  serialize (Term.bool b) = ok (PacketDataValue.bool b)
  serialize {numbers} (Term.i8 n) = ok (PacketDataValue.number (numbers.from_i64 n))
  serialize {numbers} (Term.i16 n) = ok (PacketDataValue.number (numbers.from_i64 n))
  serialize {numbers} (Term.i32 n) = ok (PacketDataValue.number (numbers.from_i64 n))
  serialize {numbers} (Term.i64 n) = ok (PacketDataValue.number (numbers.from_i64 n))
  serialize {numbers} (Term.u8 n) = ok (PacketDataValue.number (numbers.from_u64 n))
  serialize {numbers} (Term.u16 n) = ok (PacketDataValue.number (numbers.from_u64 n))
  serialize {numbers} (Term.u32 n) = ok (PacketDataValue.number (numbers.from_u64 n))
  serialize {numbers} (Term.u64 n) = ok (PacketDataValue.number (numbers.from_u64 n))
  serialize {numbers} (Term.f32 x) = ok (number_or_null (numbers.from_f64 (numbers.as_f64 x)))
  serialize {numbers} (Term.f64 x) = ok (number_or_null (numbers.from_f64 x))
  serialize (Term.char c) = ok (PacketDataValue.string (c ∷ []))
  serialize (Term.str s) = ok (PacketDataValue.string s)
  serialize (Term.bytes b) = ok (PacketDataValue.binary b)
  serialize Term.unit = ok PacketDataValue.null
  serialize (Term.unit_struct name) = ok PacketDataValue.null
  serialize (Term.unit_variant name variant_index variant) = ok (PacketDataValue.string variant)
  serialize (Term.newtype_struct name t) = serialize t
  serialize (Term.newtype_variant name variant_index variant t) = do
    v ← serialize t
    ok (single variant v)
  serialize Term.absent = ok PacketDataValue.null
  serialize (Term.present t) = serialize t
  serialize {numbers} (Term.seq len ts) = do
    vec ← with_capacity numbers (len_or_zero len)
    vec ← serialize_elements vec ts
    ok (PacketDataValue.array vec)
  serialize {numbers} (Term.tuple len ts) = do
    vec ← with_capacity numbers len
    vec ← serialize_elements vec ts
    ok (PacketDataValue.array vec)
  serialize {numbers} (Term.tuple_struct name len ts) = do
    vec ← with_capacity numbers len
    vec ← serialize_elements vec ts
    ok (PacketDataValue.array vec)
  serialize {numbers} (Term.tuple_variant name variant_index variant len ts) = do
    vec ← with_capacity numbers len
    vec ← serialize_elements vec ts
    ok (single variant (PacketDataValue.array vec))
  serialize (Term.map len cs) = do
    obj ← serialize_calls ValueObject.end none cs
    ok (PacketDataValue.object obj)
  serialize (Term.struct name len fs) = do
    obj ← serialize_fields ValueObject.end fs
    ok (PacketDataValue.object obj)
  serialize (Term.struct_variant name variant_index variant len fs) = do
    obj ← serialize_fields ValueObject.end fs
    ok (single variant (PacketDataValue.object obj))
  serialize (Term.collect_str s) = ok (PacketDataValue.string s)
  serialize Term.custom = err error

  -- `serialize_element` of `SerializeVec`, and `serialize_field` of a tuple struct or variant.
  pub serialize_elements :
      {numbers : Numbers}
      → ValueArray numbers.Number
      → Terms numbers
      → Outcome Error (ValueArray numbers.Number)
  serialize_elements vec no_terms = ok vec
  serialize_elements vec (element t ts) = do v ← serialize t; serialize_elements (push vec v) ts

  -- `serialize_key` and `serialize_value` of `SerializeMap`. A value without a key is a panic.
  pub serialize_calls :
      {numbers : Numbers}
      → ValueObject numbers.Number
      → (next_key : Option Str) → Calls numbers
      → Outcome Error (ValueObject numbers.Number)
  serialize_calls map next_key Calls.end = ok map
  serialize_calls map next_key (key t cs) = do k ← serialize_key t; serialize_calls map (some k) cs
  serialize_calls map none (value t cs) = panic
  serialize_calls map (some k) (value t cs) = do
    v ← serialize t
    serialize_calls (insert k v map) none cs

  -- `serialize_field` of a struct, which is `serialize_entry` with a string for a key, and of a struct
  -- variant.
  pub serialize_fields :
      {numbers : Numbers}
      → ValueObject numbers.Number
      → Fields numbers
      → Outcome Error (ValueObject numbers.Number)
  serialize_fields map no_fields = ok map
  serialize_fields map (field k t fs) = do v ← serialize t; serialize_fields (insert k v map) fs

unfoldable pub to_value :
    {numbers : Numbers} → Term numbers → Outcome Error (PacketDataValue numbers.Number)
unfolding serialize
to_value t = serialize t
