-- ===== src/SocketParser/Serializer/Panics.antt =====
-- socket_io_parser/src/ser.rs: the panics of the serializer.
use socket_io_server_rust.Prelude.{
  ℕ, leb, ◌≡◌, Bool, true, false, Option, none, some, ◌≢◌, Str, Outcome, ok, err, panic,
}
use socket_io_server_rust.SocketParser.Packet.{ValueArray, ValueObject}
use socket_io_server_rust.SocketParser.Serializer.Values.{
  Numbers, Term, Terms, no_terms, element, Calls, key, value, Fields, no_fields, field,
}
use socket_io_server_rust.SocketParser.Serializer.{
  Error, ◌>>=◌, serialize, serialize_elements, serialize_calls, serialize_fields, serialize_key,
  single, insert, push, to_value, with_capacity, len_or_zero,
}

-- There is room for a vector of the length that is announced.
abbrev pub HasRoom : (numbers : Numbers) → ℕ → Type 0
HasRoom numbers len = leb len numbers.max_capacity ≡ true

-- In every map inside a value, `serialize_value` is called behind a `serialize_key`, and there is room for
-- each length that a sequence or a tuple announces.
unfoldable mutual
  pub IsSafe : {numbers : Numbers} → Term numbers → Type 0
  IsSafe (Term.newtype_struct name t) = IsSafe t
  IsSafe (Term.newtype_variant name i variant t) = IsSafe t
  IsSafe (Term.present t) = IsSafe t
  IsSafe {numbers} (Term.seq len ts) = HasRoom numbers (len_or_zero len) × AllSafe ts
  IsSafe {numbers} (Term.tuple len ts) = HasRoom numbers len × AllSafe ts
  IsSafe {numbers} (Term.tuple_struct name len ts) = HasRoom numbers len × AllSafe ts
  IsSafe {numbers} (Term.tuple_variant name i variant len ts) = HasRoom numbers len × AllSafe ts
  IsSafe (Term.map len cs) = CallsSafe false cs
  IsSafe (Term.struct name len fs) = FieldsSafe fs
  IsSafe (Term.struct_variant name i variant len fs) = FieldsSafe fs
  IsSafe _ = Unit

  pub AllSafe : {numbers : Numbers} → Terms numbers → Type 0
  AllSafe no_terms = Unit
  AllSafe (element t ts) = IsSafe t × AllSafe ts

  -- The flag says whether a key waits for its value.
  pub CallsSafe : {numbers : Numbers} → Bool → Calls numbers → Type 0
  CallsSafe waits Calls.end = Unit
  CallsSafe waits (key t cs) = CallsSafe true cs
  CallsSafe true (value t cs) = IsSafe t × CallsSafe false cs
  CallsSafe false (value t cs) = ⊥

  pub FieldsSafe : {numbers : Numbers} → Fields numbers → Type 0
  FieldsSafe no_fields = Unit
  FieldsSafe (field k t fs) = IsSafe t × FieldsSafe fs

abbrev Returns : {A : Type 0} → Outcome Error A → Type 0
Returns (ok a) = Unit
Returns (err e) = Unit
Returns panic = ⊥

bind-Returns :
    {A B : Type 0} (o : Outcome Error A) (f : A → Outcome Error B)
    → Returns o
    → ((a : A) → Returns (f a))
    → Returns (o >>= f)
bind-Returns (ok a) f h g = g a
bind-Returns (err e) f h g = tt
bind-Returns panic f h g = absurd h

Returns-ne : {A : Type 0} (o : Outcome Error A) → Returns o → o ≢ panic
Returns-ne o h e = rw e at h

abbrev is_some : Option Str → Bool
is_some (some k) = true
is_some none = false

module _ {numbers : Numbers} where
  key-Returns : (t : Term numbers) → Returns (serialize_key t)
  unfolding serialize_key
  key-Returns (Term.newtype_struct name t) = key-Returns t
  key-Returns (Term.bool b) = tt
  key-Returns (Term.i8 n) = tt
  key-Returns (Term.i16 n) = tt
  key-Returns (Term.i32 n) = tt
  key-Returns (Term.i64 n) = tt
  key-Returns (Term.u8 n) = tt
  key-Returns (Term.u16 n) = tt
  key-Returns (Term.u32 n) = tt
  key-Returns (Term.u64 n) = tt
  key-Returns (Term.f32 x) = tt
  key-Returns (Term.f64 x) = tt
  key-Returns (Term.char c) = tt
  key-Returns (Term.str s) = tt
  key-Returns (Term.bytes b) = tt
  key-Returns Term.unit = tt
  key-Returns (Term.unit_struct name) = tt
  key-Returns (Term.unit_variant name i variant) = tt
  key-Returns Term.absent = tt
  key-Returns (Term.collect_str s) = tt
  key-Returns Term.custom = tt
  key-Returns (Term.newtype_variant name i variant t) = tt
  key-Returns (Term.present t) = tt
  key-Returns (Term.seq len ts) = tt
  key-Returns (Term.tuple len ts) = tt
  key-Returns (Term.tuple_struct name len ts) = tt
  key-Returns (Term.tuple_variant name i variant len ts) = tt
  key-Returns (Term.map len cs) = tt
  key-Returns (Term.struct name len fs) = tt
  key-Returns (Term.struct_variant name i variant len fs) = tt

  mutual
    unfolding serialize with_capacity IsSafe

    serialize-Returns : (t : Term numbers) → IsSafe t → Returns (serialize t)
    serialize-Returns (Term.newtype_struct name t) h = serialize-Returns t h
    serialize-Returns (Term.newtype_variant name i variant t) h =
        bind-Returns (serialize t) (λ v. ok (single variant v)) (serialize-Returns t h) (λ v. tt)
    serialize-Returns (Term.present t) h = serialize-Returns t h
    serialize-Returns (Term.seq len ts) (room, h) = rw room (
        bind-Returns (serialize_elements ValueArray.no_items ts) _
          (elements-Returns ValueArray.no_items ts h) (λ v. tt))
    serialize-Returns (Term.tuple len ts) (room, h) = rw room (
        bind-Returns (serialize_elements ValueArray.no_items ts) _
          (elements-Returns ValueArray.no_items ts h) (λ v. tt))
    serialize-Returns (Term.tuple_struct name len ts) (room, h) = rw room (
        bind-Returns (serialize_elements ValueArray.no_items ts) _
          (elements-Returns ValueArray.no_items ts h) (λ v. tt))
    serialize-Returns (Term.tuple_variant name i variant len ts) (room, h) = rw room (
        bind-Returns (serialize_elements ValueArray.no_items ts) _
          (elements-Returns ValueArray.no_items ts h) (λ v. tt))
    serialize-Returns (Term.map len cs) h =
        bind-Returns (serialize_calls ValueObject.end none cs) _
          (calls-Returns ValueObject.end none cs h) (λ v. tt)
    serialize-Returns (Term.struct name len fs) h =
        bind-Returns (serialize_fields ValueObject.end fs) _ (fields-Returns ValueObject.end fs h)
          (λ v. tt)
    serialize-Returns (Term.struct_variant name i variant len fs) h =
        bind-Returns (serialize_fields ValueObject.end fs) _ (fields-Returns ValueObject.end fs h)
          (λ v. tt)
    serialize-Returns (Term.bool b) h = tt
    serialize-Returns (Term.i8 n) h = tt
    serialize-Returns (Term.i16 n) h = tt
    serialize-Returns (Term.i32 n) h = tt
    serialize-Returns (Term.i64 n) h = tt
    serialize-Returns (Term.u8 n) h = tt
    serialize-Returns (Term.u16 n) h = tt
    serialize-Returns (Term.u32 n) h = tt
    serialize-Returns (Term.u64 n) h = tt
    serialize-Returns (Term.f32 x) h = tt
    serialize-Returns (Term.f64 x) h = tt
    serialize-Returns (Term.char c) h = tt
    serialize-Returns (Term.str s) h = tt
    serialize-Returns (Term.bytes b) h = tt
    serialize-Returns Term.unit h = tt
    serialize-Returns (Term.unit_struct name) h = tt
    serialize-Returns (Term.unit_variant name i variant) h = tt
    serialize-Returns Term.absent h = tt
    serialize-Returns (Term.collect_str s) h = tt
    serialize-Returns Term.custom h = tt

    elements-Returns :
        (vec : ValueArray numbers.Number) (ts : Terms numbers)
        → AllSafe ts
        → Returns (serialize_elements vec ts)
    elements-Returns vec no_terms h = tt
    elements-Returns vec (element t ts) (h, hs) =
        bind-Returns (serialize t) (λ v. serialize_elements (push vec v) ts) (serialize-Returns t h)
          (λ v. elements-Returns (push vec v) ts hs)

    calls-Returns :
        (map : ValueObject numbers.Number) (next_key : Option Str) (cs : Calls numbers)
        → CallsSafe (is_some next_key) cs
        → Returns (serialize_calls map next_key cs)
    calls-Returns map next_key Calls.end h = tt
    calls-Returns map next_key (key t cs) h =
        bind-Returns (serialize_key t) (λ k. serialize_calls map (some k) cs) (key-Returns t)
          (λ k. calls-Returns map (some k) cs h)
    calls-Returns map none (value t cs) h = absurd h
    calls-Returns map (some k) (value t cs) (h, hs) =
        bind-Returns (serialize t) (λ v. serialize_calls (insert k v map) none cs)
          (serialize-Returns t h) (λ v. calls-Returns (insert k v map) none cs hs)

    fields-Returns :
        (map : ValueObject numbers.Number) (fs : Fields numbers)
        → FieldsSafe fs
        → Returns (serialize_fields map fs)
    fields-Returns map no_fields h = tt
    fields-Returns map (field k t fs) (h, hs) =
        bind-Returns (serialize t) (λ v. serialize_fields (insert k v map) fs)
          (serialize-Returns t h) (λ v. fields-Returns (insert k v map) fs hs)

  -- `to_value` does not panic on a value whose maps call `serialize_value` behind `serialize_key`,
  -- whatever the keys are, and whose sequences and tuples announce no more values than a vector has room
  -- for: it returns a value or an error.
  pub to_value-ne-panic : (t : Term numbers) → IsSafe t → to_value t ≢ panic
  unfolding to_value
  to_value-ne-panic t h = Returns-ne (serialize t) (serialize-Returns t h)
