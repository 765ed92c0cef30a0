-- ===== src/SocketParser/Serializer/Maps.antt =====
-- socket_io_parser/src/ser.rs: what the serializer makes of a map and of a struct.
use socket_io_server_rust.Prelude.{
  Bool, true, false, Bool-cases, inl, inr, if◌then◌else◌, Option, none, some, List, [], ◌∷◌, ◌≡◌,
  refl, sym, ap, ◌∙◌, Str, to_string, ok, ℕ,
}
use socket_io_server_rust.SocketParser.Json.{same, same→eq, same_comm}
use socket_io_server_rust.SocketParser.Packet.{PacketDataValue, ValueObject}
use socket_io_server_rust.SocketParser.Serializer.Values.{
  signed_to_string, Numbers, Term, Calls, key, value, Fields, no_fields, field,
}
use socket_io_server_rust.SocketParser.Serializer.{
  serialize, serialize_calls, serialize_fields, serialize_key, insert, to_value,
}

-- A key is put behind the others, unless it is there.
abbrev pub with_key : Str → List Str → List Str
with_key k [] = k ∷ []
with_key k (j ∷ ks) = if same j k then j ∷ ks else j ∷ with_key k ks

module _ {N : Type 0} where
  -- What an object has under a key, and its keys in order.
  abbrev pub lookup : Str → ValueObject N → Option (PacketDataValue N)
  lookup k ValueObject.end = none
  lookup k (ValueObject.entry j v obj) = if same j k then some v else lookup k obj

  abbrev pub keys : ValueObject N → List Str
  keys ValueObject.end = []
  keys (ValueObject.entry j v obj) = j ∷ keys obj

  -- The last value of a key among entries, or the one that was there before them.
  abbrev pub last_value :
      Str → List (Str × PacketDataValue N) → Option (PacketDataValue N) → Option (PacketDataValue N)
  last_value k [] before = before
  last_value k ((j, v) ∷ ps) before = last_value k ps (if same j k then some v else before)

  -- The keys of entries, in the order in which they come first, behind those that were there before.
  abbrev pub first_keys : List (Str × PacketDataValue N) → List Str → List Str
  first_keys [] before = before
  first_keys ((j, v) ∷ ps) before = first_keys ps (with_key j before)

  abbrev pub insert_all : List (Str × PacketDataValue N) → ValueObject N → ValueObject N
  insert_all [] obj = obj
  insert_all ((k, v) ∷ ps) obj = insert_all ps (insert k v obj)

  lookup-insert :
      (k j : Str) (v : PacketDataValue N) (obj : ValueObject N)
      → lookup k (insert j v obj) ≡ (if same j k then some v else lookup k obj)
  unfolding insert
  lookup-insert k j v ValueObject.end = refl
  lookup-insert k j v (ValueObject.entry i w obj) = elim (Bool-cases (same i j)) [
    | inl e ↦ rw e (
        rw (same→eq i j e) (elim (Bool-cases (same j k)) [ inl f ↦ rw f refl | inr f ↦ rw f refl ]))
    | inr e ↦ rw e (
        ap (λ o. if same i k then some w else o) (lookup-insert k j v obj)
        ∙ swap (same i k) (same j k) (λ a b. apart i j k e a b) w v (lookup k obj))
  ]
    where
      apart : (i j k : Str) → same i j ≡ false → same i k ≡ true → same j k ≡ true → false ≡ true
      apart i j k e a b = sym e ∙ ap (λ t. same t j) (same→eq i k a) ∙ same_comm k j ∙ b

      swap :
          (a b : Bool)
          → (a ≡ true → b ≡ true → false ≡ true)
          → (w v : PacketDataValue N) (o : Option (PacketDataValue N))
          → (if a then some w else (if b then some v else o))
            ≡ (if b then some v else (if a then some w else o))
      swap true true h w v o = let clash = h refl refl in cc
      swap true false h w v o = refl
      swap false b h w v o = refl

  keys-insert :
      (j : Str) (v : PacketDataValue N) (obj : ValueObject N)
      → keys (insert j v obj) ≡ with_key j (keys obj)
  unfolding insert
  keys-insert j v ValueObject.end = refl
  keys-insert j v (ValueObject.entry i w obj) = elim (Bool-cases (same i j)) [
    | inl e ↦ rw e refl
    | inr e ↦ rw e (ap (λ ks. i ∷ ks) (keys-insert j v obj))
  ]

  lookup-insert_all :
      (k : Str) (ps : List (Str × PacketDataValue N)) (obj : ValueObject N)
      → lookup k (insert_all ps obj) ≡ last_value k ps (lookup k obj)
  lookup-insert_all k [] obj = refl
  lookup-insert_all k ((j, v) ∷ ps) obj =
      lookup-insert_all k ps (insert j v obj) ∙ ap (last_value k ps) (lookup-insert k j v obj)

  keys-insert_all :
      (ps : List (Str × PacketDataValue N)) (obj : ValueObject N)
      → keys (insert_all ps obj) ≡ first_keys ps (keys obj)
  keys-insert_all [] obj = refl
  keys-insert_all ((j, v) ∷ ps) obj =
      keys-insert_all ps (insert j v obj) ∙ ap (first_keys ps) (keys-insert j v obj)

  -- An object that holds entries: under each key its last value, the keys as they come first.
  pub record Holds (ps : List (Str × PacketDataValue N)) (obj : ValueObject N) : Type 0 where
    pub looked_up : (k : Str) → lookup k obj ≡ last_value k ps none
    pub in_order : keys obj ≡ first_keys ps []

  all-Holds : (ps : List (Str × PacketDataValue N)) → Holds ps (insert_all ps ValueObject.end)
  all-Holds ps = record {
    looked_up = λ k. lookup-insert_all k ps ValueObject.end;
    in_order = keys-insert_all ps ValueObject.end;
  }

module _ {numbers : Numbers} where
  -- The calls of a map that gives its entries one after the other, and the fields of a struct.
  abbrev pub calls_of : List (Term numbers × Term numbers) → Calls numbers
  calls_of [] = Calls.end
  calls_of ((k, v) ∷ es) = key k (value v (calls_of es))

  abbrev pub fields_of : List (Str × Term numbers) → Fields numbers
  fields_of [] = no_fields
  fields_of ((k, v) ∷ es) = field k v (fields_of es)

  -- The text of a key: of a number its decimal digits, of a text or a variant without data itself, in a
  -- newtype what is in it. Nothing else is a key.
  abbrev pub IsKey : Term numbers → Str → Type 0
  IsKey (Term.str s) j = s ≡ j
  IsKey (Term.collect_str s) j = s ≡ j
  IsKey (Term.char c) j = c ∷ [] ≡ j
  IsKey (Term.unit_variant name i variant) j = variant ≡ j
  IsKey (Term.newtype_struct name t) j = IsKey t j
  IsKey (Term.u8 n) j = to_string n ≡ j
  IsKey (Term.u16 n) j = to_string n ≡ j
  IsKey (Term.u32 n) j = to_string n ≡ j
  IsKey (Term.u64 n) j = to_string n ≡ j
  IsKey (Term.i8 n) j = signed_to_string n ≡ j
  IsKey (Term.i16 n) j = signed_to_string n ≡ j
  IsKey (Term.i32 n) j = signed_to_string n ≡ j
  IsKey (Term.i64 n) j = signed_to_string n ≡ j
  IsKey _ j = ⊥

  serialize_key-IsKey : (k : Term numbers) (j : Str) → IsKey k j → serialize_key k ≡ ok j
  unfolding serialize_key
  serialize_key-IsKey (Term.str s) j h = ap ok h
  serialize_key-IsKey (Term.collect_str s) j h = ap ok h
  serialize_key-IsKey (Term.char c) j h = ap ok h
  serialize_key-IsKey (Term.unit_variant name i variant) j h = ap ok h
  serialize_key-IsKey (Term.newtype_struct name t) j h = serialize_key-IsKey t j h
  serialize_key-IsKey (Term.u8 n) j h = ap ok h
  serialize_key-IsKey (Term.u16 n) j h = ap ok h
  serialize_key-IsKey (Term.u32 n) j h = ap ok h
  serialize_key-IsKey (Term.u64 n) j h = ap ok h
  serialize_key-IsKey (Term.i8 n) j h = ap ok h
  serialize_key-IsKey (Term.i16 n) j h = ap ok h
  serialize_key-IsKey (Term.i32 n) j h = ap ok h
  serialize_key-IsKey (Term.i64 n) j h = ap ok h
  serialize_key-IsKey _ j h = absurd h

  -- The keys have the texts and the values serialise to the values of these entries.
  abbrev pub Entries :
      List (Term numbers × Term numbers) → List (Str × PacketDataValue numbers.Number) → Type 0
  Entries [] [] = Unit
  Entries ((k, v) ∷ es) ((j, w) ∷ ps) = IsKey k j × (to_value v ≡ ok w) × Entries es ps
  Entries _ _ = ⊥

  abbrev pub FieldEntries :
      List (Str × Term numbers) → List (Str × PacketDataValue numbers.Number) → Type 0
  FieldEntries [] [] = Unit
  FieldEntries ((k, v) ∷ es) ((j, w) ∷ ps) = (k ≡ j) × (to_value v ≡ ok w) × FieldEntries es ps
  FieldEntries _ _ = ⊥

  serialize_calls-of :
      (es : List (Term numbers × Term numbers)) (ps : List (Str × PacketDataValue numbers.Number))
      (map : ValueObject numbers.Number)
      → Entries es ps
      → serialize_calls map none (calls_of es) ≡ ok (insert_all ps map)
  unfolding serialize to_value
  serialize_calls-of [] [] map h = refl
  serialize_calls-of [] (p ∷ ps) map h = absurd h
  serialize_calls-of (e ∷ es) [] map h = absurd h
  serialize_calls-of ((k, v) ∷ es) ((j, w) ∷ ps) map (hk, hv, h) =
      rw (serialize_key-IsKey k j hk) (rw hv (serialize_calls-of es ps (insert j w map) h))

  serialize_fields-of :
      (es : List (Str × Term numbers)) (ps : List (Str × PacketDataValue numbers.Number))
      (map : ValueObject numbers.Number)
      → FieldEntries es ps
      → serialize_fields map (fields_of es) ≡ ok (insert_all ps map)
  unfolding serialize to_value
  serialize_fields-of [] [] map h = refl
  serialize_fields-of [] (p ∷ ps) map h = absurd h
  serialize_fields-of (e ∷ es) [] map h = absurd h
  serialize_fields-of ((k, v) ∷ es) ((j, w) ∷ ps) map (hk, hv, h) =
      rw hk (rw hv (serialize_fields-of es ps (insert j w map) h))

  -- A struct whose fields serialise is an object that holds them in the same way.
  to_value-struct :
      (name : Str) (len : ℕ) (es : List (Str × Term numbers))
      (ps : List (Str × PacketDataValue numbers.Number))
      → FieldEntries es ps
      → (obj : ValueObject numbers.Number) × (to_value (Term.struct name len (fields_of es))
          ≡ ok (PacketDataValue.object obj))
        × Holds ps obj
  unfolding serialize to_value
  to_value-struct name len es ps h = (
    insert_all ps ValueObject.end,
    rw (serialize_fields-of es ps ValueObject.end h) refl,
    all-Holds ps,
  )

  -- A map whose keys are texts, characters, integers or variants, in newtypes or not, and whose values
  -- serialise, is an object that has under the text of each key the last value that the map gives for
  -- it, under no other key a value, and its keys in the order in which they come first.
  pub to_value-map :
      (len : Option ℕ) (es : List (Term numbers × Term numbers))
      (ps : List (Str × PacketDataValue numbers.Number))
      → Entries es ps
      → (obj : ValueObject numbers.Number) × (to_value (Term.map len (calls_of es))
          ≡ ok (PacketDataValue.object obj))
        × Holds ps obj
  unfolding serialize to_value
  to_value-map len es ps h = (
    insert_all ps ValueObject.end,
    rw (serialize_calls-of es ps ValueObject.end h) refl,
    all-Holds ps,
  )
