-- ===== src/SocketParser/Serializer/Objects.antt =====
-- socket_io_parser/src/ser.rs: the entries of an object, and what `IndexMap::insert` makes of them.
use socket_io_server_rust.Prelude.{
  Bool, false, ◌||◌, Bool-cases, inl, inr, ◌≡◌, refl, ap, Str, arith,
}
use socket_io_server_rust.SocketParser.Json.{same}
use socket_io_server_rust.SocketParser.Packet.{PacketDataValue, ValueArray, ValueObject}
use socket_io_server_rust.SocketParser.Serializer.{insert, push}

abbrev pub has_key : {N : Type 0} → Str → ValueObject N → Bool
has_key k ValueObject.end = false
has_key k (ValueObject.entry j w obj) = same j k || has_key k obj

abbrev pub append : {N : Type 0} → ValueArray N → ValueArray N → ValueArray N
append ValueArray.no_items ys = ys
append (ValueArray.item v xs) ys = ValueArray.item v (append xs ys)

abbrev pub join : {N : Type 0} → ValueObject N → ValueObject N → ValueObject N
join ValueObject.end o = o
join (ValueObject.entry k v obj) o = ValueObject.entry k v (join obj o)

pub or_false : (a b : Bool) → a || b ≡ false → (a ≡ false) × (b ≡ false)
or_false a b h = ground arith

or_false_back : (a b : Bool) → a ≡ false → b ≡ false → a || b ≡ false
or_false_back a b ha hb = ground arith

module _ {N : Type 0} where
  pub append-push :
      (xs : ValueArray N) (v : PacketDataValue N) (ys : ValueArray N)
      → append (push xs v) ys ≡ append xs (ValueArray.item v ys)
  unfolding push
  append-push ValueArray.no_items v ys = refl
  append-push (ValueArray.item w xs) v ys = ap (ValueArray.item w) (append-push xs v ys)

  -- An insertion adds its key, and no other.
  pub has_key-insert :
      (k j : Str) (v : PacketDataValue N) (obj : ValueObject N)
      → same k j ≡ false
      → has_key j obj ≡ false
      → has_key j (insert k v obj) ≡ false
  unfolding insert
  has_key-insert k j v ValueObject.end ne h = ground arith
  has_key-insert k j v (ValueObject.entry i w obj) ne h = elim (Bool-cases (same i k)) [
    | inl e ↦ rw e h
    | inr e ↦ rw e (
        let (hi, hj) = or_false (same i j) (has_key j obj) h in
        or_false_back (same i j) _ hi (has_key-insert k j v obj ne hj))
  ]

  -- The insertion of a key that is not there appends the entry.
  pub insert-append :
      (k : Str) (v : PacketDataValue N) (obj o : ValueObject N)
      → has_key k obj ≡ false
      → join (insert k v obj) o ≡ join obj (ValueObject.entry k v o)
  unfolding insert
  insert-append k v ValueObject.end o h = refl
  insert-append k v (ValueObject.entry j w obj) o h =
      let (hj, rest) = or_false (same j k) (has_key k obj) h in
      rw hj (ap (ValueObject.entry j w) (insert-append k v obj o rest))
