-- ===== src/SocketParser/Attachments.antt =====
-- socket_io_parser: what `encoder.rs` takes out of a packet, `decoder.rs` puts back.
use socket_io_server_rust.Prelude.{
  ℕ, ◌+◌, ◌<◌, ◌≡◌, refl, sym, ap, ◌∙◌, some, List, [], ◌∷◌, ◌++◌, Bytes, length, length-append,
  append_assoc, append-nil, usize_bound, arith,
}
use socket_io_server_rust.SocketParser.Json.{JsonValue, JsonArray, Json}
use socket_io_server_rust.SocketParser.Packet.{
  PacketDataValue, ValueArray, ValueObject, get_attachment_index_if_placeholder,
}
use socket_io_server_rust.SocketParser.Encoder.{
  deconstruct_packet_data, deconstruct_array, deconstruct_object, make_placeholder,
}
use socket_io_server_rust.SocketParser.Decoder.{
  Attachments, remove, enumerate, reconstruct_packet_data, reconstruct_array,
}

-- The data with the values of an object as an array: its keys are forgotten.
unfoldable mutual
  pub without_keys : {N : Type 0} → PacketDataValue N → PacketDataValue N
  without_keys (PacketDataValue.array xs) = PacketDataValue.array (without_keys_array xs)
  without_keys (PacketDataValue.object obj) = PacketDataValue.array (values obj)
  without_keys PacketDataValue.null = PacketDataValue.null
  without_keys (PacketDataValue.bool b) = PacketDataValue.bool b
  without_keys (PacketDataValue.number n) = PacketDataValue.number n
  without_keys (PacketDataValue.string s) = PacketDataValue.string s
  without_keys (PacketDataValue.binary d) = PacketDataValue.binary d

  pub without_keys_array : {N : Type 0} → ValueArray N → ValueArray N
  without_keys_array ValueArray.no_items = ValueArray.no_items
  without_keys_array (ValueArray.item el xs) =
      ValueArray.item (without_keys el) (without_keys_array xs)

  pub values : {N : Type 0} → ValueObject N → ValueArray N
  values ValueObject.end = ValueArray.no_items
  values (ValueObject.entry _ v obj) = ValueArray.item (without_keys v) (values obj)

-- The binary data, in order.
unfoldable mutual
  pub binaries : {N : Type 0} → PacketDataValue N → List Bytes
  binaries (PacketDataValue.array xs) = array_binaries xs
  binaries (PacketDataValue.object obj) = object_binaries obj
  binaries PacketDataValue.null = []
  binaries (PacketDataValue.bool b) = []
  binaries (PacketDataValue.number n) = []
  binaries (PacketDataValue.string s) = []
  binaries (PacketDataValue.binary d) = d ∷ []

  pub array_binaries : {N : Type 0} → ValueArray N → List Bytes
  array_binaries ValueArray.no_items = []
  array_binaries (ValueArray.item el xs) = binaries el ++ array_binaries xs

  pub object_binaries : {N : Type 0} → ValueObject N → List Bytes
  object_binaries ValueObject.end = []
  object_binaries (ValueObject.entry _ v obj) = binaries v ++ object_binaries obj

enumerate-append :
    (n : ℕ) (a b : List Bytes) (rest : Attachments)
    → enumerate n (a ++ b) ++ rest ≡ enumerate n a ++ (enumerate (n + length a) b ++ rest)
enumerate-append n [] b rest = ap (λ k. enumerate k b ++ rest) (omega arith)
enumerate-append n (x ∷ a) b rest =
    ap (λ t. (n, x) ∷ t)
      (enumerate-append (n + 1) a b rest
        ∙ ap (λ k. enumerate (n + 1) a ++ (enumerate k b ++ rest)) (omega arith))

remove_first : (n : ℕ) (d : Bytes) (rest : Attachments) → remove n ((n, d) ∷ rest) ≡ (some d, rest)
remove_first n d rest = ground arith

module _ (json : Json) where
  reconstruct-make_placeholder :
      (n : ℕ) (d : Bytes) (rest : Attachments)
      → n < usize_bound
      → reconstruct_packet_data json (make_placeholder json n) ((n, d) ∷ rest)
        ≡ (PacketDataValue.binary d, rest)
  unfolding reconstruct_packet_data get_attachment_index_if_placeholder
  reconstruct-make_placeholder n d rest h = rw (json.as_u64-from n h, remove_first n d rest) (refl)

  -- One more element, in front of the others.
  reconstruct_item :
      (j : JsonValue json.Number) (ys : JsonArray json.Number) (n m : ℕ) (a b : List Bytes)
      (rest : Attachments) (x : PacketDataValue json.Number) (zs : ValueArray json.Number)
      → ((r : Attachments) → reconstruct_packet_data json j (enumerate n a ++ r) ≡ (x, r))
      → reconstruct_array json ys (enumerate m b ++ rest) ≡ (zs, rest)
      → m ≡ n + length a
      → reconstruct_array json (JsonArray.item j ys) (enumerate n (a ++ b) ++ rest)
        ≡ (ValueArray.item x zs, rest)
  unfolding reconstruct_packet_data
  reconstruct_item j ys n m a b rest x zs e1 e2 l =
      ap (reconstruct_array json (JsonArray.item j ys)) (enumerate-append n a b rest)
      ∙ ap
          (λ (r : PacketDataValue json.Number × Attachments).
            let q = reconstruct_array json ys r.1 in (ValueArray.item r.0 q.0, q.1))
          (e1 (enumerate (n + length a) b ++ rest))
      ∙ ap
          (λ k.
            let q = reconstruct_array json ys (enumerate k b ++ rest) in
            (ValueArray.item x q.0, q.1))
          (sym l)
      ∙ ap (λ (q : ValueArray json.Number × Attachments). (ValueArray.item x q.0, q.1)) e2

  mutual
    unfolding deconstruct_packet_data binaries

    pub deconstruct-binaries :
        (v : PacketDataValue json.Number) (acc : List Bytes)
        → (deconstruct_packet_data json v acc).1 ≡ acc ++ binaries v
    deconstruct-binaries (PacketDataValue.array xs) acc = deconstruct_array-binaries xs acc
    deconstruct-binaries (PacketDataValue.object obj) acc = deconstruct_object-binaries obj acc
    deconstruct-binaries PacketDataValue.null acc = sym (append-nil acc)
    deconstruct-binaries (PacketDataValue.bool b) acc = sym (append-nil acc)
    deconstruct-binaries (PacketDataValue.number n) acc = sym (append-nil acc)
    deconstruct-binaries (PacketDataValue.string s) acc = sym (append-nil acc)
    deconstruct-binaries (PacketDataValue.binary d) acc = refl

    deconstruct_array-binaries :
        (xs : ValueArray json.Number) (acc : List Bytes)
        → (deconstruct_array json xs acc).1 ≡ acc ++ array_binaries xs
    deconstruct_array-binaries ValueArray.no_items acc = sym (append-nil acc)
    deconstruct_array-binaries (ValueArray.item el xs) acc =
        deconstruct_array-binaries xs (deconstruct_packet_data json el acc).1
        ∙ ap (λ t. t ++ array_binaries xs) (deconstruct-binaries el acc)
        ∙ append_assoc acc (binaries el) (array_binaries xs)

    deconstruct_object-binaries :
        (obj : ValueObject json.Number) (acc : List Bytes)
        → (deconstruct_object json obj acc).1 ≡ acc ++ object_binaries obj
    deconstruct_object-binaries ValueObject.end acc = sym (append-nil acc)
    deconstruct_object-binaries (ValueObject.entry k v obj) acc =
        deconstruct_object-binaries obj (deconstruct_packet_data json v acc).1
        ∙ ap (λ t. t ++ object_binaries obj) (deconstruct-binaries v acc)
        ∙ append_assoc acc (binaries v) (object_binaries obj)

  length-deconstructed :
      (v : PacketDataValue json.Number) (acc : List Bytes)
      → length (deconstruct_packet_data json v acc).1 ≡ length acc + length (binaries v)
  length-deconstructed v acc =
      ap length (deconstruct-binaries v acc) ∙ length-append acc (binaries v)

  mutual
    unfolding deconstruct_packet_data reconstruct_packet_data binaries without_keys

    reconstruct-deconstruct :
        (v : PacketDataValue json.Number) (acc : List Bytes) (rest : Attachments)
        → length acc + length (binaries v) < usize_bound
        → reconstruct_packet_data json
            (deconstruct_packet_data json v acc).0
            (enumerate (length acc) (binaries v) ++ rest)
          ≡ (without_keys v, rest)
    reconstruct-deconstruct (PacketDataValue.array xs) acc rest h =
        ap (λ r. (PacketDataValue.array r.0, r.1)) (reconstruct_array-deconstruct xs acc rest h)
    reconstruct-deconstruct (PacketDataValue.object obj) acc rest h =
        ap (λ r. (PacketDataValue.array r.0, r.1)) (reconstruct_array-values obj acc rest h)
    reconstruct-deconstruct PacketDataValue.null acc rest h = refl
    reconstruct-deconstruct (PacketDataValue.bool b) acc rest h = refl
    reconstruct-deconstruct (PacketDataValue.number n) acc rest h = refl
    reconstruct-deconstruct (PacketDataValue.string s) acc rest h = refl
    reconstruct-deconstruct (PacketDataValue.binary d) acc rest h =
        reconstruct-make_placeholder (length acc) d rest (omega arith)

    reconstruct_array-deconstruct :
        (xs : ValueArray json.Number) (acc : List Bytes) (rest : Attachments)
        → length acc + length (array_binaries xs) < usize_bound
        → reconstruct_array json
            (deconstruct_array json xs acc).0
            (enumerate (length acc) (array_binaries xs) ++ rest)
          ≡ (without_keys_array xs, rest)
    reconstruct_array-deconstruct ValueArray.no_items acc rest h = refl
    reconstruct_array-deconstruct (ValueArray.item el xs) acc rest h =
        let acc' = (deconstruct_packet_data json el acc).1 in
        let l : length acc' ≡ length acc + length (binaries el) = length-deconstructed el acc in
        let n : length (binaries el ++ array_binaries xs)
            ≡ length (binaries el) + length (array_binaries xs) =
          length-append (binaries el) (array_binaries xs) in
        reconstruct_item (deconstruct_packet_data json el acc).0 (deconstruct_array json xs acc').0
          (length acc) (length acc') (binaries el) (array_binaries xs) rest (without_keys el)
          (without_keys_array xs) (λ r. reconstruct-deconstruct el acc r (omega arith))
          (reconstruct_array-deconstruct xs acc' rest (omega arith)) l

    reconstruct_array-values :
        (obj : ValueObject json.Number) (acc : List Bytes) (rest : Attachments)
        → length acc + length (object_binaries obj) < usize_bound
        → reconstruct_array json
            (deconstruct_object json obj acc).0
            (enumerate (length acc) (object_binaries obj) ++ rest)
          ≡ (values obj, rest)
    reconstruct_array-values ValueObject.end acc rest h = refl
    reconstruct_array-values (ValueObject.entry k v obj) acc rest h =
        let acc' = (deconstruct_packet_data json v acc).1 in
        let l : length acc' ≡ length acc + length (binaries v) = length-deconstructed v acc in
        let n : length (binaries v ++ object_binaries obj)
            ≡ length (binaries v) + length (object_binaries obj) =
          length-append (binaries v) (object_binaries obj) in
        reconstruct_item (deconstruct_packet_data json v acc).0 (deconstruct_object json obj acc').0
          (length acc) (length acc') (binaries v) (object_binaries obj) rest (without_keys v)
          (values obj) (λ r. reconstruct-deconstruct v acc r (omega arith))
          (reconstruct_array-values obj acc' rest (omega arith)) l

  -- Taking the data of a packet apart and putting it together again, with the attachments in order,
  -- gives it back but for its objects: their values come back as an array. The attachments must be
  -- fewer than 2^64.
  pub reconstruct_packet_data-deconstruct :
      (v : PacketDataValue json.Number)
      → length (binaries v) < usize_bound
      → (let r = deconstruct_packet_data json v [] in
          reconstruct_packet_data json r.0 (enumerate 0 r.1) ≡ (without_keys v, []))
  reconstruct_packet_data-deconstruct v h =
      ap (λ b. reconstruct_packet_data json (deconstruct_packet_data json v []).0 (enumerate 0 b))
        (deconstruct-binaries v [])
      ∙ ap (reconstruct_packet_data json (deconstruct_packet_data json v []).0)
          (sym (append-nil (enumerate 0 (binaries v))))
      ∙ reconstruct-deconstruct v [] [] (omega arith)
