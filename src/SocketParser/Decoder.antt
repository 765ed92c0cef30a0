-- ===== src/SocketParser/Decoder.antt =====
-- socket_io_parser/src/decoder.rs: the decoder that waits for the attachments of a packet. The shared
-- map of attachments is passed along.
use socket_io_server_rust.Prelude.{
  ℕ, ◌+◌, ◌==◌, Bool, if◌then◌else◌, Option, none, some, List, [], ◌∷◌, ◌++◌, Str, Bytes, length,
  Outcome, ok, err,
}
use socket_io_server_rust.SocketParser.Json.{JsonValue, JsonArray, JsonObject, Json}
use socket_io_server_rust.SocketParser.Packet.{
  PacketDataValue, ValueArray, ValueObject, Packet, MultipartPacketHeader, from_binary,
  get_attachment_index_if_placeholder,
}
use socket_io_server_rust.SocketParser.Parsing.{HandleEngineMessageError, too_many_attachments}

-- `HashMap<usize, Bytes>`
abbrev pub Attachments : Type 0
Attachments = List (ℕ × Bytes)

-- `HashMap::remove`
abbrev pub remove : ℕ → Attachments → Option Bytes × Attachments
remove index [] = (none, [])
remove index ((i, data') ∷ m) =
    let r = remove index m in if i == index then (some data', m) else (r.0, (i, data') ∷ r.1)

-- `into_iter().enumerate()`, from an index on.
abbrev pub enumerate : ℕ → List Bytes → Attachments
enumerate index [] = []
enumerate index (data' ∷ buffer) = (index, data') ∷ enumerate (index + 1) buffer

abbrev pub or_null : {N : Type 0} → Option Bytes → PacketDataValue N
or_null (some data') = PacketDataValue.binary data'
or_null none = PacketDataValue.null

module _ (json : Json) where
  unfoldable mutual
    unfolding get_attachment_index_if_placeholder

    pub reconstruct_packet_data :
        JsonValue json.Number → Attachments → PacketDataValue json.Number × Attachments
    reconstruct_packet_data JsonValue.null attachments = (PacketDataValue.null, attachments)
    reconstruct_packet_data (JsonValue.bool value) attachments =
        (PacketDataValue.bool value, attachments)
    reconstruct_packet_data (JsonValue.number value) attachments =
        (PacketDataValue.number value, attachments)
    reconstruct_packet_data (JsonValue.string value) attachments =
        (PacketDataValue.string value, attachments)
    reconstruct_packet_data (JsonValue.array xs) attachments =
        let r = reconstruct_array xs attachments in (PacketDataValue.array r.0, r.1)
    reconstruct_packet_data (JsonValue.object obj) attachments =
        let q = reconstruct_object obj attachments in
        elim (get_attachment_index_if_placeholder json.as_u64 obj) [
          | some index ↦ (let r = remove index attachments in (or_null r.0, r.1))
          | none ↦ (PacketDataValue.object q.0, q.1)
        ]

    pub reconstruct_array :
        JsonArray json.Number → Attachments → ValueArray json.Number × Attachments
    reconstruct_array JsonArray.no_items attachments = (ValueArray.no_items, attachments)
    reconstruct_array (JsonArray.item el xs) attachments =
        let r = reconstruct_packet_data el attachments in
        let q = reconstruct_array xs r.1 in (ValueArray.item r.0 q.0, q.1)

    pub reconstruct_object :
        JsonObject json.Number → Attachments → ValueObject json.Number × Attachments
    reconstruct_object JsonObject.end attachments = (ValueObject.end, attachments)
    reconstruct_object (JsonObject.entry k v obj) attachments =
        let r = reconstruct_packet_data v attachments in
        let q = reconstruct_object obj r.1 in (ValueObject.entry k r.0 q.0, q.1)

  pub record DefaultDecoder : Type 0 where
    pub header : MultipartPacketHeader json.Number
    pub buffer : List Bytes

  -- `DefaultDecoder::new`
  unfoldable pub new : MultipartPacketHeader json.Number → DefaultDecoder
  new packet_header = record { header = packet_header; buffer = [] }

  unfoldable pub can_collect : DefaultDecoder → Bool
  can_collect decoder = decoder.header.attachments_count == length decoder.buffer

  unfoldable pub decode_binary_data :
      DefaultDecoder → Bytes → Outcome HandleEngineMessageError Bool × DefaultDecoder
  unfolding can_collect
  decode_binary_data decoder data' =
      let pushed : DefaultDecoder = record decoder { buffer = decoder.buffer ++ data' ∷ [] } in
      if can_collect decoder
      then (err too_many_attachments, decoder)
      else (ok (can_collect pushed), pushed)

  -- `nsp.unwrap_or("/")`
  abbrev pub or_root : Option Str → Str
  or_root (some name) = name
  or_root none = b'/' ∷ []

  unfoldable pub collect_packet : DefaultDecoder → Option (Packet json.Number)
  unfolding can_collect from_binary reconstruct_packet_data
  collect_packet decoder =
      let data' = (reconstruct_packet_data decoder.header.data' (enumerate 0 decoder.buffer)).0 in
      if can_collect decoder
      then some (record {
        packet_type = from_binary decoder.header.packet_type;
        id = decoder.header.id;
        nsp = or_root decoder.header.nsp;
        data' = data';
      })
      else none
