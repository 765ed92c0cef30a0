-- ===== src/SocketParser/Encoder.antt =====
-- socket_io_parser/src/encoder.rs: a packet as a text and its attachments. The shared vector of
-- attachments is passed along.
use socket_io_server_rust.Prelude.{
  ℕ, Bool, true, false, not, if◌then◌else◌, Option, none, some, List, [], ◌∷◌, ◌++◌, map, Str,
  Bytes, length, to_string,
}
use socket_io_server_rust.EngineParser.Packet as Engine
use socket_io_server_rust.SocketParser.Json.{chars, same, JsonValue, JsonArray, JsonObject, Json}
use socket_io_server_rust.SocketParser.Packet.{
  PacketType, PacketDataValue, ValueArray, ValueObject, Packet, as_u8,
}

pub record EncodedPacket : Type 0 where
  pub packet : Str
  pub attachments : List Bytes

abbrev attachment_packet : Bytes → Engine.Packet
attachment_packet attachment = record {
  packet_type = Engine.PacketType.message;
  data' = Engine.PacketData.binary attachment;
}

-- `From<EncodedPacket> for Vec<EnginePacket>`
unfoldable pub engine_packets : EncodedPacket → List Engine.Packet
engine_packets encoded =
    record {
      packet_type = Engine.PacketType.message;
      data' = Engine.PacketData.text encoded.packet;
    }
    ∷ map attachment_packet encoded.attachments

module _ (json : Json) where
  abbrev pub make_placeholder : ℕ → JsonValue json.Number
  make_placeholder index = JsonValue.object (
      JsonObject.entry (chars "_placeholder") (JsonValue.bool true)
        (JsonObject.entry (chars "num") (JsonValue.number (json.from_u64 index)) JsonObject.end))

  unfoldable mutual
    pub deconstruct_packet_data :
        PacketDataValue json.Number → List Bytes → JsonValue json.Number × List Bytes
    deconstruct_packet_data PacketDataValue.null attachments = (JsonValue.null, attachments)
    deconstruct_packet_data (PacketDataValue.bool value) attachments =
        (JsonValue.bool value, attachments)
    deconstruct_packet_data (PacketDataValue.number value) attachments =
        (JsonValue.number value, attachments)
    deconstruct_packet_data (PacketDataValue.string value) attachments =
        (JsonValue.string value, attachments)
    deconstruct_packet_data (PacketDataValue.array xs) attachments =
        let r = deconstruct_array xs attachments in (JsonValue.array r.0, r.1)
    deconstruct_packet_data (PacketDataValue.object obj) attachments =
        let r = deconstruct_object obj attachments in (JsonValue.array r.0, r.1)
    deconstruct_packet_data (PacketDataValue.binary data') attachments =
        (make_placeholder (length attachments), attachments ++ data' ∷ [])

    pub deconstruct_array : ValueArray json.Number → List Bytes → JsonArray json.Number × List Bytes
    deconstruct_array ValueArray.no_items attachments = (JsonArray.no_items, attachments)
    deconstruct_array (ValueArray.item el xs) attachments =
        let r = deconstruct_packet_data el attachments in
        let q = deconstruct_array xs r.1 in (JsonArray.item r.0 q.0, q.1)

    -- `.map(|(_, v)| ...).collect()`: the values, as an array.
    pub deconstruct_object :
        ValueObject json.Number → List Bytes → JsonArray json.Number × List Bytes
    deconstruct_object ValueObject.end attachments = (JsonArray.no_items, attachments)
    deconstruct_object (ValueObject.entry _ v obj) attachments =
        let r = deconstruct_packet_data v attachments in
        let q = deconstruct_object obj r.1 in (JsonArray.item r.0 q.0, q.1)

  abbrev pub is_binary : PacketType → Bool
  is_binary PacketType.binary_event = true
  is_binary PacketType.binary_ack = true
  is_binary _ = false

  abbrev pub serialized : JsonValue json.Number → Str
  serialized JsonValue.null = []
  serialized header = json.to_string header

  abbrev pub id_text : Option ℕ → Str
  id_text none = []
  id_text (some id) = to_string id

  unfoldable pub encode_packet : Packet json.Number → EncodedPacket
  unfolding as_u8 to_string deconstruct_packet_data
  encode_packet packet =
      let r = deconstruct_packet_data packet.data' [] in
      record {
        packet =
            to_string (as_u8 packet.packet_type)
            ++ (if is_binary packet.packet_type then to_string (length r.1) ++ b'-' ∷ [] else [])
            ++ (if not (same packet.nsp (b'/' ∷ [])) then packet.nsp ++ b',' ∷ [] else [])
            ++ id_text packet.id
            ++ serialized r.0;
        attachments = r.1;
      }
