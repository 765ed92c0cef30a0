-- ===== src/Tests/SocketParser.antt =====
-- socket_io_parser: runs, and the theorems at concrete inputs, with a stand-in for `serde_json` that
-- meets its law.
use socket_io_server_rust.Prelude.{
  List, Bytes, ℕ, ◌≡◌, refl, none, some, Option, [], ◌∷◌, ok, err, panic, arith, Str,
}
use socket_io_server_rust.Nom.{Combinators}
use socket_io_server_rust.Nom.Model.{model}
use socket_io_server_rust.EngineParser.Packet as Engine
use socket_io_server_rust.SocketParser.Json.{chars, Json, JsonValue, JsonArray}
use socket_io_server_rust.SocketParser.Packet.{
  PacketType, PacketDataValue, ValueArray, ValueObject, Packet, as_u8,
}
use socket_io_server_rust.SocketParser.Encoder.{
  deconstruct_packet_data, encode_packet, engine_packets,
}
use socket_io_server_rust.SocketParser.Parsing.{
  digits_to_u32, decode_proto_packet, packet_parse_error,
}
use socket_io_server_rust.SocketParser.Decoder.{enumerate, reconstruct_packet_data}
use socket_io_server_rust.SocketParser.Attachments.{
  reconstruct_packet_data-deconstruct, without_keys, binaries,
}
use socket_io_server_rust.EngineParser.Base64.{Base64}
use socket_io_server_rust.EngineParser.StringFormat
use socket_io_server_rust.SocketParser.Carried.{decode_packet-engine_packets}
use socket_io_server_rust.SocketParser.Counts.{digits_to_u32-digits}
use socket_io_server_rust.SocketParser.Texts.Refused.{
  decode_proto_packet_binary, decode_proto_packet_id,
}

-- `{"file": <1, 2>}`
abbrev upload : {N : Type 0} → PacketDataValue N
upload =
    PacketDataValue.object
      (ValueObject.entry (chars "file") (PacketDataValue.binary (1 ∷ 2 ∷ [])) ValueObject.end)

abbrev json : Json
json = record {
  Number = ℕ;
  as_u64 = λ n. some n;
  from_u64 = λ n. n;
  as_u64-from = λ n h. refl;
  to_string = λ _. [];
  from_str = λ _. none;
}

-- `["upload", {"file": <1, 2>}]`
abbrev arguments : PacketDataValue ℕ
arguments = PacketDataValue.array (
    ValueArray.item (PacketDataValue.string (chars "upload"))
      (ValueArray.item upload ValueArray.no_items))

-- The key "file" is lost.
reconstruct_packet_data-deconstruct_example :
    reconstruct_packet_data json
      (deconstruct_packet_data json arguments []).0
      (enumerate 0 (deconstruct_packet_data json arguments []).1)
    ≡ (
      PacketDataValue.array (
          ValueArray.item (PacketDataValue.string (chars "upload")) (
            ValueArray.item
              (PacketDataValue.array
                (ValueArray.item (PacketDataValue.binary (1 ∷ 2 ∷ [])) ValueArray.no_items))
              ValueArray.no_items)),
      [],
    )
unfolding binaries without_keys
reconstruct_packet_data-deconstruct_example =
    reconstruct_packet_data-deconstruct json arguments (omega arith)

-- The count of attachments is read ten times too large, and nine digits can overflow.
digits_to_u32_runs : (digits_to_u32 (chars "1") ≡ ok 10) × (digits_to_u32 (chars "12") ≡ ok 120)
unfolding digits_to_u32
digits_to_u32_runs = (refl, refl)

digits_to_u32-digits_example : digits_to_u32 (chars "429496730") ≡ panic
digits_to_u32-digits_example =
    digits_to_u32-digits (chars "429496730")
      (refl, (refl, (refl, (refl, (refl, (refl, (refl, (refl, (refl, tt)))))))))

abbrev nom : Combinators Engine.Packet
nom = model

-- A stand-in that writes and reads `["a"]`.
abbrev event_data : JsonValue ℕ
event_data = JsonValue.array (JsonArray.item (JsonValue.string (chars "a")) JsonArray.no_items)

abbrev read_event : Str → Option (JsonValue ℕ)
read_event [] = none
read_event (c ∷ cs) = some event_data

abbrev event_json : Json
event_json = record {
  Number = ℕ;
  as_u64 = λ n. some n;
  from_u64 = λ n. n;
  as_u64-from = λ n h. refl;
  to_string = λ _. chars "[]";
  from_str = read_event;
}

abbrev event_packet : Option ℕ → Packet ℕ
event_packet id = record {
  packet_type = PacketType.event;
  id = id;
  nsp = chars "/a";
  data' =
      PacketDataValue.array
        (ValueArray.item (PacketDataValue.string (chars "a")) ValueArray.no_items);
}

decode_proto_packet_id_example :
    decode_proto_packet event_json nom (encode_packet event_json (event_packet (some 7))).packet
    ≡ err packet_parse_error
unfolding deconstruct_packet_data as_u8
decode_proto_packet_id_example =
    decode_proto_packet_id event_json nom (event_packet (some 7)) 7 refl (omega arith) refl
      (refl, (refl, tt)) (refl, (λ e. cc), (λ e. cc))

decode_proto_packet_binary_example :
    decode_proto_packet event_json nom
      (encode_packet event_json (record (event_packet none) {
        packet_type = PacketType.binary_event;
        data' = upload;
      })).packet
    ≡ err packet_parse_error
decode_proto_packet_binary_example =
    decode_proto_packet_binary event_json nom
      (record (event_packet none) { packet_type = PacketType.binary_event; data' = upload }) refl

-- A stand-in for base64 that meets its law.
abbrev strip : Str → Option Bytes
strip [] = none
strip (c ∷ cs) = some cs

abbrev base64 : Base64
base64 = record { encode = λ d. b'A' ∷ d; decode = strip; decode-encode = λ d. refl }

decode_packet-engine_packets_example :
    (header : Engine.Packet) × (attachments : List Engine.Packet) × (engine_packets
        (encode_packet event_json (event_packet none))
      ≡ header ∷ attachments)
    × (StringFormat.decode_packet nom (StringFormat.encode_packet base64 header)
        ≡ err (record { message = "Unable to decode packet" }))
decode_packet-engine_packets_example =
    decode_packet-engine_packets nom base64 event_json (event_packet none)
