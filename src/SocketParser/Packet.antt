-- ===== src/SocketParser/Packet.antt =====
-- socket_io_parser/src/packet.rs: packets, and the data in them. A JSON number is an opaque type `N`.
use socket_io_server_rust.Prelude.{
  ℕ, ltb, ◌==◌, if◌then◌else◌, Bool, true, false, Option, none, some, Str, Bytes,
}
use socket_io_server_rust.Nom.{Input, digit, IResult, parsed, failure}
use socket_io_server_rust.SocketParser.Json.{chars, JsonValue, JsonArray, JsonObject, get}

pub data PacketType : Type 0 where
  connect disconnect event ack connect_error binary_event binary_ack : PacketType

pub data BinaryPacketType : Type 0 where
  binary_event binary_ack : BinaryPacketType

-- `PacketType as u8`
unfoldable pub as_u8 : PacketType → ℕ
as_u8 PacketType.connect = 0
as_u8 PacketType.disconnect = 1
as_u8 PacketType.event = 2
as_u8 PacketType.ack = 3
as_u8 PacketType.connect_error = 4
as_u8 PacketType.binary_event = 5
as_u8 PacketType.binary_ack = 6

-- `TryFrom<u8>`
unfoldable pub try_from : ℕ → Option PacketType
try_from value =
    if value == 0
    then some PacketType.connect
    else if value == 1
    then some PacketType.disconnect
    else if value == 2
    then some PacketType.event
    else if value == 3
    then some PacketType.ack
    else if value == 4
    then some PacketType.connect_error
    else if value == 5
    then some PacketType.binary_event
    else if value == 6
    then some PacketType.binary_ack
    else none

abbrev type_or_failure : Input → Option PacketType → IResult PacketType
type_or_failure original_input (some packet_type) = parsed (original_input, packet_type)
type_or_failure original_input none = failure original_input digit

unfoldable pub parse_from_u8 : ℕ → Input → IResult PacketType
unfolding try_from
parse_from_u8 value original_input = type_or_failure original_input (try_from value)

-- `From<BinaryPacketType>`
unfoldable pub from_binary : BinaryPacketType → PacketType
from_binary BinaryPacketType.binary_ack = PacketType.binary_ack
from_binary BinaryPacketType.binary_event = PacketType.binary_event

-- `TryFrom<PacketType>`
unfoldable pub try_into_binary : PacketType → Option BinaryPacketType
try_into_binary PacketType.binary_ack = some BinaryPacketType.binary_ack
try_into_binary PacketType.binary_event = some BinaryPacketType.binary_event
try_into_binary _ = none

mutual
  pub data PacketDataValue (N : Type 0) : Type 0 where
    null : PacketDataValue N
    bool : Bool → PacketDataValue N
    number : N → PacketDataValue N
    string : Str → PacketDataValue N
    array : ValueArray N → PacketDataValue N
    object : ValueObject N → PacketDataValue N
    binary : Bytes → PacketDataValue N

  pub data ValueArray (N : Type 0) : Type 0 where
    no_items : ValueArray N
    item : PacketDataValue N → ValueArray N → ValueArray N

  pub data ValueObject (N : Type 0) : Type 0 where
    end : ValueObject N
    entry : Str → PacketDataValue N → ValueObject N → ValueObject N

-- `From<JsonValue>`
unfoldable mutual
  pub from_json : {N : Type 0} → JsonValue N → PacketDataValue N
  from_json JsonValue.null = PacketDataValue.null
  from_json (JsonValue.bool value) = PacketDataValue.bool value
  from_json (JsonValue.number value) = PacketDataValue.number value
  from_json (JsonValue.string value) = PacketDataValue.string value
  from_json (JsonValue.array xs) = PacketDataValue.array (from_json_array xs)
  from_json (JsonValue.object obj) = PacketDataValue.object (from_json_object obj)

  pub from_json_array : {N : Type 0} → JsonArray N → ValueArray N
  from_json_array JsonArray.no_items = ValueArray.no_items
  from_json_array (JsonArray.item v xs) = ValueArray.item (from_json v) (from_json_array xs)

  pub from_json_object : {N : Type 0} → JsonObject N → ValueObject N
  from_json_object JsonObject.end = ValueObject.end
  from_json_object (JsonObject.entry k v obj) =
      ValueObject.entry k (from_json v) (from_json_object obj)

abbrev index_if :
    {N : Type 0} → (N → Option ℕ) → Option (JsonValue N) → Option (JsonValue N) → Option ℕ
index_if as_u64 (some (JsonValue.bool true)) (some (JsonValue.number index)) = as_u64 index
index_if as_u64 _ _ = none

unfoldable pub get_attachment_index_if_placeholder :
    {N : Type 0} → (N → Option ℕ) → JsonObject N → Option ℕ
get_attachment_index_if_placeholder as_u64 obj =
    index_if as_u64 (get (chars "_placeholder") obj) (get (chars "num") obj)

pub record Packet (N : Type 0) : Type 0 where
  pub packet_type : PacketType
  pub id : Option ℕ
  pub nsp : Str
  pub data' : PacketDataValue N

pub record MultipartPacketHeader (N : Type 0) : Type 0 where
  pub packet_type : BinaryPacketType
  pub id : Option ℕ
  pub nsp : Option Str
  pub data' : JsonValue N
  pub attachments_count : ℕ

pub data ProtoPacket (N : Type 0) : Type 0 where
  multipart : MultipartPacketHeader N → ProtoPacket N
  plain : Packet N → ProtoPacket N

-- `MultipartPacketHeader::has_attachments`
unfoldable pub header_has_attachments : {N : Type 0} → MultipartPacketHeader N → Bool
header_has_attachments header = ltb 0 header.attachments_count

-- `ProtoPacket::has_attachments`
unfoldable pub has_attachments : {N : Type 0} → ProtoPacket N → Bool
unfolding header_has_attachments
has_attachments (ProtoPacket.multipart header) = header_has_attachments header
has_attachments (ProtoPacket.plain _) = false

-- `ProtoPacket::packet_type`
unfoldable pub proto_packet_type : {N : Type 0} → ProtoPacket N → PacketType
unfolding from_binary
proto_packet_type (ProtoPacket.multipart header) = from_binary header.packet_type
proto_packet_type (ProtoPacket.plain packet) = packet.packet_type
