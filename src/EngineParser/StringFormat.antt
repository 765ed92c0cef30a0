-- ===== src/EngineParser/StringFormat.antt =====
-- engine_io_parser/src/string.rs: packets and payloads as text. The functions take the combinators
-- of `nom`, and `base64`, as parameters. A `String` that grows is a list that is appended to.
pub mod Numbers
pub mod Single
pub mod Flat
pub mod RoundTrip
pub mod Lost
use socket_io_server_rust.Prelude.{
  ℕ, ◌+◌, Str, ltb, ◌==◌, if◌then◌else◌, Option, none, some, List, [], ◌∷◌, ◌++◌, length,
  digits_value, to_string, usize_bound, checked_sub, Outcome, ok, err, panic,
}
use socket_io_server_rust.Nom.{
  Input, digit, take_while1, IResult, parsed, error, failure, panicked, ◌>>=◌, Combinators,
}
use socket_io_server_rust.EngineParser.Base64.{Base64}
use socket_io_server_rust.EngineParser.Packet.{
  PacketType, PacketData, text, binary, empty, Packet, ParsePacketError, as_u8, parse_from_u8,
}

abbrev pub or_panic : Input → Option ℕ → IResult ℕ
or_panic input none = panicked
or_panic input (some n) = parsed (input, n)

abbrev pub push : List Packet → Packet → List Packet
push acc item = acc ++ item ∷ []

abbrev pub data_part : Combinators Packet → Option ℕ → Input → IResult Input
data_part nom (some l) input = nom.take l input
data_part nom none input = parsed ([], input)

module _ (nom : Combinators Packet) where
  unfoldable pub take_u8 : Input → IResult ℕ
  take_u8 input = do
    (input, num) ← nom.digit1 input
    if ltb (digits_value 0 num) 256 then parsed (input, digits_value 0 num) else failure input digit

  unfoldable pub take_usize : Input → IResult ℕ
  take_usize input = do
    (input, num) ← nom.digit1 input
    if ltb (digits_value 0 num) usize_bound
        then parsed (input, digits_value 0 num)
        else failure input digit

  unfoldable pub parse_string_packet : Input → Option ℕ → IResult Packet
  unfolding take_u8 parse_from_u8
  parse_string_packet input data_length = do
    (input, packet_type_index) ← take_u8 input
    (input, data') ← data_part nom data_length input
    (_, packet_type) ← parse_from_u8 packet_type_index input
    parsed (input, record { packet_type = packet_type; data' = text data' })

  unfoldable pub parse_plaintext_string_packet : ℕ → Input → IResult Packet
  unfolding parse_string_packet
  parse_plaintext_string_packet data_length input = parse_string_packet input (some data_length)

  -- `decoder::decode_packet`
  unfoldable pub decode_packet : Input → Outcome ParsePacketError Packet
  unfolding parse_string_packet
  decode_packet input = elim (parse_string_packet input none) [
    | parsed (_, packet) ↦ ok packet
    | panicked ↦ panic
    | _ ↦ err (record { message = "Unable to decode packet" })
  ]

module _ (nom : Combinators Packet) (base64 : Base64) where
  abbrev pub or_failure : Input → PacketType → Option (List ℕ) → IResult Packet
  or_failure input packet_type (some vec) =
      parsed (input, record { packet_type = packet_type; data' = binary vec })
  or_failure input packet_type none = failure input take_while1

  unfoldable pub parse_base64_string_packet : ℕ → Input → IResult Packet
  unfolding take_u8 parse_from_u8
  parse_base64_string_packet data_length input = do
    (input, _) ← nom.one_char b'b' input
    (_, data_length) ← or_panic input (checked_sub data_length 1)
    (input, packet_type_index) ← take_u8 nom input
    (input, data_b64) ← nom.take data_length input
    (_, packet_type) ← parse_from_u8 packet_type_index input
    or_failure input packet_type (base64.decode data_b64)

  unfoldable pub parse_string_packet_in_payload : Input → IResult Packet
  unfolding take_usize parse_plaintext_string_packet parse_base64_string_packet
  parse_string_packet_in_payload input = do
    (input, packet_length) ← take_usize nom input
    (input, _) ← nom.one_char b':' input
    (_, data_length) ← or_panic input (checked_sub packet_length 1)
    nom.alt (parse_plaintext_string_packet nom data_length) (parse_base64_string_packet data_length)
        input

  unfoldable pub parse_string_payload : Input → IResult (List Packet)
  unfolding parse_string_packet_in_payload
  parse_string_payload = nom.fold_many0 parse_string_packet_in_payload [] push

  -- `decoder::decode_payload`
  unfoldable pub decode_payload : Input → Outcome ParsePacketError (List Packet)
  unfolding parse_string_payload
  decode_payload input = elim (parse_string_payload input) [
    | parsed (_, packets) ↦ ok packets
    | panicked ↦ panic
    | _ ↦ err (record { message = "Unable to decode payload" })
  ]

module _ (base64 : Base64) where
  abbrev pub data_string : PacketData → Str
  data_string (text data') = data'
  data_string (binary data') = base64.encode data'
  data_string empty = []

  -- `serialize_packet`, which is `encoder::encode_packet` and `encoder::encode_base64_packet` too.
  unfoldable pub encode_packet : Packet → Str
  unfolding to_string
  encode_packet packet = to_string (as_u8 packet.packet_type) ++ data_string packet.data'

  -- What the fold of `serialize_payload` pushes for one packet.
  abbrev pub piece : PacketData → Str → Str
  piece (binary _) serialized = to_string (length serialized + 1) ++ (b':' ∷ b'b' ∷ serialized)
  piece (text _) serialized = to_string (length serialized) ++ (b':' ∷ serialized)
  piece empty serialized = []

  serialize_onto : Str → List Packet → Str
  unfolding encode_packet
  serialize_onto acc [] = acc
  serialize_onto acc (packet ∷ packets) =
      serialize_onto (acc ++ piece packet.data' (encode_packet packet)) packets

  -- `encoder::encode_payload`
  unfoldable pub encode_payload : List Packet → Str
  unfolding serialize_onto
  encode_payload packets = serialize_onto [] packets
