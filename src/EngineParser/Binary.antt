-- ===== src/EngineParser/Binary.antt =====
-- engine_io_parser/src/binary.rs: packets and payloads as bytes. The functions take the combinators
-- of `nom` as a parameter. A vector that grows is a list that is appended to.
pub mod Length
pub mod LengthLaws
pub mod RoundTrip
pub mod Lost
pub mod Single
use socket_io_server_rust.Prelude.{
  ℕ, zero, suc, ◌+◌, ◌-◌, ◌≡◌, refl, Bytes, as_bytes, is_utf8, ◌==◌, if◌then◌else◌, ◌||◌, Option,
  none, some, List, [], ◌∷◌, ◌++◌, length, get_elem?, checked_sub, Outcome, ok, err, panic,
}
use socket_io_server_rust.Nom.{
  Input, digit, alpha_numeric, IResult, parsed, error, failure, panicked, ◌>>=◌, Combinators,
}
use socket_io_server_rust.EngineParser.Packet.{
  PacketType, PacketData, text, binary, empty, Packet, ParsePacketError, as_u8, parse_from_u8,
}
use socket_io_server_rust.EngineParser.Binary.Length.{packet_length, encode_packet_length}

-- A step that panics on `none`, and takes no input.
abbrev pub or_panic : Input → Option ℕ → IResult ℕ
or_panic input none = panicked
or_panic input (some n) = parsed (input, n)

-- `acc.push(item)`.
abbrev pub push : List Packet → Packet → List Packet
push acc item = acc ++ item ∷ []

abbrev take_amount : Option ℕ → Input → ℕ
take_amount (some l) input = l
take_amount none input = length input

module _ (nom : Combinators Packet) where
  unfoldable pub parse_binary_data_packet : Input → Option ℕ → IResult Packet
  unfolding parse_from_u8
  parse_binary_data_packet input data_length = do
    (input, packet_type_index) ← nom.le_u8 input
    (input, data') ← nom.take (take_amount data_length input) input
    (_, packet_type) ← parse_from_u8 packet_type_index input
    parsed (input, record { packet_type = packet_type; data' = binary data' })

  unfoldable pub parse_string_data_packet : Input → ℕ → IResult Packet
  unfolding parse_from_u8 is_utf8
  parse_string_data_packet input data_length = do
    (input, packet_type_ascii) ← nom.digit1 input
    (input, data') ← nom.take data_length input
    (_, first) ← or_panic input (get_elem? packet_type_ascii 0)
    (_, index) ← or_panic input (checked_sub first b'0')
    (_, packet_type) ← parse_from_u8 index input
    if is_utf8 data'
        then parsed (input, record { packet_type = packet_type; data' = binary data' })
        else failure input alpha_numeric

  unfoldable pub parse_packet_length : Input → IResult ℕ
  unfolding packet_length
  parse_packet_length input = do
    (input, packet_length_encoded) ← nom.take_till1 (λ c. c == 255) input
    or_panic input (packet_length packet_length_encoded)

  unfoldable pub parse_packet_data_type_in_binary_payload : Input → IResult ℕ
  parse_packet_data_type_in_binary_payload input = do
    (input, packet_type_arr) ← nom.take 1 input
    (_, packet_type) ← or_panic input (get_elem? packet_type_arr 0)
    if packet_type == 0 || packet_type == 1
        then parsed (input, packet_type)
        else failure input digit

  unfoldable pub parse_binary_packet_in_payload : Input → IResult Packet
  unfolding parse_packet_data_type_in_binary_payload parse_packet_length parse_string_data_packet
      parse_binary_data_packet
  parse_binary_packet_in_payload input = do
    (input, packet_data_type) ← parse_packet_data_type_in_binary_payload input
    (input, packet_length) ← parse_packet_length input
    (input, _) ← nom.take 1 input
    (_, data_length) ← or_panic input (checked_sub packet_length 1)
    if packet_data_type == 0
        then parse_string_data_packet input data_length
        else parse_binary_data_packet input (some data_length)

  unfoldable pub parse_binary_payload : Input → IResult (List Packet)
  unfolding parse_binary_packet_in_payload
  parse_binary_payload = nom.fold_many0 parse_binary_packet_in_payload [] push

  -- `decoder::decode_packet`
  unfoldable pub decode_packet : Input → Outcome ParsePacketError Packet
  unfolding parse_binary_data_packet
  decode_packet input = elim (parse_binary_data_packet input none) [
    | parsed (_, packet) ↦ ok packet
    | panicked ↦ panic
    | _ ↦ err (record { message = "Unable to decode packet" })
  ]

  -- `decoder::decode_payload`
  unfoldable pub decode_payload : Input → Outcome ParsePacketError (List Packet)
  unfolding parse_binary_payload
  decode_payload input = elim (parse_binary_payload input) [
    | parsed (_, packets) ↦ ok packets
    | panicked ↦ panic
    | _ ↦ err (record { message = "Unable to decode payload" })
  ]

serialize_data : PacketType → PacketData → Bytes
serialize_data packet_type (text data') = (as_u8 packet_type + b'0') ∷ as_bytes data'
serialize_data packet_type (binary data') = as_u8 packet_type ∷ data'
serialize_data packet_type empty = (as_u8 packet_type + b'0') ∷ []

-- `encoder::encode_packet`
unfoldable pub encode_packet : Packet → Bytes
unfolding serialize_data as_bytes
encode_packet input = serialize_data input.packet_type input.data'

unfoldable pub serialize_packet_in_payload : PacketType → PacketData → Bytes
unfolding encode_packet_length as_bytes
serialize_packet_in_payload packet_type (text data') =
    let data_bytes = as_bytes data' in
    (0 ∷ encode_packet_length (length data_bytes + 1))
    ++ (255 ∷ (as_u8 packet_type + b'0') ∷ data_bytes)
serialize_packet_in_payload packet_type (binary data') =
    (1 ∷ encode_packet_length (length data' + 1)) ++ (255 ∷ as_u8 packet_type ∷ data')
serialize_packet_in_payload packet_type empty = 1 ∷ b'0' ∷ 255 ∷ (as_u8 packet_type + b'0') ∷ []

serialize_onto : Bytes → List Packet → Bytes
serialize_onto acc [] = acc
serialize_onto acc (packet ∷ packets) =
    serialize_onto (acc ++ serialize_packet_in_payload packet.packet_type packet.data') packets

-- `encoder::encode_payload`: a left fold over the packets.
unfoldable pub encode_payload : List Packet → Bytes
unfolding serialize_onto serialize_packet_in_payload
encode_payload input = serialize_onto [] input
