-- ===== src/SocketParser/Parsing.antt =====
-- socket_io_parser/src/decoder.rs: the text of a packet.
use socket_io_server_rust.Prelude.{
  ℕ, ◌+◌, ◌*◌, ◌^◌, ◌-◌, ltb, ◌==◌, Bool, true, false, if◌then◌else◌, Option, none, some, [], ◌∷◌,
  Str, length, digits_value, fits_u32, Outcome, ok, err, panic, is_digit,
}
use socket_io_server_rust.Nom.{
  Input, digit, satisfy, IResult, parsed, error, failure, panicked, ◌>>=◌, Combinators,
}
use socket_io_server_rust.SocketParser.Json.{JsonValue, JsonArray, Json}
use socket_io_server_rust.SocketParser.Packet.{
  PacketType, BinaryPacketType, ProtoPacket, try_into_binary, parse_from_u8, from_json,
}

pub data HandleEngineMessageError : Type 0 where
  invalid_packet_type packet_parse_error invalid_payload json_parse_error : HandleEngineMessageError
  too_many_attachments : HandleEngineMessageError

-- What one character adds to a `u32`; an overflow is a panic. The digits are those of `digit1`.
abbrev pub digit_at : ℕ → ℕ → ℕ → Option ℕ
digit_at power acc ch = elim (fits_u32 (10 ^ power)) [
  | none ↦ none
  | some p ↦ elim (fits_u32 ((ch - 48) * p)) [ none ↦ none | some q ↦ fits_u32 (acc + q) ]
]

-- The fold, with the digits before, and in all.
abbrev pub digits_fold : ℕ → ℕ → Str → ℕ → Outcome Unit ℕ
digits_fold digit_count order [] acc = ok acc
digits_fold digit_count order (ch ∷ digits) acc =
    elim (if is_digit ch then digit_at (digit_count - order) acc ch else some 0) [
      | none ↦ panic
      | some acc' ↦
          (let rest = digits_fold digit_count (order + 1) digits acc' in
            if is_digit ch then rest else err tt)
    ]

unfoldable pub digits_to_u32 : Str → Outcome Unit ℕ
digits_to_u32 digits = digits_fold (length digits) 0 digits 0

unfoldable pub digits_to_u64 : Str → Outcome Unit ℕ
unfolding digits_to_u32
digits_to_u64 = digits_to_u32

-- `.map_err(|_| Failure(..))?`
abbrev pub number_or_failure : Input → Outcome Unit ℕ → IResult ℕ
number_or_failure input (ok n) = parsed (input, n)
number_or_failure input (err _) = failure input digit
number_or_failure input panic = panicked

module _ {O : Type 0} (nom : Combinators O) where
  unfoldable pub take_u8 : Input → IResult ℕ
  take_u8 input = do
    (input, num) ← nom.digit1 input
    if ltb (digits_value 0 num) 256 then parsed (input, digits_value 0 num) else failure input digit

  unfoldable pub parse_attachments_count : Input → IResult ℕ
  unfolding digits_to_u32
  parse_attachments_count input = do
    (input, digits) ← nom.digit1 input
    (input, _) ← nom.one_char b'-' input
    number_or_failure input (digits_to_u32 digits)

  abbrev pub namespace_from : Input → IResult ℕ → IResult Str
  namespace_from orig_input (parsed _) = do
    (input, name) ← nom.take_till1 (λ c. c == b',') orig_input
    (input, _) ← nom.take 1 input
    parsed (input, name)
  namespace_from orig_input (error _ _) = parsed (orig_input, b'/' ∷ [])
  namespace_from orig_input (failure _ _) = parsed (orig_input, b'/' ∷ [])
  namespace_from orig_input panicked = panicked

  unfoldable pub parse_namespace : Input → IResult Str
  parse_namespace input = namespace_from input (nom.one_char b'/' input)

  abbrev pub some_id : IResult ℕ → IResult (Option ℕ)
  some_id (parsed (input, id)) = parsed (input, some id)
  some_id (error i k) = error i k
  some_id (failure i k) = failure i k
  some_id panicked = panicked

  abbrev pub id_from : Input → IResult Input → IResult (Option ℕ)
  id_from orig_input (parsed (input, digits)) = do
    (input, _) ← nom.one_char b'-' input
    some_id (number_or_failure input (digits_to_u64 digits))
  id_from orig_input (error _ _) = parsed (orig_input, none)
  id_from orig_input (failure _ _) = parsed (orig_input, none)
  id_from orig_input panicked = panicked

  unfoldable pub parse_id : Input → IResult (Option ℕ)
  parse_id input = id_from input (nom.digit1 input)

module _ (json : Json) where
  abbrev pub first_is_string : JsonArray json.Number → Bool
  first_is_string (JsonArray.item (JsonValue.string _) _) = true
  first_is_string _ = false

  unfoldable pub is_payload_valid : PacketType → JsonValue json.Number → Bool
  is_payload_valid PacketType.connect (JsonValue.object _) = true
  is_payload_valid PacketType.disconnect JsonValue.null = true
  is_payload_valid PacketType.connect_error (JsonValue.string _) = true
  is_payload_valid PacketType.connect_error (JsonValue.object _) = true
  is_payload_valid PacketType.event (JsonValue.array vec) = first_is_string vec
  is_payload_valid PacketType.binary_event (JsonValue.array vec) = first_is_string vec
  is_payload_valid PacketType.ack (JsonValue.array _) = true
  is_payload_valid PacketType.binary_ack (JsonValue.array _) = true
  is_payload_valid _ _ = false

  abbrev pub or_json_null : Option (JsonValue json.Number) → JsonValue json.Number
  or_json_null (some payload) = payload
  or_json_null none = JsonValue.null

  unfoldable pub parse_json_data : Input → PacketType → IResult (JsonValue json.Number)
  unfolding is_payload_valid
  parse_json_data input packet_type =
      let payload = or_json_null (json.from_str input) in
      if is_payload_valid packet_type payload
      then parsed (input, payload)
      else failure input satisfy

  -- `packet_type.try_into().unwrap()`
  abbrev pub multipart_or_panic :
      Input
      → Option BinaryPacketType
      → Option ℕ
      → Str
      → JsonValue json.Number
      → ℕ
      → IResult (ProtoPacket json.Number)
  multipart_or_panic input (some packet_type) id name payload attachments_count = parsed (
    input,
    ProtoPacket.multipart (record {
      packet_type = packet_type;
      id = id;
      nsp = some name;
      data' = payload;
      attachments_count = attachments_count;
    }),
  )
  multipart_or_panic input none id name payload attachments_count = panicked

  unfoldable pub parse_proto_packet :
      {O : Type 0} → Combinators O → Input → IResult (ProtoPacket json.Number)
  unfolding take_u8 parse_from_u8 try_into_binary parse_attachments_count parse_namespace parse_id
      parse_json_data from_json
  parse_proto_packet nom input = do
    (input, packet_type_index) ← take_u8 nom input
    (_, packet_type) ← parse_from_u8 packet_type_index input
    let attachments_part = parse_attachments_count nom input
    (input, attachments_count) ← elim (try_into_binary packet_type) [
      | some _ ↦ attachments_part
      | none ↦ parsed (input, 0)
    ]
    (input, name) ← parse_namespace nom input
    (input, id) ← parse_id nom input
    (input, payload) ← parse_json_data input packet_type
    if ltb 0 attachments_count
        then multipart_or_panic input (try_into_binary packet_type) id name payload
            attachments_count
        else parsed (
          input,
          ProtoPacket.plain (record {
            packet_type = packet_type;
            id = id;
            nsp = name;
            data' = from_json payload;
          }),
        )

  -- `DefaultDecoder::decode_proto_packet`
  unfoldable pub decode_proto_packet :
      {O : Type 0}
      → Combinators O
      → Str
      → Outcome HandleEngineMessageError (ProtoPacket json.Number)
  unfolding parse_proto_packet
  decode_proto_packet nom input = elim (parse_proto_packet nom input) [
    | parsed (_, packet) ↦ ok packet
    | panicked ↦ panic
    | _ ↦ err packet_parse_error
  ]
