-- ===== src/SocketParser/Texts.antt =====
-- socket_io_parser/src/encoder.rs and decoder.rs: how the decoder reads the parts of the text of a
-- packet.
pub mod Plain
pub mod Refused
use socket_io_server_rust.Prelude.{
  ℕ, ◌+◌, ◌*◌, ◌≤◌, ◌<◌, ltb, ◌==◌, ◌≡◌, ◌≢◌, refl, ap, sym, ◌∙◌, Bool, true, false, Bool-cases,
  not, if◌then◌else◌, inl, inr, Option, none, some, List, [], ◌∷◌, ◌++◌, append-nil, append_assoc,
  length, All, IsDigit, NoDigitFirst, is_digit, digit_value, digits_value, All-append,
  digits_value-to_string, to_string, to_string-IsDigit, to_string-ne-nil, u32_bound, Str, Outcome,
  ok, err, panic, arith,
}
use socket_io_server_rust.Nom.{
  Input, IResult, parsed, error, failure, panicked, ◌>>=◌, Combinators, char, digit,
}
use socket_io_server_rust.EngineParser.StringFormat.Numbers.{digits_value_grows}
use socket_io_server_rust.SocketParser.Json.{Json, JsonValue, same}
use socket_io_server_rust.SocketParser.Packet.{
  PacketType, PacketDataValue, Packet, ProtoPacket, MultipartPacketHeader, as_u8, try_into_binary,
  parse_from_u8, from_json,
}
use socket_io_server_rust.SocketParser.Encoder.{
  encode_packet, deconstruct_packet_data, is_binary, serialized, id_text,
}
use socket_io_server_rust.SocketParser.Parsing.{
  take_u8, parse_attachments_count, parse_namespace, namespace_from, parse_id, id_from,
  parse_json_data, or_json_null, is_payload_valid, parse_proto_packet, decode_proto_packet,
  packet_parse_error, HandleEngineMessageError,
}

-- The first character of a JSON text that is an object, an array or a string, if there is one.
abbrev pub StartsAsData : Str → Type 0
StartsAsData [] = Unit
StartsAsData (c ∷ cs) = (is_digit c ≡ false) × (c ≢ b'/') × (c ≢ b'-')

-- A name that begins with a slash and has no comma.
abbrev pub IsNamespace : Str → Type 0
IsNamespace [] = ⊥
IsNamespace (c ∷ cs) = (c ≡ b'/') × All (λ d. (d == b',') ≡ false) cs

pub StartsAsData-NoDigitFirst : (s : Str) → StartsAsData s → NoDigitFirst s
StartsAsData-NoDigitFirst [] h = tt
StartsAsData-NoDigitFirst (c ∷ cs) h = h.0

pub parse_from_u8-as_u8 :
    (t : PacketType) (input : Input) → parse_from_u8 (as_u8 t) input ≡ parsed (input, t)
unfolding parse_from_u8 as_u8
parse_from_u8-as_u8 t input = ground arith

pub as_u8-fits : (t : PacketType) → ltb (as_u8 t) 256 ≡ true
unfolding as_u8
as_u8-fits t = ground arith

pub assoc_five : (a b c d e : Str) → (((a ++ b) ++ c) ++ d) ++ e ≡ a ++ (b ++ (c ++ (d ++ e)))
assoc_five a b c d e =
    append_assoc ((a ++ b) ++ c) d e
    ∙ append_assoc (a ++ b) c (d ++ e)
    ∙ append_assoc a b (c ++ (d ++ e))

-- The namespace as the encoder writes it.
abbrev pub nsp_text : Str → Str
nsp_text nsp = if not (same nsp (b'/' ∷ [])) then nsp ++ b',' ∷ [] else []

module _ {O : Type 0} (nom : Combinators O) where
  pub take_u8-as_u8 :
      (t : PacketType) (rest : Str)
      → NoDigitFirst rest
      → take_u8 nom (to_string (as_u8 t) ++ rest) ≡ parsed (rest, as_u8 t)
  unfolding take_u8
  take_u8-as_u8 t rest h =
      rw
        (nom.digit1-append (to_string (as_u8 t)) rest (to_string-ne-nil (as_u8 t))
          (to_string-IsDigit (as_u8 t)) h)
        (rw (digits_value-to_string (as_u8 t)) (rw (as_u8-fits t) refl))

  pub namespace_absent : (s : Str) → StartsAsData s → parse_namespace nom s ≡ parsed (s, b'/' ∷ [])
  unfolding parse_namespace
  namespace_absent [] h = rw (nom.one_char-nil b'/') refl
  namespace_absent (c ∷ cs) h = rw (nom.one_char-ne b'/' c cs (λ e. h.1 (sym e))) refl

  pub namespace_present :
      (cs rest : Str)
      → All (λ d. (d == b',') ≡ false) cs
      → parse_namespace nom ((b'/' ∷ cs) ++ b',' ∷ rest) ≡ parsed (rest, b'/' ∷ cs)
  unfolding parse_namespace
  namespace_present cs rest h = rw (nom.one_char-cons b'/' (cs ++ b',' ∷ rest)) (
      rw (nom.take_till1-append (λ c. c == b',') (b'/' ∷ cs) b',' rest (λ e. cc) (refl, h) refl)
        (rw (nom.take-append (b',' ∷ []) rest) refl))

  -- The namespace is read as it was written.
  pub parse_namespace-nsp_text :
      (nsp rest : Str)
      → IsNamespace nsp
      → StartsAsData rest
      → parse_namespace nom (nsp_text nsp ++ rest) ≡ parsed (rest, nsp)
  parse_namespace-nsp_text [] rest n h = absurd n
  parse_namespace-nsp_text (c ∷ []) rest (slash, n) h = rw slash (namespace_absent rest h)
  parse_namespace-nsp_text (c ∷ d ∷ ds) rest (slash, n) h = rw slash (
      ap (λ t. parse_namespace nom (b'/' ∷ t)) (append_assoc (d ∷ ds) (b',' ∷ []) rest)
      ∙ namespace_present (d ∷ ds) rest n)

  pub parse_id_absent : (s : Str) → StartsAsData s → parse_id nom s ≡ parsed (s, none)
  unfolding parse_id
  parse_id_absent s h = rw (nom.digit1_none s (StartsAsData-NoDigitFirst s h)) refl

pub nsp_text-NoDigitFirst :
    (nsp rest : Str) → IsNamespace nsp → NoDigitFirst rest → NoDigitFirst (nsp_text nsp ++ rest)
nsp_text-NoDigitFirst [] rest n h = absurd n
nsp_text-NoDigitFirst (c ∷ []) rest (slash, n) h = rw slash h
nsp_text-NoDigitFirst (c ∷ d ∷ ds) rest (slash, n) h = rw slash refl

module _ (json : Json) where
  -- The decoder's reading of the data of a packet as the encoder wrote it.
  pub record IsReadable (t : PacketType) (v : JsonValue json.Number) : Type 0 where
    pub reads : or_json_null json (json.from_str (serialized json v)) ≡ v
    pub valid : is_payload_valid json t v ≡ true
    pub starts : StartsAsData (serialized json v)

  abbrev pub data_of : Packet json.Number → JsonValue json.Number
  data_of packet = (deconstruct_packet_data json packet.data' []).0

  pub parse_json_data-serialized :
      (t : PacketType) (v : JsonValue json.Number)
      → IsReadable t v
      → parse_json_data json (serialized json v) t ≡ parsed (serialized json v, v)
  unfolding parse_json_data
  parse_json_data-serialized t v h = rw h.reads (rw h.valid refl)

  pub plain_type : (t : PacketType) → is_binary json t ≡ false → try_into_binary t ≡ none
  unfolding try_into_binary
  plain_type t h = ground arith

  pub plain_text :
      (packet : Packet json.Number)
      → is_binary json packet.packet_type ≡ false
      → (encode_packet json packet).packet
        ≡ to_string (as_u8 packet.packet_type)
          ++ (nsp_text packet.nsp ++ (id_text json packet.id ++ serialized json (data_of packet)))
  unfolding encode_packet
  plain_text packet h = rw h (
      assoc_five (to_string (as_u8 packet.packet_type)) [] (nsp_text packet.nsp)
        (id_text json packet.id) (serialized json (data_of packet)))
