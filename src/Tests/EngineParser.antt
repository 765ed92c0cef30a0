-- ===== src/Tests/EngineParser.antt =====
-- engine_io_parser: its documentation's examples as runs, and the theorems at concrete inputs.
use Prim.Native.Char.{code}
use Prim.Native.String.{String}
use socket_io_server_rust.Prelude.{
  ◌≡◌, refl, inl, Bytes, Str, as_bytes, Option, none, some, [], ◌∷◌, map, ok, err, panic, arith,
}
use socket_io_server_rust.Nom.{Combinators}
use socket_io_server_rust.Nom.Model.{model}
use socket_io_server_rust.EngineParser.Base64.{Base64}
use socket_io_server_rust.EngineParser.Packet.{message, pong, text, binary, empty, Packet}
use socket_io_server_rust.EngineParser.Binary
use socket_io_server_rust.EngineParser.Binary.Length.{packet_length, encode_packet_length}
use socket_io_server_rust.EngineParser.Binary.RoundTrip.{received, decode_binary_payload-encode}
use socket_io_server_rust.EngineParser.StringFormat
use socket_io_server_rust.EngineParser.StringFormat.Single.{decode_string_packet_digit}
use socket_io_server_rust.EngineParser.StringFormat.RoundTrip.{decode_string_payload-encode}

abbrev codes : String → Str
codes String.[] = []
codes (String.◌∷◌ c s) = code c ∷ codes s

abbrev nom : Combinators Packet
nom = model

-- A stand-in for base64 that meets its law.
abbrev strip : Str → Option Bytes
strip [] = none
strip (c ∷ cs) = some cs

abbrev base64 : Base64
base64 = record { encode = λ d. b'A' ∷ d; decode = strip; decode-encode = λ d. refl }

abbrev euro : Packet
euro = record { packet_type = message; data' = text (codes "€") }

abbrev blob : Packet
blob = record { packet_type = message; data' = binary (1 ∷ 2 ∷ 3 ∷ 4 ∷ []) }

abbrev hello : Packet
hello = record { packet_type = message; data' = text (codes "hello") }

-- A message of socket.io: an event.
abbrev event : Packet
event = record { packet_type = message; data' = text (codes "2[]") }

abbrev pong_packet : Packet
pong_packet = record { packet_type = pong; data' = empty }

encode_packet_length_runs :
    (encode_packet_length 0 ≡ 0 ∷ [])
    × (encode_packet_length 190 ≡ 0 ∷ 9 ∷ 1 ∷ [])
    × (encode_packet_length 918214 ≡ 4 ∷ 1 ∷ 2 ∷ 8 ∷ 1 ∷ 9 ∷ [])
unfolding encode_packet_length
encode_packet_length_runs = (refl, refl, refl)

packet_length_runs :
    (packet_length (0 ∷ 2 ∷ 3 ∷ []) ≡ some 320)
    × (packet_length (9 ∷ 9 ∷ 4 ∷ 2 ∷ 5 ∷ []) ≡ some 52499)
    × (packet_length (0 ∷ 0 ∷ 0 ∷ 0 ∷ 0 ∷ 0 ∷ 0 ∷ 0 ∷ 0 ∷ 5 ∷ []) ≡ none)
unfolding packet_length
packet_length_runs = (refl, refl, refl)

abbrev mixed : Bytes
mixed =
    0x00 ∷ 0x04 ∷ 0xff ∷ 0x34 ∷ 0xe2 ∷ 0x82 ∷ 0xac ∷ 0x01 ∷ 0x05 ∷ 0xff ∷ 0x04 ∷ 0x01 ∷ 0x02 ∷ 0x03
    ∷ 0x04 ∷ []

encode_mixed : Binary.encode_payload (euro ∷ blob ∷ []) ≡ mixed
unfolding Binary.encode_payload
encode_mixed = refl

decode_mixed :
    Binary.decode_payload nom mixed
    ≡ ok (record { packet_type = message; data' = binary (0xe2 ∷ 0x82 ∷ 0xac ∷ []) } ∷ blob ∷ [])
unfolding Binary.decode_payload model
decode_mixed = refl

-- A length of zero underflows.
decode_zero_length : Binary.decode_payload nom (1 ∷ 0 ∷ 0xff ∷ 4 ∷ []) ≡ panic
unfolding Binary.decode_payload model
decode_zero_length = refl

encode_text : StringFormat.encode_payload base64 (hello ∷ euro ∷ []) ≡ codes "6:4hello2:4€"
unfolding StringFormat.encode_payload
encode_text = refl

decode_text : StringFormat.decode_payload nom base64 (codes "6:4hello2:4€") ≡ ok (hello ∷ euro ∷ [])
unfolding StringFormat.decode_payload model
decode_text = refl

decode_binary_payload-encode_example :
    Binary.decode_payload nom (Binary.encode_payload (euro ∷ blob ∷ []))
    ≡ ok (map received (euro ∷ blob ∷ []))
unfolding as_bytes
decode_binary_payload-encode_example =
    decode_binary_payload-encode nom (euro ∷ blob ∷ [])
      (((inl (omega arith), tt), refl, omega arith), (omega arith, tt))

decode_string_packet_digit_example :
    StringFormat.decode_packet nom (StringFormat.encode_packet base64 event)
    ≡ err (record { message = "Unable to decode packet" })
decode_string_packet_digit_example =
    decode_string_packet_digit nom base64 event b'2' (codes "[]") (omega arith) refl refl

decode_string_payload-encode_example :
    StringFormat.decode_payload nom base64
      (StringFormat.encode_payload base64 (hello ∷ pong_packet ∷ blob ∷ []))
    ≡ ok (hello ∷ blob ∷ [])
decode_string_payload-encode_example =
    decode_string_payload-encode nom base64 (hello ∷ pong_packet ∷ blob ∷ [])
      ((refl, omega arith), (tt, ((refl, omega arith), tt)))
