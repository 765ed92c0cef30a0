-- ===== src/SocketParser/Carried.antt =====
-- socket_io_parser/src/encoder.rs and engine_io_parser/src/string.rs: a packet of socket.io in a packet
-- of engine.io.
use socket_io_server_rust.Prelude.{
  ℕ, ◌≡◌, ◌≢◌, refl, ap, true, List, [], ◌∷◌, ◌++◌, Str, All, IsDigit, is_digit, to_string,
  to_string-IsDigit, to_string-ne-nil, err, arith,
}
use socket_io_server_rust.Nom.{Combinators}
use socket_io_server_rust.EngineParser.Base64.{Base64}
use socket_io_server_rust.EngineParser.Packet as Engine
use socket_io_server_rust.EngineParser.StringFormat as StringFormat
use socket_io_server_rust.EngineParser.StringFormat.Single.{decode_string_packet_digit}
use socket_io_server_rust.SocketParser.Json.{Json}
use socket_io_server_rust.SocketParser.Packet.{Packet, as_u8}
use socket_io_server_rust.SocketParser.Encoder.{engine_packets, encode_packet}

-- A text that begins with a digit.
StartsWithDigit : Str → Type 0
StartsWithDigit s = (c : ℕ) × (cs : Str) × (s ≡ c ∷ cs) × (is_digit c ≡ true)

StartsWithDigit-digits : (ds : Str) → ds ≢ [] → All IsDigit ds → StartsWithDigit ds
unfolding StartsWithDigit
StartsWithDigit-digits [] ne all = absurd (ne refl)
StartsWithDigit-digits (c ∷ cs) ne (d, all) = (c, cs, refl, d)

StartsWithDigit-append : (s rest : Str) → StartsWithDigit s → StartsWithDigit (s ++ rest)
unfolding StartsWithDigit
StartsWithDigit-append s rest (c, cs, e, d) = (c, cs ++ rest, ap (λ t. t ++ rest) e, d)

-- A packet of engine.io that carries a text.
abbrev carrier : Str → Engine.Packet
carrier s = record { packet_type = Engine.PacketType.message; data' = Engine.PacketData.text s }

StartsWithDigit-encode_packet :
    (json : Json) (packet : Packet json.Number) → StartsWithDigit (encode_packet json packet).packet
unfolding encode_packet
StartsWithDigit-encode_packet json packet =
    let t = as_u8 packet.packet_type in
    let digits = StartsWithDigit-digits (to_string t) (to_string-ne-nil t) (to_string-IsDigit t) in
    StartsWithDigit-append _ _ (
      StartsWithDigit-append _ _
        (StartsWithDigit-append _ _ (StartsWithDigit-append (to_string t) _ digits)))

module _ (nom : Combinators Engine.Packet) (base64 : Base64) where
  carrier-refused :
      (s : Str)
      → StartsWithDigit s
      → StringFormat.decode_packet nom (StringFormat.encode_packet base64 (carrier s))
        ≡ err (record { message = "Unable to decode packet" })
  unfolding StartsWithDigit
  carrier-refused s (c, cs, e, d) =
      decode_string_packet_digit nom base64 (carrier s) c cs (omega arith) e d

  -- No message of socket.io passes through the string format of engine.io: the first packet of engine.io
  -- that carries it, with its text, is refused by the decoder of a single packet, whatever the message.
  pub decode_packet-engine_packets :
      (json : Json) (packet : Packet json.Number)
      → (header : Engine.Packet) × (attachments : List Engine.Packet) × (engine_packets
            (encode_packet json packet)
          ≡ header ∷ attachments)
        × (StringFormat.decode_packet nom (StringFormat.encode_packet base64 header)
            ≡ err (record { message = "Unable to decode packet" }))
  unfolding engine_packets
  decode_packet-engine_packets json packet =
      let text = (encode_packet json packet).packet in
      (carrier text, _, refl, carrier-refused text (StartsWithDigit-encode_packet json packet))
