-- ===== src/EngineParser/Binary/Single.antt =====
-- engine_io_parser/src/binary.rs: a packet on its own, outside a payload.
use socket_io_server_rust.Prelude.{
  ℕ, ◌+◌, ◌≡◌, Bytes, as_bytes, none, [], ◌∷◌, length, Outcome, ok, err, append-nil, arith,
}
use socket_io_server_rust.Nom.{Input, digit, parsed, error, ◌>>=◌, Combinators}
use socket_io_server_rust.EngineParser.Packet.{
  PacketType, PacketData, text, binary, empty, Packet, ParsePacketError, as_u8, parse_from_u8,
  parse_from_u8-as_u8,
}
use socket_io_server_rust.EngineParser.Binary.{
  parse_binary_data_packet, decode_packet, serialize_data, encode_packet,
}

-- The type byte of a text is an ASCII digit, which is no packet type.
pub parse_from_u8_ascii :
    (t : PacketType) (input : Input) → parse_from_u8 (as_u8 t + b'0') input ≡ error input digit
unfolding parse_from_u8
parse_from_u8_ascii t input = ground arith

-- What a reader of one binary packet gets.
abbrev pub packet_reply : PacketType → PacketData → Outcome ParsePacketError Packet
packet_reply t (binary d) = ok (record { packet_type = t; data' = binary d })
packet_reply t _ = err (record { message = "Unable to decode packet" })

module _ (nom : Combinators Packet) where
  take_rest : (d : Input) → nom.take (length d) d ≡ parsed ([], d)
  take_rest d = rw append-nil at (nom.take-append d [])

  pub parse_whole_binary :
      (b : ℕ) (d : Bytes)
      → parse_binary_data_packet nom (b ∷ d) none
        ≡ (parse_from_u8 b [] >>= λ x. parsed ([], record { packet_type = x.1; data' = binary d }))
  unfolding parse_binary_data_packet
  parse_whole_binary b d = rw (nom.le_u8-cons b d) (rw (take_rest d))

  reply :
      (t : PacketType) (d : PacketData) → decode_packet nom (serialize_data t d) ≡ packet_reply t d
  unfolding serialize_data decode_packet
  reply t (text s) =
      rw (parse_whole_binary (as_u8 t + b'0') (as_bytes s), parse_from_u8_ascii t [], decode_packet)
  reply t (binary d) = rw (parse_whole_binary (as_u8 t) d, parse_from_u8-as_u8 t [], decode_packet)
  reply t empty =
      rw (parse_whole_binary (as_u8 t + b'0') [], parse_from_u8_ascii t [], decode_packet)

  -- Decoding an encoded packet gives it back if its data is binary; a text or an empty packet is
  -- always refused, since the encoder writes its type in ASCII.
  pub decode_binary_packet-encode :
      (p : Packet) → decode_packet nom (encode_packet p) ≡ packet_reply p.packet_type p.data'
  unfolding encode_packet
  decode_binary_packet-encode p = reply p.packet_type p.data'
