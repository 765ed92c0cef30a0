-- ===== src/EngineParser/Decoder.antt =====
-- engine_io_parser/src/decoder.rs: a packet in either format.
use socket_io_server_rust.Prelude.{Bytes, Str, Outcome}
use socket_io_server_rust.Nom.{Combinators}
use socket_io_server_rust.EngineParser.Packet.{Packet, ParsePacketError}
use socket_io_server_rust.EngineParser.Binary
use socket_io_server_rust.EngineParser.StringFormat

pub data Encoded : Type 0 where
  text : Str → Encoded
  binary : Bytes → Encoded

unfoldable pub decode_packet : Combinators Packet → Encoded → Outcome ParsePacketError Packet
decode_packet nom (text t) = StringFormat.decode_packet nom t
decode_packet nom (binary b) = Binary.decode_packet nom b
