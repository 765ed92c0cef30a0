-- ===== src/SocketParser/Texts/Plain.antt =====
-- socket_io_parser/src/encoder.rs and decoder.rs: a packet without attachments and identifier.
use socket_io_server_rust.SocketParser.Json.{Json}
use socket_io_server_rust.SocketParser.Packet.{Packet}
