-- ===== src/SocketParser.antt =====
-- socket_io_parser: packets of socket.io, with binary attachments.
pub mod Json
pub mod Packet
pub mod Encoder
pub mod Parsing
pub mod Decoder
pub mod Attachments
pub mod Carried
pub mod Serializer
pub mod Macros
pub mod Counts
pub mod Texts
