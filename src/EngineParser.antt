-- ===== src/EngineParser.antt =====
-- The crate engine_io_parser.
pub mod Packet
pub mod Base64
pub mod Binary
pub mod StringFormat
pub mod Decoder
pub mod Answers
