-- ===== src/EngineServer.antt =====
-- The crate engine_io_server.
pub mod Util
pub mod Transport
pub mod Socket
pub mod Server
