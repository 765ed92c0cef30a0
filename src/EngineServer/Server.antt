-- ===== src/EngineServer/Server.antt =====
-- engine_io_server/src/server.rs: the server of engine.io. Its map of clients is an association list.
pub mod State
pub mod Operations
pub mod Handshakes
pub mod Requests
pub mod Clients
pub mod Calls
pub mod Kept
pub mod Invariant
