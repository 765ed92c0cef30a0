-- ===== src/EngineWarp.antt =====
-- The crate engine_io_warp: the transports of an adapter over HTTP and WebSocket.
pub mod Polling
pub mod WebSocket
pub mod Messages
pub mod Commands
pub mod Posts
pub mod Adapter
pub mod Listening
