-- ===== src/EngineServer/Socket.antt =====
-- engine_io_server/src/socket.rs: one engine.io connection.
pub mod State
pub mod Sending
pub mod Operations
pub mod Flush
pub mod Calls
pub mod Endings
pub mod Branches
pub mod Outbox
pub mod Ledger
pub mod Calm
pub mod Invariant
pub mod Mute
pub mod Polls
