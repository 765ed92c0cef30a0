-- ===== src/SocketServer/Server.antt =====
-- socket_io_server/src/server.rs: the server of socket.io.
pub mod State
pub mod Operations
pub mod Descriptors
pub mod Messages
pub mod Events
pub mod Closing
pub mod Connecting
pub mod Subscription
pub mod Listeners
