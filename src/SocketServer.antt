-- ===== src/SocketServer.antt =====
-- The crate socket_io_server: namespaces, and the sockets of an engine.io connection in them.
pub mod Storage
pub mod Socket
pub mod Namespace
pub mod Connection
pub mod Attachments
pub mod Joining
pub mod Server
