-- ===== src/Lib.antt =====
-- socket.io-server-rust: the wire formats of engine.io and socket.io, the connections and the server
-- of engine.io, and the connections and namespaces of socket.io.
--
-- The parts, and how they interact. A packet of engine.io travels in a binary or in a string format
-- (engine_io_parser). The server of engine.io (engine_io_server/src/server.rs) keeps one socket
-- (engine_io_server/src/socket.rs) for each client; a socket keeps packets in a write buffer until
-- its transport (engine_io_server/src/transport.rs), which an adapter supplies, takes them, and
-- reports to the server through events. A message of engine.io carries the text of a packet of
-- socket.io or one of its binary attachments (socket_io_parser); a connection of socket.io
-- (socket_io_server/src/connection.rs) collects the attachments, and holds a socket for each
-- namespace (socket_io_server/src/namespace.rs).
--
-- The files:
--   Prelude           Boolean tests, lists over the native numbers, decimal digits, UTF-8, and what
--                     a Rust function answers (ok, err or panic).
--   Nom               the results and the combinators of the nom crate, as an interface with the
--                     laws of its documentation; Nom.Model is one implementation, for the runs.
--   EngineParser      engine_io_parser/src: Packet is packet.rs, Binary is binary.rs, StringFormat is
--                     string.rs, Decoder is decoder.rs; Base64 is the interface of the base64 crate.
--   EngineServer      engine_io_server/src: Util is util.rs, Transport is transport.rs and
--                     adapter.rs, Socket is socket.rs, Server is server.rs. In Socket, State, Sending
--                     and Operations are the code; Branches, Flush and Endings say how each operation
--                     ends, Calls is what may be called from outside, Calm and Invariant are about
--                     the states that these calls reach, Outbox and Ledger about the packets, Polls
--                     about the requests of a polling client, Mute is a transport that takes nothing.
--                     In Server, State, Operations and Handshakes are the code, Requests is about its
--                     answers, Calls is what may be called, Clients, Kept and Invariant are about the
--                     map of clients.
--   SocketParser      socket_io_parser/src: Packet is packet.rs, Encoder is encoder.rs, Parsing and
--                     Decoder are decoder.rs; Json is the interface of the serde_json crate, Serializer
--                     is ser.rs, Macros is macros.rs: Macros.Rules are the rules of packet_data! over
--                     the token trees of Macros.Trees, Macros.Literals how JSON is spelled in it. Texts,
--                     Counts, Attachments and Carried say what the decoder makes of an encoded packet.
--   SocketServer      socket_io_server/src: Storage is storage.rs and error.rs, Socket is socket.rs,
--                     Namespace is namespace.rs, with the members that a sequence of operations leaves in
--                     Members and its broadcasts in Broadcasts; Connection is connection.rs, Joining and
--                     Attachments are about what it keeps, Server is server.rs: State, Operations,
--                     Messages, Events and Subscription are the code, the other files about it.
--   EngineWarp        engine_io_warp/src: Polling is polling.rs, WebSocket is websocket.rs, Adapter is
--                     adapter_warp.rs, with its routes in Listening; Posts, Messages and Commands say
--                     what becomes of the packets.
--   Tests             runs, and the theorems at concrete inputs.
--
-- How code is rendered. A function keeps its name, or is named in the comment above it where it is
-- renamed (Socket::open is open_socket, Socket::close is close_socket). Characters and bytes are
-- numbers. A parser is a function into Nom.IResult, with a case for a panic. An operation of an
-- engine.io socket is a function from the socket to a Run: it returns, it panics, or it blocks,
-- each time with the socket that it leaves. The socket holds the guard of its lock that the
-- running task keeps, so that a second guard that the task asks for is a call that never returns,
-- and a trace of the events, of the commands for the transport and of the callbacks that were run.
-- A future that the source does not await has no effect: so it is with the events that the server
-- of engine.io has for its owner. The server of engine.io has the same three endings. The trait
-- Storage of socket.io is an interface, for implementations whose new, add_all and del return.
-- Maps are association lists and sets are lists. A value that the source shares by a counted
-- pointer is passed along and returned.
--
-- Bounds. The lengths of the binary format are checked 32-bit arithmetic and those of the string
-- format are checked usize (64 bits): an overflow is a panic, as in a build with overflow checks.
-- Recursion is on the structure of lists, of JSON values and of numbers; there is fuel only in
-- Prelude (the digits of a number, with the number itself as fuel), in Nom.Model (the length of
-- the input) and in SocketParser.Macros (twice the number of the trees, and one), and each is enough.
--
-- What is not modelled: the server of warp, which serves the routes, and the abort of the tasks of
-- a WebSocket; the standalone server and its example, which only start the parts; timers, which
-- are not written yet; DefaultStorage, in which every method is todo!(); the compiler's limit on
-- the depth of a macro's expansion; and the interleaving of two tasks inside one operation of a
-- socket. What the crates nom, base64, serde, serde_json, uuid, chrono, futures, bmrng, warp
-- and tokio do, and what the compiler takes for an expression, is a parameter.
pub mod Prelude
pub mod Nom
pub mod EngineParser
pub mod EngineServer
pub mod EngineWarp
pub mod SocketParser
pub mod SocketServer
pub mod Tests
