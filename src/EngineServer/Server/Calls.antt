-- ===== src/EngineServer/Server/Calls.antt =====
-- engine_io_server/src/server.rs: what is called on the server from outside.
use Prim.Native.String.{String}
use socket_io_server_rust.Prelude.{Option, List, [], ◌∷◌, Str}
use socket_io_server_rust.EngineParser.Packet.{Packet}
use socket_io_server_rust.EngineServer.Util.{RequestContext}
use socket_io_server_rust.EngineServer.Transport.{Adapter}
use socket_io_server_rust.EngineServer.Socket.State.{SocketEvent, Callback}
use socket_io_server_rust.EngineServer.Server.Operations as Servers
use socket_io_server_rust.EngineServer.Server.Operations.{and_then, get_client_or_error, is_get}
use socket_io_server_rust.EngineServer.Server.Handshakes as Handshakes
use socket_io_server_rust.EngineServer.Server.Handshakes.{on_found}
use socket_io_server_rust.EngineServer.Server.State.{Server}
use socket_io_server_rust.EngineServer.Server.Clients.{after}

-- What is called on a server: by its owner, by the adapter, and by the task that listens to the sockets.
-- `new_sid` is the identifier that a handshake generates.
pub data ServerCall (A : Adapter) : Type 0 where
  sends_to : (sid : String) → Packet → ServerCall A
  sends_with_ack : (sid : String) → Packet → Option Callback → ServerCall A
  closes : (sid : String) → ServerCall A
  subscribes : ServerCall A
  requests :
      (String → List String → Str)
      → (new_sid : String) → RequestContext
      → Option A.Body
      → ServerCall A
  upgrades :
      (String → List String → Str) → (new_sid : String) → RequestContext → A.WsHandle → ServerCall A
  hears : SocketEvent → ServerCall A

-- The server behind a call, however the call ends.
unfoldable pub perform_server : {A : Adapter} → ServerCall A → Server A → Server A
unfolding Servers.send_packet Servers.send_packet_with_ack Servers.close_socket Servers.subscribe
    Handshakes.handle_request Handshakes.handle_upgrade Servers.on_socket_event
perform_server (sends_to sid packet) s = after (Servers.send_packet sid packet s)
perform_server (sends_with_ack sid packet callback) s =
    after (Servers.send_packet_with_ack sid packet callback s)
perform_server (closes sid) s = after (Servers.close_socket sid s)
perform_server subscribes s = after (Servers.subscribe s)
perform_server (requests f new_sid context body) s =
    after (Handshakes.handle_request f new_sid context body s)
perform_server (upgrades f new_sid context socket) s =
    after (Handshakes.handle_upgrade f new_sid context socket s)
perform_server (hears event) s = Servers.on_socket_event event s

abbrev pub performs_server : {A : Adapter} → List (ServerCall A) → Server A → Server A
performs_server [] s = s
performs_server (c ∷ cs) s = performs_server cs (perform_server c s)
