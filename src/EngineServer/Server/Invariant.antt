-- ===== src/EngineServer/Server/Invariant.antt =====
-- engine_io_server/src/server.rs: what holds of the clients, whatever is called on the server.
use Prim.Native.String.{String}
use socket_io_server_rust.Prelude.{some, List, [], ◌∷◌, ◌≡◌}
use socket_io_server_rust.EngineServer.Transport.{Adapter}
use socket_io_server_rust.EngineServer.Socket.State.{Socket}
use socket_io_server_rust.EngineServer.Socket.Invariant.{IsCalm}
use socket_io_server_rust.EngineServer.Server.Operations as Servers
use socket_io_server_rust.EngineServer.Server.Operations.{and_then, get_client_or_error, is_get}
use socket_io_server_rust.EngineServer.Server.State.{ServerOptions, Server, find}
use socket_io_server_rust.EngineServer.Server.Clients.{HasClients, find-IsClient}
use socket_io_server_rust.EngineServer.Server.Calls.{
  ServerCall, sends_to, sends_with_ack, closes, subscribes, requests, upgrades, hears,
  perform_server, performs_server,
}
use socket_io_server_rust.EngineServer.Server.Kept.{
  send_packet-HasClients, send_packet_with_ack-HasClients, close_socket-HasClients,
  subscribe-HasClients, on_socket_event-HasClients, handle_request-HasClients,
  handle_upgrade-HasClients,
}

module _ {A : Adapter} where
  perform_server-HasClients :
      (c : ServerCall A) (s : Server A)
      → HasClients s.clients
      → HasClients (perform_server c s).clients
  unfolding perform_server
  perform_server-HasClients (sends_to sid packet) s h = send_packet-HasClients sid packet s h
  perform_server-HasClients (sends_with_ack sid packet callback) s h =
      send_packet_with_ack-HasClients sid packet callback s h
  perform_server-HasClients (closes sid) s h = close_socket-HasClients sid s h
  perform_server-HasClients subscribes s h = subscribe-HasClients s h
  perform_server-HasClients (requests f new_sid context body) s h =
      handle_request-HasClients f new_sid context body s h
  perform_server-HasClients (upgrades f new_sid context socket) s h =
      handle_upgrade-HasClients f new_sid context socket s h
  perform_server-HasClients (hears event) s h = on_socket_event-HasClients event s h

  performs_server-HasClients :
      (cs : List (ServerCall A)) (s : Server A)
      → HasClients s.clients
      → HasClients (performs_server cs s).clients
  performs_server-HasClients [] s h = h
  performs_server-HasClients (c ∷ cs) s h =
      performs_server-HasClients cs (perform_server c s) (perform_server-HasClients c s h)

  -- After any calls on a new server, however each ended, a client that is found under an identifier has
  -- it for its own, holds no read guard, does not wait to be closed, and if it is closed it has no packet
  -- to send and no callback to register.
  pub performs_server-new :
      (cs : List (ServerCall A)) (options : ServerOptions) (sid : String) (socket : Socket A)
      → find sid (performs_server cs (Servers.new options)).clients ≡ some socket
      → (socket.id ≡ sid) × IsCalm socket
  unfolding Servers.new
  performs_server-new cs options sid socket e =
      let clients = performs_server-HasClients cs (Servers.new options) tt in
      let c =
        find-IsClient sid (performs_server cs (Servers.new options)).clients socket clients e in
      (c.own, c.calm)
