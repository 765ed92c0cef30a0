-- ===== src/EngineServer/Server/Operations.antt =====
-- engine_io_server/src/server.rs: the operations of the server.
use Prim.Native.String.{String}
use socket_io_server_rust.Prelude.{
  ℕ, Bool, true, false, not, ◌&&◌, if◌then◌else◌, Option, none, some, [], length, Outcome, ok, err,
  panic,
}
use socket_io_server_rust.EngineParser.Packet.{Packet}
use socket_io_server_rust.EngineServer.Util.{
  TransportKind, HttpMethod, get', ServerError, bad_request, unknown_sid, bad_handshake_method,
}
use socket_io_server_rust.EngineServer.Transport.{Adapter}
use socket_io_server_rust.EngineServer.Socket.State.{Socket, SocketEvent, Callback}
use socket_io_server_rust.EngineServer.Socket.Sending as Sending
use socket_io_server_rust.EngineServer.Server.State.{
  ServerOptions, unsubscribed, subscribed, AlreadySubscribedError, already_subscribed_error,
  SendPacketError, unknown_connection_id, Server, ServerRun, returns, panics, ◌>>=◌, find, delete,
  on_client,
}

-- `==` on two kinds, and with an optional one.
abbrev pub same_kind : TransportKind → Option TransportKind → Bool
same_kind TransportKind.web_socket (some TransportKind.web_socket) = true
same_kind TransportKind.polling (some TransportKind.polling) = true
same_kind _ _ = false

abbrev pub is_get : HttpMethod → Bool
is_get get' = true
is_get _ = false

module _ {A : Adapter} where
  unfoldable pub new : ServerOptions → Server A
  new options = record { state = unsubscribed; clients = []; options = options }

  unfoldable pub try_subscribe : Server A → Outcome AlreadySubscribedError Unit × Server A
  try_subscribe s = elim s.state [
    | subscribed ↦ (err already_subscribed_error, record s { state = subscribed })
    | unsubscribed ↦ (ok tt, record s { state = subscribed })
  ]

  abbrev pub expect : {X Y : Type 0} → Outcome X Y × Server A → ServerRun A Y
  expect (ok y, s) = returns (y, s)
  expect (err _, s) = panics s
  expect (panic, s) = panics s

  unfoldable pub subscribe : Server A → ServerRun A Unit
  unfolding try_subscribe
  subscribe s = expect (try_subscribe s)

  -- `todo!()` where there is such a client.
  unfoldable pub close_socket : String → Server A → ServerRun A Unit
  close_socket connection_id s = elim (find connection_id s.clients) [
    | some _ ↦ panics (record s { clients = delete connection_id s.clients })
    | none ↦ returns (tt, s)
  ]

  abbrev okay : {E : Type 0} → ServerRun A Unit → ServerRun A (Outcome E Unit)
  okay r = do (_, s) ← r; returns (ok tt, s)

  unfoldable pub send_packet :
      String → Packet → Server A → ServerRun A (Outcome SendPacketError Unit)
  unfolding Sending.send_packet
  send_packet connection_id packet s = elim (find connection_id s.clients) [
    | some client ↦ okay (on_client connection_id (Sending.send_packet packet none client) s)
    | none ↦ returns (err unknown_connection_id, s)
  ]

  -- The callback is not passed on.
  unfoldable pub send_packet_with_ack :
      String → Packet → Option Callback → Server A → ServerRun A (Outcome SendPacketError Unit)
  unfolding Sending.send_packet
  send_packet_with_ack connection_id packet callback s = elim (find connection_id s.clients) [
    | some client ↦ okay (on_client connection_id (Sending.send_packet packet none client) s)
    | none ↦ returns (err unknown_connection_id, s)
  ]

  unfoldable pub get_client_or_error : String → Server A → Outcome ServerError (Socket A)
  get_client_or_error id s = elim (find id s.clients) [
    | some client ↦ ok client
    | none ↦ err unknown_sid
  ]

  unfoldable pub clients_count : Server A → ℕ
  clients_count s = length s.clients

  unfoldable pub verify_request :
      Option String
      → Bool
      → TransportKind
      → HttpMethod
      → Server A
      → ServerRun A (Outcome ServerError Unit)
  unfolding Sending.get_transport_kind
  verify_request (some sid) upgrade transport_kind http_method s = elim (find sid s.clients) [
    | some client ↦ (do
      (client_kind, s) ← on_client sid (Sending.get_transport_kind client) s
      if not upgrade && not (same_kind transport_kind client_kind)
          then returns (err bad_request, s)
          else returns (ok tt, s))
    | none ↦ returns (err unknown_sid, s)
  ]
  verify_request none upgrade transport_kind http_method s =
      if not (is_get http_method) then returns (err bad_handshake_method, s) else returns (ok tt, s)

  -- `?` on an error that is answered.
  abbrev pub and_then :
      {X Y : Type 0}
      → Outcome ServerError X × Server A
      → (X × Server A → ServerRun A (Outcome ServerError Y))
      → ServerRun A (Outcome ServerError Y)
  and_then (ok x, s) f = f (x, s)
  and_then (err e, s) f = returns (err e, s)
  and_then (panic, s) f = panics s

  -- `close` and `subscribe_to_commands` are `todo!()`.
  unfoldable pub close : Server A → ServerRun A Unit
  close s = panics s

  -- One round of the task that `subscribe_to_socket_events` starts. What it sends to the owner of the
  -- server is left out: `RequestSender::send` of the `bmrng` crate is a future, and it is not awaited.
  unfoldable pub on_socket_event : SocketEvent → Server A → Server A
  on_socket_event (SocketEvent.close socket_id reason) s = record s {
    clients = delete socket_id s.clients;
  }
  on_socket_event _ s = s
