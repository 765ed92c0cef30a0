-- ===== src/EngineServer/Server/Handshakes.antt =====
-- engine_io_server/src/server.rs: handshakes, requests and upgrades. The identifier that `generate_id`
-- makes is the `uuid` crate's, and an argument.
use Prim.Native.String.{String}
use socket_io_server_rust.Prelude.{
  Bool, true, false, not, ◌&&◌, Option, none, some, List, Str, Outcome, ok, err, panic,
}
use socket_io_server_rust.EngineParser.Packet.{Packet}
use socket_io_server_rust.EngineServer.Util.{
  StringMap, get, ServerError, bad_request, RequestContext, with_set_cookie, from_cookie_options,
}
use socket_io_server_rust.EngineServer.Transport.{Adapter, Transport, TransportCreateData}
use socket_io_server_rust.EngineServer.Socket.State as States
use socket_io_server_rust.EngineServer.Socket.State.{
  Socket, SocketEvent, SocketState, Callback, Run, Op,
}
use socket_io_server_rust.EngineServer.Socket.Sending as Sending
use socket_io_server_rust.EngineServer.Socket.Operations as Sockets
use socket_io_server_rust.EngineServer.Server.State.{
  HandshakeData, Server, ServerRun, returns, panics, ◌>>=◌, find, with_client, on_client,
}
use socket_io_server_rust.EngineServer.Server.Operations.{
  verify_request, get_client_or_error, expect, and_then,
}

unfoldable pub contains_key : String → StringMap → Bool
unfolding get
contains_key k m = elim (get k m) [ some _ ↦ true | none ↦ false ]

abbrev pub create_data : {W : Type 0} → Bool → Bool → HandshakeData W → TransportCreateData W
create_data supports_binary jsonp HandshakeData.polling = TransportCreateData.polling jsonp
create_data supports_binary jsonp (HandshakeData.web_socket socket) =
    TransportCreateData.web_socket supports_binary socket

module _ {A : Adapter} where
  abbrev poll :
      RequestContext
      → Option A.Body
      → String
      → Socket A
      → Server A
      → ServerRun A (Outcome ServerError A.Response)
  unfolding Sockets.handle_polling_request
  poll context body sid client s =
      on_client sid (Sockets.handle_polling_request context body client) s

  abbrev send_initial : Option Packet → Op A Unit
  unfolding Sending.send_packet
  send_initial none socket = States.returns (tt, socket)
  send_initial (some packet) socket = Sending.send_packet packet none socket

  -- The operation on the client with this identifier, if there is one.
  abbrev pub on_found :
      {X : Type 0}
      → String
      → (Socket A → Server A → ServerRun A (Outcome ServerError X))
      → Server A
      → ServerRun A (Outcome ServerError X)
  unfolding get_client_or_error
  on_found sid f s = and_then (get_client_or_error sid s, s) (λ (client, s). f client s)

  -- The socket that the server shares with its map of clients.
  abbrev pub on_shared : String → Op A Unit → Server A → ServerRun A Unit
  on_shared sid f s = elim (find sid s.clients) [
    | some client ↦ on_client sid (f client) s
    | none ↦ returns (tt, s)
  ]

  abbrev some_response :
      ServerRun A (Outcome ServerError A.Response)
      → ServerRun A (Outcome ServerError (Option A.Response))
  some_response r = do
    (answer, s) ← r
    and_then (answer, s) (λ (response, s). returns (ok (some response), s))

  -- The response to the handshake; `none` is the `BadRequest` that `match` answers, without `?`.
  abbrev respond :
      RequestContext
      → String
      → Socket A
      → Outcome ServerError (Transport A)
      → Server A
      → ServerRun A (Outcome ServerError (Option A.Response))
  unfolding poll
  respond context sid client (ok (Transport.polling _)) s =
      some_response (poll context none sid client s)
  respond context sid client (ok (Transport.web_socket _)) s = returns (ok none, s)
  respond context sid client (err e) s = returns (err e, s)
  respond context sid client panic s = panics s

  abbrev connected :
      String
      → Option A.Response
      → Server A
      → ServerRun A (Outcome ServerError (String × A.Response))
  connected sid (some response) s = returns (ok (sid, response), s)
  connected sid none s = returns (err bad_request, s)

  -- The event of the connection is not sent: the future is not awaited.
  unfoldable pub handshake :
      (String → List String → Str)
      → String
      → RequestContext
      → HandshakeData A.WsHandle
      → Server A
      → ServerRun A (Outcome ServerError (String × A.Response))
  unfolding with_set_cookie from_cookie_options contains_key Sending.new Sockets.open_socket
      send_initial respond on_found Sending.get_transport_or_fail
  handshake open_packet_data sid context data' s = do
    let supports_binary = not (contains_key "b64" context.query)
    let jsonp = not supports_binary && not (contains_key "j" context.query)
    let context = with_set_cookie context (from_cookie_options s.options.cookie sid)
    let socket : Socket A = Sending.new sid context (create_data supports_binary jsonp data')
    (_, s) ← on_client sid (Sockets.open_socket open_packet_data socket) (with_client sid socket s)
    (_, s) ← on_shared sid (send_initial s.options.initial_packet) s
    (response, s) ←
        on_found sid
          (λ client s. do
            (transport, s) ← on_client sid (Sending.get_transport_or_fail client) s
            on_found sid (λ client s. respond context sid client transport s) s)
          s
    and_then (response, s) (λ (response, s). connected sid response s)

  abbrev answer_only :
      {X Y : Type 0}
      → ServerRun A (Outcome ServerError (X × Y))
      → ServerRun A (Outcome ServerError Y)
  answer_only r = do
    (answer, s) ← r
    and_then (answer, s) (λ ((_, response), s). returns (ok response, s))

  unfoldable pub handle_request :
      (String → List String → Str)
      → String
      → RequestContext
      → Option A.Body
      → Server A
      → ServerRun A (Outcome ServerError A.Response)
  unfolding get verify_request handshake poll on_found
  handle_request open_packet_data new_sid context body s = do
    let sid = get "sid" context.query
    (verified, s) ← verify_request sid false context.transport_kind context.http_method s
    and_then (verified, s)
        (λ (_, s). elim sid [
          | some sid ↦ on_found sid (λ client s. poll context body sid client s) s
          | none ↦ answer_only (handshake open_packet_data new_sid context HandshakeData.polling s)
        ])

  -- The `todo!()` is an argument of `maybe_upgrade`, and stands behind the handshake.
  unfoldable pub handle_upgrade :
      (String → List String → Str)
      → String
      → RequestContext
      → A.WsHandle
      → Server A
      → ServerRun A Unit
  unfolding get get_client_or_error handshake
  handle_upgrade open_packet_data new_sid context socket s = elim (get "sid" context.query) [
    | some sid ↦ (do (_, s) ← expect (get_client_or_error sid s, s); panics s)
    | none ↦ (do
      (_, s) ← handshake open_packet_data new_sid context (HandshakeData.web_socket socket) s
      panics s)
  ]
