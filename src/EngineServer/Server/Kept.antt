-- ===== src/EngineServer/Server/Kept.antt =====
-- engine_io_server/src/server.rs: every operation keeps what holds of the clients.
use Prim.Native.String.{String}
use socket_io_server_rust.Prelude.{
  Bool, true, false, if◌then◌else◌, Bool-cases, inl, inr, Option, none, some, Option-cases, List,
  [], ◌≡◌, refl, Str, Outcome, ok, err, panic, arith,
}
use socket_io_server_rust.EngineParser.Packet.{Packet}
use socket_io_server_rust.EngineServer.Util.{
  RequestContext, TransportKind, HttpMethod, ServerError, get,
}
use socket_io_server_rust.EngineServer.Transport.{Adapter}
use socket_io_server_rust.EngineServer.Socket.State.{Socket, SocketEvent, Callback, opened}
use socket_io_server_rust.EngineServer.Socket.Sending as Sending
use socket_io_server_rust.EngineServer.Socket.Operations as Sockets
use socket_io_server_rust.EngineServer.Socket.Invariant.{performs-new-IsCalm}
use socket_io_server_rust.EngineServer.Server.Requests.{
  fresh, fresh_lem, handle_request_no_sid, handle_upgrade_lem,
}
use socket_io_server_rust.EngineServer.Server.Operations as Servers
use socket_io_server_rust.EngineServer.Server.Operations.{and_then, get_client_or_error, is_get}
use socket_io_server_rust.EngineServer.Server.Handshakes as Handshakes
use socket_io_server_rust.EngineServer.Server.Handshakes.{on_found}
use socket_io_server_rust.EngineServer.Server.State.{
  HandshakeData, Server, ServerRun, returns, find, with_client, on_client,
}
use socket_io_server_rust.EngineServer.Server.Clients.{
  IsClient, HasClients, after, sends-IsClient, polls-IsClient, kind-after, delete-HasClients,
  with_client-HasClients, find-IsClient, >>=-HasClients, on_client-HasClients,
}

module _ {A : Adapter} where
  fresh-IsClient :
      (sid : String) (context : RequestContext) (data' : HandshakeData A.WsHandle) (s : Server A)
      → IsClient sid (fresh sid context data' s)
  unfolding Sending.new
  fresh-IsClient sid context data' s =
      let (context', d, e) = fresh_lem sid context data' s in
      rw e (record { calm = performs-new-IsCalm [] sid context' d; own = refl })

  opened-IsClient :
      (sid : String) (socket : Socket A)
      → IsClient sid socket
      → IsClient sid (record socket { state = record socket.state { ready = opened } })
  opened-IsClient sid socket c = record {
    calm = record { no_reader = c.calm.no_reader; not_closing = refl; closed_empty = λ e. cc };
    own = c.own;
  }

  -- A handshake leaves its socket among the clients.
  handshake-HasClients :
      (sid : String) (context : RequestContext) (data' : HandshakeData A.WsHandle) (s : Server A)
      → HasClients s.clients
      → (let socket = fresh sid context data' s in
          HasClients
            (with_client sid
              (record socket { state = record socket.state { ready = opened } })
              (with_client sid socket s)).clients)
  handshake-HasClients sid context data' s h =
      let socket = fresh sid context data' s in
      let c = fresh-IsClient sid context data' s in
      with_client-HasClients sid (record socket { state = record socket.state { ready = opened } })
        (with_client sid socket s) (opened-IsClient sid socket c)
        (with_client-HasClients sid socket s c h)

  pub send_packet-HasClients :
      (sid : String) (packet : Packet) (s : Server A)
      → HasClients s.clients
      → HasClients (after (Servers.send_packet sid packet s)).clients
  unfolding Servers.send_packet
  send_packet-HasClients sid packet s h = elim (Option-cases (find sid s.clients)) [
    | inl e ↦ rw (e, Servers.send_packet) h
    | inr (client, e) ↦
        rw (e, Servers.send_packet)
          (>>=-HasClients (on_client sid (Sending.send_packet packet none client) s) _
            (on_client-HasClients sid (Sending.send_packet packet none client) s
              (sends-IsClient sid packet none client (find-IsClient sid s.clients client h e)) h)
            (λ x s h. h))
  ]

  pub send_packet_with_ack-HasClients :
      (sid : String) (packet : Packet) (callback : Option Callback) (s : Server A)
      → HasClients s.clients
      → HasClients (after (Servers.send_packet_with_ack sid packet callback s)).clients
  unfolding Servers.send_packet_with_ack Servers.send_packet
  send_packet_with_ack-HasClients sid packet callback s h = send_packet-HasClients sid packet s h

  pub close_socket-HasClients :
      (sid : String) (s : Server A)
      → HasClients s.clients
      → HasClients (after (Servers.close_socket sid s)).clients
  unfolding Servers.close_socket
  close_socket-HasClients sid s h = elim (Option-cases (find sid s.clients)) [
    | inl e ↦ rw (e, Servers.close_socket) h
    | inr (client, e) ↦ rw (e, Servers.close_socket) (delete-HasClients sid s.clients h)
  ]

  subscribe-clients : (s : Server A) → (after (Servers.subscribe s)).clients ≡ s.clients
  unfolding Servers.subscribe
  subscribe-clients s = ground arith

  pub subscribe-HasClients :
      (s : Server A) → HasClients s.clients → HasClients (after (Servers.subscribe s)).clients
  subscribe-HasClients s h = rw (subscribe-clients s) h

  pub on_socket_event-HasClients :
      (event : SocketEvent) (s : Server A)
      → HasClients s.clients
      → HasClients (Servers.on_socket_event event s).clients
  unfolding Servers.on_socket_event
  on_socket_event-HasClients (SocketEvent.close sid reason) s h = delete-HasClients sid s.clients h
  on_socket_event-HasClients (SocketEvent.flush sid) s h = h
  on_socket_event-HasClients _ s h = h

  -- What a request does to the client that it names.
  poll-HasClients :
      (sid : String) (context : RequestContext) (body : Option A.Body) (s : Server A)
      → HasClients s.clients
      → HasClients
          (after (
            on_found sid
              (λ client s. on_client sid (Sockets.handle_polling_request context body client) s)
              s)).clients
  unfolding get_client_or_error
  poll-HasClients sid context body s h = elim (Option-cases (find sid s.clients)) [
    | inl e ↦ rw (e, get_client_or_error) h
    | inr (client, e) ↦
        rw (e, get_client_or_error)
          (on_client-HasClients sid (Sockets.handle_polling_request context body client) s
            (polls-IsClient sid context body client (find-IsClient sid s.clients client h e)) h)
  ]

  verdict-HasClients :
      (b : Bool) (x y : Outcome ServerError Unit) (s : Server A)
      → HasClients s.clients
      → HasClients (after (if b then returns (x, s) else returns (y, s))).clients
  verdict-HasClients true x y s h = h
  verdict-HasClients false x y s h = h

  verify_request-HasClients :
      (sid : String) (upgrade : Bool) (kind : TransportKind) (method : HttpMethod) (s : Server A)
      → HasClients s.clients
      → HasClients (after (Servers.verify_request (some sid) upgrade kind method s)).clients
  unfolding Servers.verify_request
  verify_request-HasClients sid upgrade kind method s h = elim (Option-cases (find sid s.clients)) [
    | inl e ↦ rw (e, Servers.verify_request) h
    | inr (client, e) ↦
        rw (e, Servers.verify_request)
          (>>=-HasClients (on_client sid (Sending.get_transport_kind client) s) _
            (on_client-HasClients sid (Sending.get_transport_kind client) s
              (rw (kind-after client) (find-IsClient sid s.clients client h e)) h)
            (λ client_kind s h. verdict-HasClients _ _ _ s h))
  ]

  and_then-HasClients :
      {X Y : Type 0} (x : Outcome ServerError X) (s : Server A)
      (f : X × Server A → ServerRun A (Outcome ServerError Y))
      → HasClients s.clients
      → ((a : X) → HasClients (after (f (a, s))).clients)
      → HasClients (after (and_then (x, s) f)).clients
  and_then-HasClients (ok a) s f h k = k a
  and_then-HasClients (err e) s f h k = h
  and_then-HasClients panic s f h k = h

  pub handle_request-HasClients :
      (f : String → List String → Str) (new_sid : String) (context : RequestContext)
      (body : Option A.Body) (s : Server A)
      → HasClients s.clients
      → HasClients (after (Handshakes.handle_request f new_sid context body s)).clients
  unfolding Handshakes.handle_request
  handle_request-HasClients f new_sid context body s h =
      elim (Option-cases (get "sid" context.query)) [
        | inl e ↦
            rw (handle_request_no_sid f new_sid context body s e)
              (elim (Bool-cases (is_get context.http_method)) [
                | inl g ↦ rw g (handshake-HasClients new_sid context HandshakeData.polling s h)
                | inr g ↦ rw g h
              ])
        | inr (sid, e) ↦
            rw (e, Handshakes.handle_request)
              (>>=-HasClients
                (Servers.verify_request (some sid) false context.transport_kind context.http_method
                  s)
                _
                (verify_request-HasClients sid false context.transport_kind context.http_method s h)
                (λ verified s h.
                  and_then-HasClients verified s _ h (λ _. poll-HasClients sid context body s h)))
      ]

  pub handle_upgrade-HasClients :
      (f : String → List String → Str) (new_sid : String) (context : RequestContext)
      (socket : A.WsHandle) (s : Server A)
      → HasClients s.clients
      → HasClients (after (Handshakes.handle_upgrade f new_sid context socket s)).clients
  handle_upgrade-HasClients f new_sid context socket s h =
      rw (handle_upgrade_lem f new_sid context socket s)
        (elim (Option-cases (get "sid" context.query)) [
          | inl e ↦
              rw e (handshake-HasClients new_sid context (HandshakeData.web_socket socket) s h)
          | inr (sid, e) ↦ rw e h
        ])
