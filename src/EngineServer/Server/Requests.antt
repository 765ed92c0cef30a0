-- ===== src/EngineServer/Server/Requests.antt =====
-- engine_io_server/src/server.rs: what a request is answered.
use Prim.Native.String.{String}
use text.Mathlib.Text.{◌==◌ as str_eq}
use socket_io_server_rust.Prelude.{
  Bool, not, ◌&&◌, if◌then◌else◌, Bool-cases, Option-cases, inl, inr, Option, none, some, List, [],
  ◌∷◌, ◌≡◌, refl, Str, err,
}
use socket_io_server_rust.EngineServer.Util.{
  get, TransportKind, HttpMethod, unknown_sid, bad_handshake_method, RequestContext,
  with_set_cookie, from_cookie_options,
}
use socket_io_server_rust.EngineServer.Transport.{Adapter, TransportCreateData}
use socket_io_server_rust.EngineServer.Socket.State.{Socket, SocketEvent, SocketCloseReason, opened}
use socket_io_server_rust.EngineServer.Socket.Sending as Sending
use socket_io_server_rust.EngineServer.Server.State.{
  HandshakeData, Server, returns, panics, find, delete, with_client,
}
use socket_io_server_rust.EngineServer.Server.Operations.{
  is_get, verify_request, get_client_or_error, on_socket_event,
}
use socket_io_server_rust.EngineServer.Server.Handshakes.{
  contains_key, create_data, handshake, handle_request, handle_upgrade,
}

-- What was removed is not found.
pub find-delete : {V : Type 0} (k : String) (m : List (String × V)) → find k (delete k m) ≡ none
find-delete k [] = refl
find-delete k ((j, v) ∷ m) = elim (Bool-cases (str_eq j k)) [
  | (inl e) ↦ rw (e) (find-delete k m)
  | (inr e) ↦ rw (e, e) (find-delete k m)
]

module _ {A : Adapter} where
  -- The socket that a handshake makes.
  abbrev pub fresh : String → RequestContext → HandshakeData A.WsHandle → Server A → Socket A
  unfolding with_set_cookie from_cookie_options contains_key Sending.new
  fresh sid context data' s =
      let supports_binary = not (contains_key "b64" context.query) in
      Sending.new sid (with_set_cookie context (from_cookie_options s.options.cookie sid)) (
        create_data supports_binary (not supports_binary && not (contains_key "j" context.query))
          data')

  pub fresh_lem :
      (sid : String) (context : RequestContext) (data' : HandshakeData A.WsHandle) (s : Server A)
      → (context' : RequestContext) × (d : TransportCreateData A.WsHandle) × (fresh sid context
            data' s
          ≡ Sending.new sid context' d)
  unfolding Sending.new fresh
  fresh_lem sid context data' s = (_, _, refl)

  -- A handshake always ends in a panic, when the new socket is opened. The socket stays among the
  -- clients, as an open one.
  pub handshake_lem :
      (f : String → List String → Str) (sid : String) (context : RequestContext)
      (data' : HandshakeData A.WsHandle) (s : Server A)
      → handshake f sid context data' s
        ≡ panics (
            with_client sid
              (let socket = fresh sid context data' s in
                record socket { state = record socket.state { ready = opened } })
              (with_client sid (fresh sid context data' s) s))
  unfolding handshake Sending.new
  handshake_lem f sid context data' s = refl

  -- An upgrade always ends in a panic. With an identifier it leaves the server as it was, whether there
  -- is such a client or not; without one, the new socket stays among the clients.
  pub handle_upgrade_lem :
      (f : String → List String → Str) (new_sid : String) (context : RequestContext)
      (socket : A.WsHandle) (s : Server A)
      → handle_upgrade f new_sid context socket s
        ≡ panics (elim (get "sid" context.query) [
          | some sid ↦ s
          | none ↦
              with_client new_sid
                (let socket = fresh new_sid context (HandshakeData.web_socket socket) s in
                  record socket { state = record socket.state { ready = opened } })
                (with_client new_sid (fresh new_sid context (HandshakeData.web_socket socket) s) s)
        ])
  unfolding handle_upgrade handshake Sending.new get_client_or_error
  handle_upgrade_lem f new_sid context socket s = elim (Option-cases (get "sid" context.query)) [
    | inl e ↦ rw (e, handle_upgrade) refl
    | inr (sid, e) ↦ elim (Option-cases (find sid s.clients)) [
      | inl u ↦ rw (e, handle_upgrade) (rw (u, get_client_or_error) refl)
      | inr (client, u) ↦ rw (e, handle_upgrade) (rw (u, get_client_or_error) refl)
    ]
  ]

  -- A request without an identifier is refused, if its method is not GET, or ends in a panic.
  pub handle_request_no_sid :
      (f : String → List String → Str) (new_sid : String) (context : RequestContext)
      (body : Option A.Body) (s : Server A)
      → get "sid" context.query ≡ none
      → handle_request f new_sid context body s ≡ (
          if is_get context.http_method
          then panics (
              with_client new_sid
                (let socket = fresh new_sid context HandshakeData.polling s in
                  record socket { state = record socket.state { ready = opened } })
                (with_client new_sid (fresh new_sid context HandshakeData.polling s) s))
          else returns (err bad_handshake_method, s))
  unfolding handle_request verify_request
  handle_request_no_sid f new_sid context body s e =
      elim (Bool-cases (is_get context.http_method)) [
        | (inl g) ↦ rw (e, g) (refl)
        | (inr g) ↦ rw (e, g) (refl)
      ]

  -- After the event that a client was closed, a request for it is refused as one with an unknown
  -- identifier.
  pub on_socket_event-close :
      (sid : String) (reason : SocketCloseReason) (upgrade : Bool) (kind : TransportKind)
      (method : HttpMethod) (s : Server A)
      → (let s' = on_socket_event (SocketEvent.close sid reason) s in
          verify_request (some sid) upgrade kind method s' ≡ returns (err unknown_sid, s'))
  unfolding on_socket_event verify_request
  on_socket_event-close sid reason upgrade kind method s =
      rw (find-delete sid s.clients, verify_request) (refl)
