-- ===== src/EngineServer/Server/Clients.antt =====
-- engine_io_server/src/server.rs: the clients in its map, and what its operations do to them.
use Prim.Native.String.{String}
use text.Mathlib.Text.{◌==◌ as str_eq}
use text.Mathlib.TextEquality.{eq_iff}
use mathlib.Core.Path.{subst}
use socket_io_server_rust.Prelude.{
  Bool-cases, inl, inr, Option, none, some, List, [], ◌∷◌, ◌≡◌, refl, ap, ◌∙◌, arith,
}
use socket_io_server_rust.EngineParser.Packet.{Packet}
use socket_io_server_rust.EngineServer.Util.{RequestContext}
use socket_io_server_rust.EngineServer.Transport.{Adapter}
use socket_io_server_rust.EngineServer.Socket.State as States
use socket_io_server_rust.EngineServer.Socket.State.{
  Socket, SocketEvent, Callback, Run, free, opened, accepts,
}
use socket_io_server_rust.EngineServer.Socket.Sending as Sending
use socket_io_server_rust.EngineServer.Socket.Operations as Sockets
use socket_io_server_rust.EngineServer.Socket.Flush.{flush_lem}
use socket_io_server_rust.EngineServer.Socket.Endings.{handle_polling_request-after}
use socket_io_server_rust.EngineServer.Socket.Outbox.{
  pushed, send_packet_accepted, send_packet_refused,
}
use socket_io_server_rust.EngineServer.Socket.Calls.{sends, polls, perform}
use socket_io_server_rust.EngineServer.Socket.Invariant.{
  IsCalm, guard-cases, perform-held, perform-IsCalm,
}
use socket_io_server_rust.EngineServer.Server.Requests.{find-delete}
use socket_io_server_rust.EngineServer.Server.State.{
  Server, ServerRun, returns, panics, blocks, ◌>>=◌, find, delete, with_client, on_client,
}

-- A client under an identifier: it is calm, and the identifier is its own.
pub record IsClient {A : Adapter} (sid : String) (s : Socket A) : Type 0 where
  pub calm : IsCalm s
  pub own : s.id ≡ sid

module _ {A : Adapter} where
  flush-id : (s : Socket A) → s.guard ≡ free → (States.after (Sending.flush s)).id ≡ s.id
  flush-id s g = rw (flush_lem s g) (ground arith)

  sends-id :
      (packet : Packet) (callback : Option Callback) (s : Socket A)
      → s.guard ≡ free
      → (States.after (Sending.send_packet packet callback s)).id ≡ s.id
  sends-id packet none s g = elim (Bool-cases (accepts s.state.ready)) [
    | inl a ↦ rw (send_packet_accepted packet none s g a) (flush-id (pushed packet none s) g)
    | inr a ↦ rw (send_packet_refused packet none s g a) refl
  ]
  sends-id packet (some c) s g = elim (Bool-cases (accepts s.state.ready)) [
    | inl a ↦
        rw (send_packet_accepted packet (some c) s g a) (flush-id (pushed packet (some c) s) g)
    | inr a ↦ rw (send_packet_refused packet (some c) s g a) refl
  ]

  polls-id :
      (context : RequestContext) (body : Option A.Body) (s : Socket A)
      → s.guard ≡ free
      → (States.after (Sockets.handle_polling_request context body s)).id ≡ s.id
  polls-id context body s g = elim (handle_polling_request-after context body s g) [
    | inl e ↦ rw e refl
    | inr e ↦ rw e (flush-id s g)
  ]

  pub sends-IsClient :
      (sid : String) (packet : Packet) (callback : Option Callback) (s : Socket A)
      → IsClient sid s
      → IsClient sid (States.after (Sending.send_packet packet callback s))
  unfolding perform
  sends-IsClient sid packet callback s c = record {
    calm = perform-IsCalm (sends packet callback) s c.calm;
    own = elim (guard-cases s.guard c.calm.no_reader) [
      | inl g ↦ sends-id packet callback s g ∙ c.own
      | inr g ↦ ap (λ (t : Socket A). t.id) (perform-held (sends packet callback) s g) ∙ c.own
    ];
  }

  pub polls-IsClient :
      (sid : String) (context : RequestContext) (body : Option A.Body) (s : Socket A)
      → IsClient sid s
      → IsClient sid (States.after (Sockets.handle_polling_request context body s))
  unfolding perform
  polls-IsClient sid context body s c = record {
    calm = perform-IsCalm (polls context body) s c.calm;
    own = elim (guard-cases s.guard c.calm.no_reader) [
      | inl g ↦ polls-id context body s g ∙ c.own
      | inr g ↦ ap (λ (t : Socket A). t.id) (perform-held (polls context body) s g) ∙ c.own
    ];
  }

  pub kind-after : (s : Socket A) → States.after (Sending.get_transport_kind s) ≡ s
  unfolding Sending.get_transport_kind
  kind-after s = ground arith

-- Each client is stored once, and is a client under its identifier.
abbrev pub HasClients : {A : Adapter} → List (String × Socket A) → Type 0
HasClients [] = Unit
HasClients ((sid, s) ∷ m) = IsClient sid s × (find sid m ≡ none) × HasClients m

-- The server behind an operation, however it ends.
abbrev pub after : {A : Adapter} {X : Type 0} → ServerRun A X → Server A
after (returns (_, s)) = s
after (panics s) = s
after (blocks s) = s

find-delete-eq-none :
    {V : Type 0} (j k : String) (m : List (String × V))
    → find j m ≡ none
    → find j (delete k m) ≡ none
find-delete-eq-none j k [] h = refl
find-delete-eq-none j k ((i, v) ∷ m) h = elim (Bool-cases (str_eq i j)) [
  | inl e ↦ let clash = rw e at h in cc
  | inr e ↦
      let rest = find-delete-eq-none j k m (rw e at h) in
      elim (Bool-cases (str_eq i k)) [ inl d ↦ rw d rest | inr d ↦ rw d (rw e rest) ]
]

module _ {A : Adapter} where
  pub delete-HasClients :
      (k : String) (m : List (String × Socket A)) → HasClients m → HasClients (delete k m)
  delete-HasClients k [] h = tt
  delete-HasClients k ((j, c) ∷ m) (hc, fresh_key, h) = elim (Bool-cases (str_eq j k)) [
    | inl e ↦ rw e (delete-HasClients k m h)
    | inr e ↦ rw e (hc, find-delete-eq-none j k m fresh_key, delete-HasClients k m h)
  ]

  pub with_client-HasClients :
      (sid : String) (socket : Socket A) (s : Server A)
      → IsClient sid socket
      → HasClients s.clients
      → HasClients (with_client sid socket s).clients
  with_client-HasClients sid socket s c h =
      (c, find-delete sid s.clients, delete-HasClients sid s.clients h)

  pub find-IsClient :
      (sid : String) (m : List (String × Socket A)) (socket : Socket A)
      → HasClients m
      → find sid m ≡ some socket
      → IsClient sid socket
  find-IsClient sid [] socket h e = cc
  find-IsClient sid ((j, c) ∷ m) socket (hc, fresh_key, h) e = elim (Bool-cases (str_eq j sid)) [
    | inl d ↦
        let e' : some c ≡ some socket = rw d at e in
        let same : c ≡ socket = cc in
        subst (IsClient sid) same (subst (λ k. IsClient k c) ((eq_iff j sid).0 d) hc)
    | inr d ↦ find-IsClient sid m socket h (rw d at e)
  ]

  pub >>=-HasClients :
      {X Y : Type 0} (r : ServerRun A X) (f : X × Server A → ServerRun A Y)
      → HasClients (after r).clients
      → ((x : X) (s : Server A) → HasClients s.clients → HasClients (after (f (x, s))).clients)
      → HasClients (after (r >>= f)).clients
  >>=-HasClients (returns (x, s)) f h k = k x s h
  >>=-HasClients (panics s) f h k = h
  >>=-HasClients (blocks s) f h k = h

  pub on_client-HasClients :
      {X : Type 0} (sid : String) (r : Run A X) (s : Server A)
      → IsClient sid (States.after r)
      → HasClients s.clients
      → HasClients (after (on_client sid r s)).clients
  on_client-HasClients sid (States.returns (x, socket)) s c h =
      with_client-HasClients sid socket s c h
  on_client-HasClients sid (States.panics socket) s c h = with_client-HasClients sid socket s c h
  on_client-HasClients sid (States.blocks socket) s c h = with_client-HasClients sid socket s c h
