-- ===== src/EngineServer/Socket/Calls.antt =====
-- engine_io_server/src/socket.rs: what may be called on a connection from outside, as one type, and
-- what the trace of a connection says.
use Prim.Native.String.{String}
use socket_io_server_rust.Prelude.{
  Bool, Option, List, [], ◌∷◌, ◌++◌, map, ◌≡◌, refl, ap, sym, ◌∙◌, append_assoc, Str,
}
use socket_io_server_rust.EngineParser.Packet.{Packet}
use socket_io_server_rust.EngineServer.Util.{RequestContext}
use socket_io_server_rust.EngineServer.Transport.{Adapter, TransportCreateData, TransportEvent}
use socket_io_server_rust.EngineServer.Socket.State.{
  Callback, CallbackBatch, non_framed, framed, Effect, emits, commands, calls, Socket, after,
}
use socket_io_server_rust.EngineServer.Socket.Sending.{send_packet}
use socket_io_server_rust.EngineServer.Socket.Operations.{
  open_socket, close_socket, handle_polling_request, maybe_upgrade, on_transport_event,
}

pub data Call (A : Adapter) : Type 0 where
  opens : (String → List String → Str) → Call A
  closes : (discard : Bool) → Call A
  sends : Packet → Option Callback → Call A
  polls : RequestContext → Option A.Body → Call A
  upgrades : RequestContext → TransportCreateData A.WsHandle → Call A
  hears : TransportEvent → Call A

-- The socket behind a call, however the call ends. The answer to a poll is left out here: `flush` hands
-- no packets back, so that none ever carries a packet of the write buffer.
unfoldable pub perform : {A : Adapter} → Call A → Socket A → Socket A
unfolding open_socket close_socket send_packet handle_polling_request maybe_upgrade
    on_transport_event
perform (opens f) s = after (open_socket f s)
perform (closes discard) s = after (close_socket discard s)
perform (sends packet callback) s = after (send_packet packet callback s)
perform (polls context body) s = after (handle_polling_request context body s)
perform (upgrades context d) s = after (maybe_upgrade context d s)
perform (hears event) s = after (on_transport_event event s)

-- The packets that went to the transport, in order.
abbrev pub sent : List Effect → List Packet
sent [] = []
sent (emits _ ∷ t) = sent t
sent (commands packets ∷ t) = packets ++ sent t
sent (calls _ ∷ t) = sent t

-- The callbacks that were run, in order.
abbrev pub called : List Effect → List Callback
called [] = []
called (emits _ ∷ t) = called t
called (commands _ ∷ t) = called t
called (calls callback ∷ t) = callback ∷ called t

abbrev pub batched : List CallbackBatch → List Callback
batched [] = []
batched (non_framed callbacks ∷ bs) = callbacks ++ batched bs
batched (framed callback ∷ bs) = callback ∷ batched bs

-- What was taken for sending: what went out, and behind it what waits.
abbrev pub outbox : {A : Adapter} → Socket A → List Packet
outbox s = sent s.trace ++ s.state.write_buffer

-- The callbacks that were registered: those that ran, those of flushed packets, and the others.
abbrev pub ledger : {A : Adapter} → Socket A → List Callback
ledger s = called s.trace ++ (batched s.state.flushed_callbacks ++ s.state.pending_callbacks)

pub sent-append : (t u : List Effect) → sent (t ++ u) ≡ sent t ++ sent u
sent-append [] u = refl
sent-append (emits _ ∷ t) u = sent-append t u
sent-append (commands packets ∷ t) u =
    ap (λ r. packets ++ r) (sent-append t u) ∙ sym (append_assoc packets (sent t) (sent u))
sent-append (calls _ ∷ t) u = sent-append t u

pub called-append : (t u : List Effect) → called (t ++ u) ≡ called t ++ called u
called-append [] u = refl
called-append (emits _ ∷ t) u = called-append t u
called-append (commands _ ∷ t) u = called-append t u
called-append (calls callback ∷ t) u = ap (λ r. callback ∷ r) (called-append t u)

pub batched-append : (a b : List CallbackBatch) → batched (a ++ b) ≡ batched a ++ batched b
batched-append [] b = refl
batched-append (non_framed callbacks ∷ a) b =
    ap (λ r. callbacks ++ r) (batched-append a b)
    ∙ sym (append_assoc callbacks (batched a) (batched b))
batched-append (framed callback ∷ a) b = ap (λ r. callback ∷ r) (batched-append a b)

pub sent-calls : (callbacks : List Callback) → sent (map calls callbacks) ≡ []
sent-calls [] = refl
sent-calls (c ∷ cs) = sent-calls cs

pub called-calls : (callbacks : List Callback) → called (map calls callbacks) ≡ callbacks
called-calls [] = refl
called-calls (c ∷ cs) = ap (λ r. c ∷ r) (called-calls cs)

pub batched-framed : (callbacks : List Callback) → batched (map framed callbacks) ≡ callbacks
batched-framed [] = refl
batched-framed (c ∷ cs) = ap (λ r. c ∷ r) (batched-framed cs)
