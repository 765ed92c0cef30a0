-- ===== src/EngineServer/Socket/Mute.antt =====
-- engine_io_server/src/socket.rs: a connection whose transport takes nothing.
use socket_io_server_rust.Prelude.{
  Bool, true, false, Bool-cases, if◌then◌else◌, inl, inr, Option, none, some, Outcome, ok, err,
  panic, List, [], ◌∷◌, ◌++◌, map, ◌≡◌, refl, ap, ◌∙◌, append-nil, arith, All,
}
use socket_io_server_rust.EngineParser.Packet.{Packet}
use socket_io_server_rust.EngineServer.Util.{RequestContext, ServerError}
use socket_io_server_rust.EngineServer.Transport.{
  Adapter, Transport, TransportEvent, RequestReply, action, response, as_polling_or_fail,
}
use socket_io_server_rust.EngineServer.Socket.State.{
  SocketEvent, SocketCloseReason, transport_closed, Callback, CallbackBatch, framed, non_framed,
  free, write_held, Run, blocks, emits, calls, Socket, returns, after, accepts, is_open, is_closed,
}
use socket_io_server_rust.EngineServer.Socket.Sending.{
  flush, send_packet, transport_or_fail, get_transport_or_fail,
}
use socket_io_server_rust.EngineServer.Socket.Operations.{
  error_reason, answer, request_on, polling_or_fail, on_flush, on_transport_event,
  handle_polling_request,
}
use socket_io_server_rust.EngineServer.Socket.Endings.{
  closed_by, on_close_lem, on_transport_error_lem, open_socket_lem, close_socket_lem, on_packet_lem,
  ran, on_drain_lem, handle_polling_request-after,
}
use socket_io_server_rust.EngineServer.Socket.Flush.{writable, flush_lem}
use socket_io_server_rust.EngineServer.Socket.Calls.{
  Call, opens, closes, sends, polls, upgrades, hears, perform, sent, sent-append, sent-calls,
}
use socket_io_server_rust.EngineServer.Socket.Outbox.{
  pushed, send_packet_accepted, send_packet_refused,
}
use socket_io_server_rust.EngineServer.Socket.Invariant.{
  is_read_held, guard-cases, perform-held, performs,
}

-- No transport takes packets, and no call is half done under a read guard.
pub record IsMute {A : Adapter} (s : Socket A) : Type 0 where
  pub no_reader : is_read_held s.guard ≡ false
  pub mute : writable s.state.transport ≡ false

-- A call that sets no transport.
abbrev pub KeepsTransport : {A : Adapter} → Call A → Type 0
KeepsTransport (upgrades context d) = ⊥
KeepsTransport _ = Unit

-- What a poll may be answered with: a response is one that a polling transport gives for the request
-- alone, and with it the connection is left as it is.
abbrev pub IsOwnReply :
    {A : Adapter}
    → RequestContext
    → Option A.Body
    → Socket A
    → Run A (Outcome ServerError A.Response)
    → Type 0
IsOwnReply {A} context body s (returns (ok r, s')) =
    (p : A.Polling) × (A.handle_request p context body ≡ ok (response r)) × (s' ≡ s)
IsOwnReply context body s _ = Unit

module _ {A : Adapter} where
  -- What a call makes of a mute connection: it is still mute, and nothing was sent.
  abbrev Silent : Socket A → Socket A → Type 0
  Silent s s' = IsMute s' × (sent s'.trace ≡ sent s.trace)

  Silent-if :
      (b : Bool) (s x y : Socket A) → Silent s x → Silent s y → Silent s (if b then x else y)
  Silent-if true s x y hx hy = hx
  Silent-if false s x y hx hy = hy

  flush_mute :
      (s : Socket A)
      → s.guard ≡ free
      → writable s.state.transport ≡ false
      → flush s ≡ returns (none, s)
  flush_mute s g m = rw (flush_lem s g) (ground arith)

  closed_by-Silent :
      (reason : SocketCloseReason) (s : Socket A) → IsMute s → Silent s (closed_by reason s)
  closed_by-Silent reason s h = (
    record { no_reader = h.no_reader; mute = refl },
    sent-append s.trace (emits (SocketEvent.close s.id reason) ∷ []) ∙ append-nil (sent s.trace),
  )

  ran-Silent : (bs : List CallbackBatch) (s : Socket A) → IsMute s → Silent s (ran bs s)
  ran-Silent [] s h = (h, refl)
  ran-Silent (framed callback ∷ rest) s h = (
    record { no_reader = h.no_reader; mute = h.mute },
    sent-append s.trace (calls callback ∷ []) ∙ append-nil (sent s.trace),
  )
  ran-Silent (non_framed callbacks ∷ rest) s h = (
    record { no_reader = h.no_reader; mute = h.mute },
    sent-append s.trace (map calls callbacks)
        ∙ ap (λ t. sent s.trace ++ t) (sent-calls callbacks)
        ∙ append-nil (sent s.trace),
  )

  pushed-Silent :
      (packet : Packet) (callback : Option Callback) (s : Socket A)
      → s.guard ≡ free
      → IsMute s
      → Silent s (after (flush (pushed packet callback s)))
  pushed-Silent packet none s g h =
      rw (flush_mute (pushed packet none s) g h.mute)
        (record { no_reader = h.no_reader; mute = h.mute }, refl)
  pushed-Silent packet (some c) s g h =
      rw (flush_mute (pushed packet (some c) s) g h.mute)
        (record { no_reader = h.no_reader; mute = h.mute }, refl)

  sends-Silent :
      (packet : Packet) (callback : Option Callback) (s : Socket A)
      → s.guard ≡ free
      → IsMute s
      → Silent s (after (send_packet packet callback s))
  sends-Silent packet callback s g h = elim (Bool-cases (accepts s.state.ready)) [
    | inl a ↦ rw (send_packet_accepted packet callback s g a) (pushed-Silent packet callback s g h)
    | inr a ↦ rw (send_packet_refused packet callback s g a) (h, refl)
  ]

  polls-Silent :
      (context : RequestContext) (body : Option A.Body) (s : Socket A)
      → s.guard ≡ free
      → IsMute s
      → Silent s (after (handle_polling_request context body s))
  polls-Silent context body s g h = elim (handle_polling_request-after context body s g) [
    | inl e ↦ rw e (h, refl)
    | inr e ↦ rw (e) (rw (flush_mute s g h.mute) (h, refl))
  ]

  drain-Silent :
      (s : Socket A)
      → s.guard ≡ free
      → IsMute s
      → Silent s (after (on_transport_event TransportEvent.drain s))
  unfolding on_transport_event on_flush
  drain-Silent s g h =
      rw (flush_mute s g h.mute) (rw (on_drain_lem s g) (ran-Silent s.state.flushed_callbacks s h))

  perform-Silent_free :
      (c : Call A) (s : Socket A)
      → s.guard ≡ free
      → KeepsTransport c
      → IsMute s
      → Silent s (perform c s)
  unfolding perform on_transport_event
  perform-Silent_free (opens f) s g k h =
      rw (open_socket_lem f s g) (record { no_reader = h.no_reader; mute = h.mute }, refl)
  perform-Silent_free (closes discard) s g k h =
      rw (close_socket_lem discard s g) (elim (Bool-cases (is_open s.state.ready)) [
        | inl o ↦ rw o (record { no_reader = refl; mute = h.mute }, refl)
        | inr o ↦ rw o (h, refl)
      ])
  perform-Silent_free (sends packet callback) s g k h = sends-Silent packet callback s g h
  perform-Silent_free (polls context body) s g k h = polls-Silent context body s g h
  perform-Silent_free (upgrades context d) s g k h = absurd k
  perform-Silent_free (hears (TransportEvent.error e)) s g k h = rw (on_transport_error_lem e s g) (
      Silent-if (accepts s.state.ready) s (closed_by (error_reason e) s) s
        (closed_by-Silent (error_reason e) s h) (h, refl))
  perform-Silent_free (hears (TransportEvent.packet context packet)) s g k h =
      rw (on_packet_lem context packet s g) (elim (Bool-cases (is_open s.state.ready)) [
        | inl o ↦ rw o (h, refl)
        | inr o ↦ rw o (h, refl)
      ])
  perform-Silent_free (hears TransportEvent.drain) s g k h = drain-Silent s g h
  perform-Silent_free (hears TransportEvent.close) s g k h =
      rw (on_close_lem transport_closed s g) (
        Silent-if (is_closed s.state.ready) s s (closed_by transport_closed s) (h, refl)
          (closed_by-Silent transport_closed s h))

  perform-Silent :
      (c : Call A) (s : Socket A) → KeepsTransport c → IsMute s → Silent s (perform c s)
  perform-Silent c s k h = elim (guard-cases s.guard h.no_reader) [
    | (inl g) ↦ perform-Silent_free c s g k h
    | (inr g) ↦ rw (perform-held c s g) (h, refl)
  ]

  answer-IsOwnReply :
      (context : RequestContext) (body : Option A.Body) (p : A.Polling) (s : Socket A)
      (o : Outcome ServerError (RequestReply A.Response))
      → s.guard ≡ free
      → IsMute s
      → A.handle_request p context body ≡ o
      → IsOwnReply context body s (answer p context o s)
  unfolding answer
  answer-IsOwnReply context body p s (ok (action TransportEvent.drain)) g h e =
      rw (flush_mute s g h.mute) tt
  answer-IsOwnReply context body p s (ok (action (TransportEvent.error d))) g h e = tt
  answer-IsOwnReply context body p s (ok (action (TransportEvent.packet d k))) g h e = tt
  answer-IsOwnReply context body p s (ok (action TransportEvent.close)) g h e = tt
  answer-IsOwnReply context body p s (ok (response r)) g h e = (p, e, refl)
  answer-IsOwnReply context body p s (err d) g h e = tt
  answer-IsOwnReply context body p s panic g h e = tt

  on-IsOwnReply :
      (context : RequestContext) (body : Option A.Body) (s : Socket A) (t : Option (Transport A))
      → s.guard ≡ free
      → IsMute s
      → IsOwnReply context body s
          (request_on context body (polling_or_fail (transport_or_fail t)) s)
  unfolding answer as_polling_or_fail
  on-IsOwnReply context body s none g h = tt
  on-IsOwnReply context body s (some (Transport.web_socket w)) g h = tt
  on-IsOwnReply context body s (some (Transport.polling p)) g h =
      answer-IsOwnReply context body p s (A.handle_request p context body) g h refl

  request_lem :
      (context : RequestContext) (body : Option A.Body) (s : Socket A)
      → s.guard ≡ free
      → handle_polling_request context body s
        ≡ request_on context body (polling_or_fail (transport_or_fail s.state.transport)) s
  unfolding handle_polling_request get_transport_or_fail
  request_lem context body s g = ground arith

  request_held :
      (context : RequestContext) (body : Option A.Body) (s : Socket A)
      → s.guard ≡ write_held
      → handle_polling_request context body s ≡ blocks s
  unfolding handle_polling_request get_transport_or_fail
  request_held context body s g = ground arith

  pub request-IsOwnReply :
      (context : RequestContext) (body : Option A.Body) (s : Socket A)
      → IsMute s
      → IsOwnReply context body s (handle_polling_request context body s)
  request-IsOwnReply context body s h = elim (guard-cases s.guard h.no_reader) [
    | inl g ↦ rw (request_lem context body s g) (on-IsOwnReply context body s s.state.transport g h)
    | inr g ↦ rw (request_held context body s g) tt
  ]

  pub performs-IsMute :
      (cs : List (Call A)) (s : Socket A)
      → All KeepsTransport cs
      → IsMute s
      → IsMute (performs cs s)
  performs-IsMute [] s all h = h
  performs-IsMute (c ∷ cs) s (k, all) h =
      performs-IsMute cs (perform c s) all (perform-Silent c s k h).0

  -- Where the transport takes nothing, no calls that set no other transport send a packet.
  pub performs-sent :
      (cs : List (Call A)) (s : Socket A)
      → All KeepsTransport cs
      → IsMute s
      → sent (performs cs s).trace ≡ sent s.trace
  performs-sent [] s all h = refl
  performs-sent (c ∷ cs) s (k, all) h =
      let (mute, same) = perform-Silent c s k h in performs-sent cs (perform c s) all mute ∙ same
