-- ===== src/EngineServer/Socket/Outbox.antt =====
-- engine_io_server/src/socket.rs: packets and callbacks are kept in order by every call.
use socket_io_server_rust.Prelude.{
  Bool, false, if◌then◌else◌, not, Bool-cases, inl, inr, Option, none, some, List, [], ◌∷◌, ◌++◌,
  map, ◌≡◌, refl, sym, ap, ◌∙◌, append-nil, append_assoc,
}
use socket_io_server_rust.EngineParser.Packet.{Packet}
use socket_io_server_rust.EngineServer.Util.{RequestContext}
use socket_io_server_rust.EngineServer.Transport.{Adapter, TransportEvent, TransportError}
use socket_io_server_rust.EngineServer.Socket.State.{
  ReadyState, SocketEvent, SocketCloseReason, transport_closed, Callback, CallbackBatch, non_framed,
  framed, free, emits, commands, calls, Socket, after, accepts, is_open, is_closed, is_closing,
}
use socket_io_server_rust.EngineServer.Socket.Sending.{flush, set_transport, send_packet}
use socket_io_server_rust.EngineServer.Socket.Operations.{
  error_reason, maybe_upgrade, close_socket, on_transport_event, handle_polling_request,
}
use socket_io_server_rust.EngineServer.Socket.Endings.{
  closed_by, on_close_lem, on_transport_error_lem, open_socket_lem, close_socket_lem, on_packet_lem,
  ran, handle_polling_request-after,
}
use socket_io_server_rust.EngineServer.Socket.Flush.{can_flush, flushed, flush_result, flush_lem}
use socket_io_server_rust.EngineServer.Socket.Calls.{
  Call, opens, closes, sends, polls, upgrades, hears, perform, sent, outbox, sent-append,
  sent-calls,
}
pub use socket_io_server_rust.EngineServer.Socket.Branches.{
  pushed, send_packet_accepted, send_packet_refused, flush_open_lem, drained_once,
  on_transport_drain_lem,
}

module _ {A : Adapter} where
  outbox-flushed : (s : Socket A) → outbox (flushed s) ≡ outbox s
  outbox-flushed s =
      append-nil (sent (flushed s).trace)
      ∙ sent-append
          ((s.trace ++ emits (SocketEvent.flush s.id) ∷ []) ++ commands s.state.write_buffer ∷ [])
          (emits (SocketEvent.drain s.id) ∷ [])
      ∙ append-nil _
      ∙ sent-append (s.trace ++ emits (SocketEvent.flush s.id) ∷ [])
          (commands s.state.write_buffer ∷ [])
      ∙ ap (λ x. x ++ (s.state.write_buffer ++ []))
          (sent-append s.trace (emits (SocketEvent.flush s.id) ∷ []) ∙ append-nil (sent s.trace))
      ∙ ap (λ x. sent s.trace ++ x) (append-nil s.state.write_buffer)

  pub outbox-flush_result : (s : Socket A) → outbox (after (flush_result s)) ≡ outbox s
  outbox-flush_result s = elim (Bool-cases (can_flush s.state)) [
    | (inr e) ↦ rw (e) refl
    | (inl e) ↦ elim (Bool-cases (is_closing s.state.ready)) [
      | (inl c) ↦ rw (e, c) (outbox-flushed s)
      | (inr c) ↦ rw (e, c) (outbox-flushed s)
    ]
  ]

  pub outbox-flush : (s : Socket A) → s.guard ≡ free → outbox (after (flush s)) ≡ outbox s
  outbox-flush s g = rw (flush_lem s g) (outbox-flush_result s)

  -- The packet that a call takes for sending.
  abbrev pub taken : Call A → ReadyState → List Packet
  taken (sends packet _) ready = if accepts ready then packet ∷ [] else []
  taken _ _ = []

  -- The calls that close a connection, and so discard what waits.
  abbrev pub discards : Call A → ReadyState → Bool
  discards (hears (TransportEvent.error _)) ready = accepts ready
  discards (hears TransportEvent.close) ready = not (is_closed ready)
  discards _ _ = false

  outbox-send_packet :
      (packet : Packet) (callback : Option Callback) (s : Socket A)
      → s.guard ≡ free
      → outbox (after (send_packet packet callback s))
        ≡ outbox s ++ taken (sends packet callback) s.state.ready
  outbox-send_packet packet none s g = elim (Bool-cases (accepts s.state.ready)) [
    | (inl a) ↦
        rw (send_packet_accepted packet none s g a, a)
          (outbox-flush (pushed packet none s) g
            ∙ sym (append_assoc (sent s.trace) s.state.write_buffer (packet ∷ [])))
    | (inr a) ↦ rw (send_packet_refused packet none s g a, a) (sym (append-nil (outbox s)))
  ]
  outbox-send_packet packet (some c) s g = elim (Bool-cases (accepts s.state.ready)) [
    | (inl a) ↦
        rw (send_packet_accepted packet (some c) s g a, a)
          (outbox-flush (pushed packet (some c) s) g
            ∙ sym (append_assoc (sent s.trace) s.state.write_buffer (packet ∷ [])))
    | (inr a) ↦ rw (send_packet_refused packet (some c) s g a, a) (sym (append-nil (outbox s)))
  ]

  outbox-ran : (bs : List CallbackBatch) (s : Socket A) → outbox (ran bs s) ≡ outbox s
  outbox-ran [] s = refl
  outbox-ran (framed callback ∷ rest) s =
      ap (λ t. t ++ s.state.write_buffer)
        (sent-append s.trace (calls callback ∷ []) ∙ append-nil (sent s.trace))
  outbox-ran (non_framed callbacks ∷ rest) s =
      ap (λ t. t ++ s.state.write_buffer)
        (sent-append s.trace (map calls callbacks)
          ∙ ap (λ t. sent s.trace ++ t) (sent-calls callbacks)
          ∙ append-nil (sent s.trace))

  outbox-drained_once : (s : Socket A) → outbox (drained_once s) ≡ outbox s
  outbox-drained_once s = elim (Bool-cases (can_flush s.state)) [
    | (inl e) ↦
        rw (e) (outbox-ran (flushed s).state.flushed_callbacks (flushed s) ∙ outbox-flushed s)
    | (inr e) ↦ rw (e) (outbox-ran s.state.flushed_callbacks s)
  ]

  outbox-closed_by :
      (reason : SocketCloseReason) (s : Socket A) → outbox (closed_by reason s) ≡ sent s.trace
  outbox-closed_by reason s =
      append-nil (sent (closed_by reason s).trace)
      ∙ sent-append s.trace (emits (SocketEvent.close s.id reason) ∷ [])
      ∙ append-nil (sent s.trace)

  outbox-polls :
      (context : RequestContext) (body : Option A.Body) (s : Socket A)
      → s.guard ≡ free
      → outbox (after (handle_polling_request context body s)) ≡ outbox s
  outbox-polls context body s g = elim (handle_polling_request-after context body s g) [
    | (inl e) ↦ ap outbox e
    | (inr e) ↦ ap outbox e ∙ outbox-flush s g
  ]

  outbox-error :
      (e : TransportError) (s : Socket A)
      → s.guard ≡ free
      → outbox (after (on_transport_event (TransportEvent.error e) s))
        ≡ (if accepts s.state.ready then sent s.trace else outbox s ++ [])
  unfolding on_transport_event
  outbox-error e s g =
      rw (on_transport_error_lem e s g) (elim (Bool-cases (accepts s.state.ready)) [
        | (inl a) ↦ rw (a) (outbox-closed_by (error_reason e) s)
        | (inr a) ↦ rw (a) (sym (append-nil (outbox s)))
      ])

  outbox-close :
      (s : Socket A)
      → s.guard ≡ free
      → outbox (after (on_transport_event TransportEvent.close s))
        ≡ (if not (is_closed s.state.ready) then sent s.trace else outbox s ++ [])
  unfolding on_transport_event
  outbox-close s g =
      rw (on_close_lem transport_closed s g) (elim (Bool-cases (is_closed s.state.ready)) [
        | (inl a) ↦ rw (a) (sym (append-nil (outbox s)))
        | (inr a) ↦ rw (a) (outbox-closed_by transport_closed s)
      ])

  outbox-packet :
      (context : RequestContext) (packet : Packet) (s : Socket A)
      → s.guard ≡ free
      → outbox (after (on_transport_event (TransportEvent.packet context packet) s)) ≡ outbox s
  unfolding on_transport_event
  outbox-packet context packet s g =
      rw (on_packet_lem context packet s g) (elim (Bool-cases (is_open s.state.ready)) [
        | (inl a) ↦ rw (a) (refl)
        | (inr a) ↦ rw (a) (refl)
      ])

  outbox-closes :
      (discard : Bool) (s : Socket A)
      → s.guard ≡ free
      → outbox (after (close_socket discard s)) ≡ outbox s
  outbox-closes discard s g =
      rw (close_socket_lem discard s g) (elim (Bool-cases (is_open s.state.ready)) [
        | (inl a) ↦ rw (a) (refl)
        | (inr a) ↦ rw (a) (refl)
      ])

  -- For each call on a connection that holds no guard and is not being closed: what was sent, with
  -- what waits behind it, stays in order and is followed by the packet that the call takes for
  -- sending, if any; a call that closes the connection leaves what was sent and drops what waits.
  pub outbox-perform :
      (c : Call A) (s : Socket A)
      → s.guard ≡ free
      → is_closing s.state.ready ≡ false
      → outbox (perform c s)
        ≡ (if discards c s.state.ready then sent s.trace else outbox s ++ taken c s.state.ready)
  unfolding perform maybe_upgrade set_transport
  outbox-perform (opens f) s g r = rw (open_socket_lem f s g) (sym (append-nil (outbox s)))
  outbox-perform (closes discard) s g r = outbox-closes discard s g ∙ sym (append-nil (outbox s))
  outbox-perform (sends packet callback) s g r = outbox-send_packet packet callback s g
  outbox-perform (polls context body) s g r =
      outbox-polls context body s g ∙ sym (append-nil (outbox s))
  outbox-perform (upgrades context d) s g r = rw (g) (sym (append-nil (outbox s)))
  outbox-perform (hears (TransportEvent.error e)) s g r = outbox-error e s g
  outbox-perform (hears (TransportEvent.packet context packet)) s g r =
      outbox-packet context packet s g ∙ sym (append-nil (outbox s))
  outbox-perform (hears TransportEvent.drain) s g r =
      ap (λ x. outbox (after x)) (on_transport_drain_lem s g r)
      ∙ outbox-drained_once s
      ∙ sym (append-nil (outbox s))
  outbox-perform (hears TransportEvent.close) s g r = outbox-close s g
