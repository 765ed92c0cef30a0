-- ===== src/EngineServer/Socket/Ledger.antt =====
-- engine_io_server/src/socket.rs: callbacks run in the order in which they are registered.
use socket_io_server_rust.Prelude.{
  Bool, true, false, if◌then◌else◌, not, Bool-cases, inl, inr, Option, none, some, List, [], ◌∷◌,
  ◌++◌, map, ◌≡◌, refl, sym, ap, ◌∙◌, append-nil, append_assoc,
}
use socket_io_server_rust.EngineParser.Packet.{Packet}
use socket_io_server_rust.EngineServer.Util.{RequestContext}
use socket_io_server_rust.EngineServer.Transport.{Adapter, TransportEvent}
use socket_io_server_rust.EngineServer.Socket.State.{
  ReadyState, SocketEvent, SocketCloseReason, transport_closed, Callback, CallbackBatch, non_framed,
  framed, Guard, free, emits, commands, calls, Socket, Run, returns, panics, blocks, after, accepts,
  is_open, is_closed, is_closing,
}
use socket_io_server_rust.EngineServer.Socket.Sending.{batches, flush, set_transport, send_packet}
use socket_io_server_rust.EngineServer.Socket.Operations.{
  error_reason, maybe_upgrade, on_transport_event, handle_polling_request,
}
use socket_io_server_rust.EngineServer.Socket.Endings.{
  closed_by, on_close_lem, on_transport_error_lem, open_socket_lem, close_socket_lem, on_packet_lem,
  ran, handle_polling_request-after,
}
use socket_io_server_rust.EngineServer.Socket.Flush.{can_flush, flushed, framing}
use socket_io_server_rust.EngineServer.Socket.Outbox.{
  pushed, send_packet_accepted, send_packet_refused, flush_open_lem, drained_once,
  on_transport_drain_lem, discards,
}
use socket_io_server_rust.EngineServer.Socket.Calls.{
  Call, opens, closes, sends, polls, upgrades, hears, perform, called, batched, ledger,
  called-append, batched-append, called-calls, batched-framed,
}

batched-batches : (b : Bool) (callbacks : List Callback) → batched (batches b callbacks) ≡ callbacks
batched-batches true callbacks = batched-framed callbacks
batched-batches false callbacks = append-nil callbacks

-- The callback of a call, if it registers one.
abbrev pub callback_list : Option Callback → List Callback
callback_list none = []
callback_list (some callback) = callback ∷ []

module _ {A : Adapter} where
  -- The callback that a call registers.
  abbrev pub registers : Call A → ReadyState → List Callback
  registers (sends _ callback) ready = if accepts ready then callback_list callback else []
  registers _ _ = []

  ledger-flushed : (s : Socket A) → ledger (flushed s) ≡ ledger s
  ledger-flushed s =
      ap (λ t. t ++ (batched (flushed s).state.flushed_callbacks ++ []))
        (called-append
            ((s.trace ++ emits (SocketEvent.flush s.id) ∷ []) ++ commands s.state.write_buffer ∷ [])
            (emits (SocketEvent.drain s.id) ∷ [])
          ∙ append-nil _
          ∙ called-append (s.trace ++ emits (SocketEvent.flush s.id) ∷ [])
              (commands s.state.write_buffer ∷ [])
          ∙ append-nil _
          ∙ called-append s.trace (emits (SocketEvent.flush s.id) ∷ [])
          ∙ append-nil (called s.trace))
      ∙ ap (λ t. called s.trace ++ t)
          (append-nil (batched (flushed s).state.flushed_callbacks)
            ∙ batched-append s.state.flushed_callbacks
                (batches (framing s.state.transport) s.state.pending_callbacks)
            ∙ ap (λ t. batched s.state.flushed_callbacks ++ t)
                (batched-batches (framing s.state.transport) s.state.pending_callbacks))

  ledger-if :
      (b : Bool) (s t : Socket A) → ledger s ≡ ledger t → ledger (if b then s else t) ≡ ledger t
  ledger-if true s t e = e
  ledger-if false s t e = refl

  ledger-flush :
      (s : Socket A)
      → s.guard ≡ free
      → is_closing s.state.ready ≡ false
      → ledger (after (flush s)) ≡ ledger s
  ledger-flush s g r =
      rw (flush_open_lem s g r) (ledger-if (can_flush s.state) (flushed s) s (ledger-flushed s))

  ledger-ran :
      (bs : List CallbackBatch) (s : Socket A)
      → s.state.flushed_callbacks ≡ bs
      → ledger (ran bs s) ≡ ledger s
  ledger-ran [] s e = refl
  ledger-ran (framed callback ∷ rest) s e =
      ap (λ t. t ++ (batched rest ++ s.state.pending_callbacks))
        (called-append s.trace (calls callback ∷ []))
      ∙ append_assoc (called s.trace) (callback ∷ []) (batched rest ++ s.state.pending_callbacks)
      ∙ ap (λ b. called s.trace ++ (batched b ++ s.state.pending_callbacks)) (sym e)
  ledger-ran (non_framed callbacks ∷ rest) s e =
      ap (λ t. t ++ (batched rest ++ s.state.pending_callbacks))
        (called-append s.trace (map calls callbacks)
          ∙ ap (λ t. called s.trace ++ t) (called-calls callbacks))
      ∙ append_assoc (called s.trace) callbacks (batched rest ++ s.state.pending_callbacks)
      ∙ ap (λ t. called s.trace ++ t)
          (sym (append_assoc callbacks (batched rest) s.state.pending_callbacks))
      ∙ ap (λ b. called s.trace ++ (batched b ++ s.state.pending_callbacks)) (sym e)

  ledger-drained_once : (s : Socket A) → ledger (drained_once s) ≡ ledger s
  ledger-drained_once s = elim (Bool-cases (can_flush s.state)) [
    | (inl e) ↦
        rw (e) (ledger-ran (flushed s).state.flushed_callbacks (flushed s) refl ∙ ledger-flushed s)
    | (inr e) ↦ rw (e) (ledger-ran s.state.flushed_callbacks s refl)
  ]

  ledger-pushed :
      (packet : Packet) (callback : Option Callback) (s : Socket A)
      → ledger (pushed packet callback s) ≡ ledger s ++ callback_list callback
  ledger-pushed packet none s = sym (append-nil (ledger s))
  ledger-pushed packet (some c) s =
      ap (λ t. called s.trace ++ t)
        (sym (append_assoc (batched s.state.flushed_callbacks) s.state.pending_callbacks (c ∷ [])))
      ∙ sym (
          append_assoc (called s.trace)
            (batched s.state.flushed_callbacks ++ s.state.pending_callbacks) (c ∷ []))

  pushed-state :
      (packet : Packet) (callback : Option Callback) (s : Socket A)
      → ((pushed packet callback s).guard ≡ s.guard)
        × ((pushed packet callback s).state.ready ≡ s.state.ready)
  pushed-state packet none s = (refl, refl)
  pushed-state packet (some c) s = (refl, refl)

  ledger-send_packet :
      (packet : Packet) (callback : Option Callback) (s : Socket A)
      → s.guard ≡ free
      → is_closing s.state.ready ≡ false
      → ledger (after (send_packet packet callback s))
        ≡ ledger s ++ (if accepts s.state.ready then callback_list callback else [])
  ledger-send_packet packet callback s g r = elim (Bool-cases (accepts s.state.ready)) [
    | (inl a) ↦
        rw (send_packet_accepted packet callback s g a, a)
          (ledger-flush (pushed packet callback s) ((pushed-state packet callback s).0 ∙ g)
              (ap is_closing (pushed-state packet callback s).1 ∙ r)
            ∙ ledger-pushed packet callback s)
    | (inr a) ↦ rw (send_packet_refused packet callback s g a, a) (sym (append-nil (ledger s)))
  ]

  ledger-closed_by :
      (reason : SocketCloseReason) (s : Socket A)
      → ledger (closed_by reason s) ≡ called s.trace ++ batched s.state.flushed_callbacks
  ledger-closed_by reason s =
      ap (λ t. t ++ (batched s.state.flushed_callbacks ++ []))
        (called-append s.trace (emits (SocketEvent.close s.id reason) ∷ [])
          ∙ append-nil (called s.trace))
      ∙ ap (λ t. called s.trace ++ t) (append-nil (batched s.state.flushed_callbacks))

  -- The ledger of a connection that may have been closed.
  abbrev pub kept : Bool → Socket A → List Callback → List Callback
  kept dropped s more =
      if dropped then called s.trace ++ batched s.state.flushed_callbacks else ledger s ++ more

  ledger-maybe_closed :
      (b : Bool) (reason : SocketCloseReason) (s : Socket A)
      → ledger (if b then closed_by reason s else s) ≡ kept b s []
  ledger-maybe_closed true reason s = ledger-closed_by reason s
  ledger-maybe_closed false reason s = sym (append-nil (ledger s))

  ledger-maybe_open :
      (b : Bool) (reason : SocketCloseReason) (s : Socket A)
      → ledger (if b then s else closed_by reason s) ≡ kept (not b) s []
  ledger-maybe_open true reason s = sym (append-nil (ledger s))
  ledger-maybe_open false reason s = ledger-closed_by reason s

  ledger-either :
      (b : Bool) (x y : Run A Unit) (s : Socket A)
      → ledger (after x) ≡ ledger s
      → ledger (after y) ≡ ledger s
      → ledger (after (if b then x else y)) ≡ ledger s ++ []
  ledger-either true x y s h k = h ∙ sym (append-nil (ledger s))
  ledger-either false x y s h k = k ∙ sym (append-nil (ledger s))

  ledger-polls :
      (context : RequestContext) (body : Option A.Body) (s : Socket A)
      → s.guard ≡ free
      → is_closing s.state.ready ≡ false
      → ledger (after (handle_polling_request context body s)) ≡ ledger s
  ledger-polls context body s g r = elim (handle_polling_request-after context body s g) [
    | (inl e) ↦ ap ledger e
    | (inr e) ↦ ap ledger e ∙ ledger-flush s g r
  ]

  -- For each call on a connection that holds no guard and is not being closed: the callbacks that have
  -- run, then those of flushed packets, then the others, stay in order and are followed by the
  -- callback that the call registers, if any; a call that closes the connection drops the last.
  pub ledger-perform :
      (c : Call A) (s : Socket A)
      → s.guard ≡ free
      → is_closing s.state.ready ≡ false
      → ledger (perform c s) ≡ kept (discards c s.state.ready) s (registers c s.state.ready)
  unfolding perform maybe_upgrade set_transport on_transport_event
  ledger-perform (opens f) s g r =
      ap (λ x. ledger (after x)) (open_socket_lem f s g) ∙ sym (append-nil (ledger s))
  ledger-perform (closes discard) s g r =
      ap (λ x. ledger (after x)) (close_socket_lem discard s g)
      ∙ ledger-either (is_open s.state.ready) (blocks (record s { guard = Guard.write_held }))
          (returns (tt, s)) s refl refl
  ledger-perform (sends packet callback) s g r = ledger-send_packet packet callback s g r
  ledger-perform (polls context body) s g r =
      ledger-polls context body s g r ∙ sym (append-nil (ledger s))
  ledger-perform (upgrades context d) s g r = rw (g) (sym (append-nil (ledger s)))
  ledger-perform (hears (TransportEvent.error e)) s g r =
      ap (λ x. ledger (after x)) (on_transport_error_lem e s g)
      ∙ ledger-maybe_closed (accepts s.state.ready) (error_reason e) s
  ledger-perform (hears (TransportEvent.packet context packet)) s g r =
      ap (λ x. ledger (after x)) (on_packet_lem context packet s g)
      ∙ ledger-either (is_open s.state.ready) (panics s) (returns (tt, s)) s refl refl
  ledger-perform (hears TransportEvent.drain) s g r =
      ap (λ x. ledger (after x)) (on_transport_drain_lem s g r)
      ∙ ledger-drained_once s
      ∙ sym (append-nil (ledger s))
  ledger-perform (hears TransportEvent.close) s g r =
      ap (λ x. ledger (after x)) (on_close_lem transport_closed s g)
      ∙ ledger-maybe_open (is_closed s.state.ready) transport_closed s
