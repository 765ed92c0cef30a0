-- ===== src/EngineServer/Socket/Branches.antt =====
-- engine_io_server/src/socket.rs: the branches of a packet that is sent, and of a drain.
use socket_io_server_rust.Prelude.{
  true, false, if◌then◌else◌, Bool-cases, inl, inr, Option, none, some, [], ◌∷◌, ◌++◌, ◌≡◌, refl,
  arith,
}
use socket_io_server_rust.EngineParser.Packet.{Packet}
use socket_io_server_rust.EngineServer.Transport.{Adapter, TransportEvent}
use socket_io_server_rust.EngineServer.Socket.State.{
  Callback, free, Socket, returns, after, accepts, is_closing,
}
use socket_io_server_rust.EngineServer.Socket.Sending.{flush, send_packet}
use socket_io_server_rust.EngineServer.Socket.Operations.{on_flush, on_transport_event}
use socket_io_server_rust.EngineServer.Socket.Endings.{ran, on_drain_lem}
use socket_io_server_rust.EngineServer.Socket.Flush.{can_flush, flushed, flush_lem}

module _ {A : Adapter} where
  -- The socket in which `send_packet` flushes.
  abbrev pub pushed : Packet → Option Callback → Socket A → Socket A
  pushed packet none s = record s {
    state = record s.state { write_buffer = s.state.write_buffer ++ packet ∷ [] };
  }
  pushed packet (some callback) s = record s {
    state = record s.state {
      write_buffer = s.state.write_buffer ++ packet ∷ [];
      pending_callbacks = s.state.pending_callbacks ++ callback ∷ [];
    };
  }

  pub send_packet_accepted :
      (packet : Packet) (callback : Option Callback) (s : Socket A)
      → s.guard ≡ free
      → accepts s.state.ready ≡ true
      → after (send_packet packet callback s) ≡ after (flush (pushed packet callback s))
  unfolding send_packet
  send_packet_accepted packet callback s g a = ground arith

  pub send_packet_refused :
      (packet : Packet) (callback : Option Callback) (s : Socket A)
      → s.guard ≡ free
      → accepts s.state.ready ≡ false
      → after (send_packet packet callback s) ≡ s
  unfolding send_packet
  send_packet_refused packet callback s g a = ground arith

  -- Where nothing is being closed, `flush` returns nothing, and holds no guard.
  pub flush_open_lem :
      (s : Socket A)
      → s.guard ≡ free
      → is_closing s.state.ready ≡ false
      → flush s ≡ returns (none, if can_flush s.state then flushed s else s)
  flush_open_lem s g r =
      rw (flush_lem s g, r)
        (elim (Bool-cases (can_flush s.state)) [
          | (inl e) ↦ rw (e) (refl)
          | (inr e) ↦ rw (e) (refl)
        ])

  -- A round for a drain of the transport: a flush, and the callbacks of the first batch.
  abbrev pub drained_once : Socket A → Socket A
  drained_once s =
      let s' : Socket A = if can_flush s.state then flushed s else s in
      ran s'.state.flushed_callbacks s'

  pub on_transport_drain_lem :
      (s : Socket A)
      → s.guard ≡ free
      → is_closing s.state.ready ≡ false
      → on_transport_event TransportEvent.drain s ≡ returns (tt, drained_once s)
  unfolding on_transport_event on_flush
  on_transport_drain_lem s g r = elim (Bool-cases (can_flush s.state)) [
    | (inl e) ↦ rw (flush_open_lem s g r, e, on_drain_lem (flushed s) g) (refl)
    | (inr e) ↦ rw (flush_open_lem s g r, e, on_drain_lem s g) (refl)
  ]
