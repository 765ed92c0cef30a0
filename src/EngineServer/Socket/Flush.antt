-- ===== src/EngineServer/Socket/Flush.antt =====
-- engine_io_server/src/socket.rs: what `flush` does on every branch.
use socket_io_server_rust.Prelude.{
  Bool, false, ltb, if◌then◌else◌, ◌&&◌, not, Option, none, some, List, [], ◌∷◌, ◌++◌, length, ◌≡◌,
  arith,
}
use socket_io_server_rust.EngineParser.Packet.{Packet}
use socket_io_server_rust.EngineServer.Transport.{Adapter, Transport, is_writable, supports_framing}
use socket_io_server_rust.EngineServer.Socket.State.{
  SocketEvent, SocketState, free, read_held, emits, commands, Socket, Run, returns, blocks,
  is_closed, is_closing,
}
use socket_io_server_rust.EngineServer.Socket.Sending.{batches, flush}

module _ {A : Adapter} where
  abbrev pub writable : Option (Transport A) → Bool
  writable none = false
  writable (some t) = is_writable t

  abbrev pub framing : Option (Transport A) → Bool
  framing none = false
  framing (some t) = supports_framing t

  -- There is something to send, and a transport that takes it.
  abbrev pub can_flush : SocketState A → Bool
  can_flush st =
      not (is_closed st.ready) && (ltb 0 (length st.write_buffer) && writable st.transport)

  -- The socket behind a flush that sends.
  abbrev pub flushed : Socket A → Socket A
  flushed s = record s {
    state = record s.state {
      write_buffer = [];
      pending_callbacks = [];
      flushed_callbacks =
          s.state.flushed_callbacks
          ++ batches (framing s.state.transport) s.state.pending_callbacks;
    };
    trace =
        ((s.trace ++ emits (SocketEvent.flush s.id) ∷ []) ++ commands s.state.write_buffer ∷ [])
        ++ emits (SocketEvent.drain s.id) ∷ [];
  }

  -- The three ways in which `flush` ends.
  abbrev pub flush_result : Socket A → Run A (Option (List Packet))
  flush_result s =
      if can_flush s.state
      then (if is_closing s.state.ready
          then blocks (record (flushed s) { guard = read_held })
          else returns (none, flushed s))
      else returns (none, s)

  -- What `flush` does on every branch, where the task holds no guard.
  pub flush_lem : (s : Socket A) → s.guard ≡ free → flush s ≡ flush_result s
  unfolding flush
  flush_lem s g = ground arith
