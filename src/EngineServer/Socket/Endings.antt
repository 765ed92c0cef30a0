-- ===== src/EngineServer/Socket/Endings.antt =====
-- engine_io_server/src/socket.rs: how each operation ends, where the task holds no guard.
use Prim.Native.String.{String}
use socket_io_server_rust.Prelude.{
  Bool, if◌then◌else◌, ◌⊎◌, Option, none, List, [], ◌∷◌, ◌++◌, map, ◌≡◌, arith, Str,
}
use socket_io_server_rust.EngineParser.Packet.{Packet}
use socket_io_server_rust.EngineServer.Util.{RequestContext}
use socket_io_server_rust.EngineServer.Transport.{Adapter, TransportError}
use socket_io_server_rust.EngineServer.Socket.State.{
  opened, closed, SocketEvent, SocketCloseReason, CallbackBatch, non_framed, framed, free,
  write_held, emits, calls, Socket, returns, panics, blocks, after, accepts, is_open, is_closed,
}
use socket_io_server_rust.EngineServer.Socket.Sending.{flush}
use socket_io_server_rust.EngineServer.Socket.Operations.{
  open_socket, close_socket, on_drain, on_close, on_packet, on_transport_error, error_reason,
  handle_polling_request,
}

module _ {A : Adapter} where
  -- The connection behind `on_close`.
  abbrev pub closed_by : SocketCloseReason → Socket A → Socket A
  closed_by reason s = record s {
    state = record s.state {
      ready = closed;
      write_buffer = [];
      pending_callbacks = [];
      transport = none;
    };
    trace = s.trace ++ emits (SocketEvent.close s.id reason) ∷ [];
  }

  pub on_close_lem :
      (reason : SocketCloseReason) (s : Socket A)
      → s.guard ≡ free
      → on_close reason s ≡ returns (tt, if is_closed s.state.ready then s else closed_by reason s)
  unfolding on_close
  on_close_lem reason s g = ground arith

  pub on_transport_error_lem :
      (e : TransportError) (s : Socket A)
      → s.guard ≡ free
      → on_transport_error e s
        ≡ returns (tt, if accepts s.state.ready then closed_by (error_reason e) s else s)
  unfolding on_transport_error on_close
  on_transport_error_lem e s g = ground arith

  -- `open` stops at the first function that is not written yet.
  pub open_socket_lem :
      (f : String → List String → Str) (s : Socket A)
      → s.guard ≡ free
      → open_socket f s ≡ panics (record s { state = record s.state { ready = opened } })
  unfolding open_socket
  open_socket_lem f s g = ground arith

  pub close_socket_lem :
      (discard : Bool) (s : Socket A)
      → s.guard ≡ free
      → close_socket discard s ≡ (
          if is_open s.state.ready
          then blocks (record s { guard = write_held })
          else returns (tt, s))
  unfolding close_socket
  close_socket_lem discard s g = ground arith

  pub on_packet_lem :
      (context : RequestContext) (packet : Packet) (s : Socket A)
      → s.guard ≡ free
      → on_packet context packet s ≡ (if is_open s.state.ready then panics s else returns (tt, s))
  unfolding on_packet
  on_packet_lem context packet s g = ground arith

  -- The connection behind `on_drain`: the callbacks of the first batch have run.
  abbrev pub ran : List CallbackBatch → Socket A → Socket A
  ran [] s = s
  ran (framed callback ∷ rest) s = record s {
    state = record s.state { flushed_callbacks = rest };
    trace = s.trace ++ calls callback ∷ [];
  }
  ran (non_framed callbacks ∷ rest) s = record s {
    state = record s.state { flushed_callbacks = rest };
    trace = s.trace ++ map calls callbacks;
  }

  pub on_drain_lem :
      (s : Socket A) → s.guard ≡ free → on_drain s ≡ returns (tt, ran s.state.flushed_callbacks s)
  unfolding on_drain
  on_drain_lem s g = ground arith

  -- A poll leaves the connection as it is, or flushes it.
  pub handle_polling_request-after :
      (context : RequestContext) (body : Option A.Body) (s : Socket A)
      → s.guard ≡ free
      → (after (handle_polling_request context body s) ≡ s)
        ⊎ (after (handle_polling_request context body s) ≡ after (flush s))
  unfolding handle_polling_request
  handle_polling_request-after context body s g = ground arith
