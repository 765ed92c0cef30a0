-- ===== src/EngineServer/Socket/Polls.antt =====
-- engine_io_server/src/socket.rs: what a poll is answered.
use socket_io_server_rust.Prelude.{false, if◌then◌else◌, Option, some, ◌≡◌, ap, ◌∙◌, ok, err, arith}
use socket_io_server_rust.EngineServer.Util.{RequestContext, bad_request}
use socket_io_server_rust.EngineServer.Transport.{
  Adapter, Transport, TransportEvent, action, as_polling_or_fail,
}
use socket_io_server_rust.EngineServer.Socket.State.{Socket, returns, ◌>>=◌, free, is_closing}
use socket_io_server_rust.EngineServer.Socket.Sending.{get_transport_or_fail, flush}
use socket_io_server_rust.EngineServer.Socket.Operations.{handle_polling_request, answer, drained}
use socket_io_server_rust.EngineServer.Socket.Flush.{can_flush, flushed}
use socket_io_server_rust.EngineServer.Socket.Outbox.{flush_open_lem}

module _ {A : Adapter} where
  handle_polling_request-flush :
      (context : RequestContext) (body : Option A.Body) (p : A.Polling) (s : Socket A)
      → s.guard ≡ free
      → s.state.transport ≡ some (Transport.polling p)
      → A.handle_request p context body ≡ ok (action TransportEvent.drain)
      → handle_polling_request context body s
        ≡ (flush s >>= λ r. returns (drained A p context r.0, r.1))
  unfolding handle_polling_request get_transport_or_fail as_polling_or_fail answer
  handle_polling_request-flush context body p s g t h = ground arith

  -- A poll for which the transport asks for a drain is refused as a bad request, whether there are
  -- packets to send or not, where the connection is not being closed and no guard is held.
  pub handle_polling_request_drain :
      (context : RequestContext) (body : Option A.Body) (p : A.Polling) (s : Socket A)
      → s.guard ≡ free
      → is_closing s.state.ready ≡ false
      → s.state.transport ≡ some (Transport.polling p)
      → A.handle_request p context body ≡ ok (action TransportEvent.drain)
      → handle_polling_request context body s
        ≡ returns (err bad_request, if can_flush s.state then flushed s else s)
  handle_polling_request_drain context body p s g r t h =
      handle_polling_request-flush context body p s g t h
      ∙ ap (λ x. x >>= λ r. returns (drained A p context r.0, r.1)) (flush_open_lem s g r)
