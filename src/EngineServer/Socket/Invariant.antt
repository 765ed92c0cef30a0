-- ===== src/EngineServer/Socket/Invariant.antt =====
-- engine_io_server/src/socket.rs: the states that a connection reaches.
use Prim.Native.String.{String}
use socket_io_server_rust.Prelude.{inl, inr, List, [], ◌∷◌, ◌≡◌, refl, arith}
use socket_io_server_rust.EngineServer.Util.{RequestContext}
use socket_io_server_rust.EngineServer.Transport.{Adapter, TransportEvent, TransportCreateData}
use socket_io_server_rust.EngineServer.Socket.State.{
  opened, transport_closed, free, write_held, Socket, returns, panics, blocks, accepts, is_open,
  is_closed,
}
use socket_io_server_rust.EngineServer.Socket.Sending.{new, flush, send_packet, set_transport}
use socket_io_server_rust.EngineServer.Socket.Operations.{
  open_socket, close_socket, on_flush, on_drain, on_close, on_packet, on_transport_error,
  error_reason, handle_polling_request, maybe_upgrade, on_transport_event,
}
use socket_io_server_rust.EngineServer.Socket.Endings.{
  closed_by, on_close_lem, on_transport_error_lem, open_socket_lem, close_socket_lem, on_packet_lem,
}
use socket_io_server_rust.EngineServer.Socket.Outbox.{on_transport_drain_lem}
use socket_io_server_rust.EngineServer.Socket.Calls.{
  Call, opens, closes, sends, polls, upgrades, hears, perform,
}
pub use socket_io_server_rust.EngineServer.Socket.Calm.{is_read_held, IsCalm, guard-cases}
use socket_io_server_rust.EngineServer.Socket.Calm.{
  new-IsCalm, closed_by-IsCalm, drained_once-IsCalm, if-IsCalm, after-IsCalm, either-IsCalm,
  sends-IsCalm, polls-IsCalm, upgrades-IsCalm, accepts-closed,
}

-- The calls in order, each on what the one before left behind.
abbrev pub performs : {A : Adapter} → List (Call A) → Socket A → Socket A
performs [] s = s
performs (c ∷ cs) s = performs cs (perform c s)

module _ {A : Adapter} where
  -- Where a task that never ends holds the lock for writing, every call waits for ever.
  pub perform-held : (c : Call A) (s : Socket A) → s.guard ≡ write_held → perform c s ≡ s
  unfolding perform open_socket close_socket send_packet handle_polling_request maybe_upgrade
      set_transport on_transport_event on_transport_error on_flush on_close on_packet on_drain flush
  perform-held (opens f) s g = ground arith
  perform-held (closes discard) s g = ground arith
  perform-held (sends packet callback) s g = ground arith
  perform-held (polls context body) s g = ground arith
  perform-held (upgrades context d) s g = ground arith
  perform-held (hears (TransportEvent.error e)) s g = ground arith
  perform-held (hears (TransportEvent.packet context packet)) s g = ground arith
  perform-held (hears TransportEvent.drain) s g = ground arith
  perform-held (hears TransportEvent.close) s g = ground arith

  perform-IsCalm_free :
      (c : Call A) (s : Socket A) → s.guard ≡ free → IsCalm s → IsCalm (perform c s)
  unfolding perform on_transport_event
  perform-IsCalm_free (opens f) s g h = after-IsCalm _ _ (open_socket_lem f s g) (record {
    no_reader = h.no_reader;
    not_closing = refl;
    closed_empty = accepts-closed opened refl;
  })
  perform-IsCalm_free (closes discard) s g h = after-IsCalm _ _ (close_socket_lem discard s g) (
      either-IsCalm (is_open s.state.ready) (blocks (record s { guard = write_held }))
        (returns (tt, s))
        (record { no_reader = refl; not_closing = h.not_closing; closed_empty = h.closed_empty }) h)
  perform-IsCalm_free (sends packet callback) s g h = sends-IsCalm packet callback s g h
  perform-IsCalm_free (polls context body) s g h = polls-IsCalm context body s g h
  perform-IsCalm_free (upgrades context d) s g h = upgrades-IsCalm context d s g h
  perform-IsCalm_free (hears (TransportEvent.error e)) s g h =
      after-IsCalm _ _ (on_transport_error_lem e s g) (
        if-IsCalm (accepts s.state.ready) (closed_by (error_reason e) s) s
          (closed_by-IsCalm (error_reason e) s h) h)
  perform-IsCalm_free (hears (TransportEvent.packet context packet)) s g h =
      after-IsCalm _ _ (on_packet_lem context packet s g)
        (either-IsCalm (is_open s.state.ready) (panics s) (returns (tt, s)) h h)
  perform-IsCalm_free (hears TransportEvent.drain) s g h =
      after-IsCalm _ _ (on_transport_drain_lem s g h.not_closing) (drained_once-IsCalm s h)
  perform-IsCalm_free (hears TransportEvent.close) s g h =
      after-IsCalm _ _ (on_close_lem transport_closed s g) (
        if-IsCalm (is_closed s.state.ready) s (closed_by transport_closed s) h
          (closed_by-IsCalm transport_closed s h))

  -- Every call, however it ends, leaves the connection calm.
  pub perform-IsCalm : (c : Call A) (s : Socket A) → IsCalm s → IsCalm (perform c s)
  perform-IsCalm c s h = elim (guard-cases s.guard h.no_reader) [
    | (inl g) ↦ perform-IsCalm_free c s g h
    | (inr g) ↦ rw (perform-held c s g) (h)
  ]

  -- A connection is calm after any calls since it was made: it never waits to be closed, and what is
  -- closed keeps neither packets nor callbacks.
  pub performs-new-IsCalm :
      (cs : List (Call A)) (id : String) (context : RequestContext)
      (d : TransportCreateData A.WsHandle)
      → IsCalm (performs cs (new {A = A} id context d))
  performs-new-IsCalm cs id context d = go cs (new id context d) (new-IsCalm id context d)
    where
      go : (cs : List (Call A)) (s : Socket A) → IsCalm s → IsCalm (performs cs s)
      go [] s h = h
      go (c ∷ cs) s h = go cs (perform c s) (perform-IsCalm c s h)
