-- ===== src/EngineServer/Socket/Calm.antt =====
-- engine_io_server/src/socket.rs: what the parts of an operation make of a calm connection.
use Prim.Native.String.{String}
use socket_io_server_rust.Prelude.{
  Bool, true, false, if◌then◌else◌, Bool-cases, inl, inr, ◌⊎◌, Option, none, some, List, [], ◌∷◌,
  ◌≡◌, refl, arith,
}
use socket_io_server_rust.EngineParser.Packet.{Packet}
use socket_io_server_rust.EngineServer.Util.{RequestContext}
use socket_io_server_rust.EngineServer.Transport.{Adapter, TransportCreateData}
use socket_io_server_rust.EngineServer.Socket.State.{
  ReadyState, SocketCloseReason, Callback, CallbackBatch, non_framed, framed, Guard, free,
  read_held, write_held, Socket, Run, after, accepts, is_closed, is_closing,
}
use socket_io_server_rust.EngineServer.Socket.Sending.{new, flush, send_packet, set_transport}
use socket_io_server_rust.EngineServer.Socket.Operations.{handle_polling_request, maybe_upgrade}
use socket_io_server_rust.EngineServer.Socket.Flush.{can_flush, flushed}
use socket_io_server_rust.EngineServer.Socket.Endings.{closed_by, ran, handle_polling_request-after}
use socket_io_server_rust.EngineServer.Socket.Outbox.{
  pushed, send_packet_accepted, send_packet_refused, flush_open_lem, drained_once,
}

abbrev pub is_read_held : Guard → Bool
is_read_held read_held = true
is_read_held free = false
is_read_held write_held = false

-- No call is half done under a read guard, no connection waits to be closed, and a closed one keeps
-- nothing to send and no callback to register.
pub record IsCalm {A : Adapter} (s : Socket A) : Type 0 where
  pub no_reader : is_read_held s.guard ≡ false
  pub not_closing : is_closing s.state.ready ≡ false
  pub closed_empty :
      is_closed s.state.ready ≡ true
      → (s.state.write_buffer ≡ []) × (s.state.pending_callbacks ≡ [])

pub guard-cases : (g : Guard) → is_read_held g ≡ false → (g ≡ free) ⊎ (g ≡ write_held)
guard-cases free h = inl refl
guard-cases write_held h = inr refl
guard-cases read_held h = ground arith

pub accepts-closed : {X : Type 0} (r : ReadyState) → accepts r ≡ true → is_closed r ≡ true → X
accepts-closed r a c = ground arith

module _ {A : Adapter} where
  pub new-IsCalm :
      (id : String) (context : RequestContext) (d : TransportCreateData A.WsHandle)
      → IsCalm (new {A = A} id context d)
  unfolding new
  new-IsCalm id context d = record {
    no_reader = refl;
    not_closing = refl;
    closed_empty = λ e. (refl, refl);
  }

  pub flush-IsCalm : (s : Socket A) → s.guard ≡ free → IsCalm s → IsCalm (after (flush s))
  flush-IsCalm s g h =
      rw (flush_open_lem s g h.not_closing) (elim (Bool-cases (can_flush s.state)) [
        | (inl e) ↦ rw (e) (record {
          no_reader = h.no_reader;
          not_closing = h.not_closing;
          closed_empty = λ c. (refl, refl);
        })
        | (inr e) ↦ rw (e) (h)
      ])

  ran-IsCalm : (bs : List CallbackBatch) (s : Socket A) → IsCalm s → IsCalm (ran bs s)
  ran-IsCalm [] s h = h
  ran-IsCalm (framed callback ∷ rest) s h = record {
    no_reader = h.no_reader;
    not_closing = h.not_closing;
    closed_empty = h.closed_empty;
  }
  ran-IsCalm (non_framed callbacks ∷ rest) s h = record {
    no_reader = h.no_reader;
    not_closing = h.not_closing;
    closed_empty = h.closed_empty;
  }

  flushed-IsCalm : (s : Socket A) → IsCalm s → IsCalm (flushed s)
  flushed-IsCalm s h = record {
    no_reader = h.no_reader;
    not_closing = h.not_closing;
    closed_empty = λ c. (refl, refl);
  }

  pub drained_once-IsCalm : (s : Socket A) → IsCalm s → IsCalm (drained_once s)
  drained_once-IsCalm s h = elim (Bool-cases (can_flush s.state)) [
    | (inl e) ↦
        rw (e) (ran-IsCalm (flushed s).state.flushed_callbacks (flushed s) (flushed-IsCalm s h))
    | (inr e) ↦ rw (e) (ran-IsCalm s.state.flushed_callbacks s h)
  ]

  pub closed_by-IsCalm :
      (reason : SocketCloseReason) (s : Socket A) → IsCalm s → IsCalm (closed_by reason s)
  closed_by-IsCalm reason s h = record {
    no_reader = h.no_reader;
    not_closing = refl;
    closed_empty = λ c. (refl, refl);
  }

  pushed-free :
      (packet : Packet) (callback : Option Callback) (s : Socket A)
      → s.guard ≡ free
      → (pushed packet callback s).guard ≡ free
  pushed-free packet none s g = g
  pushed-free packet (some cb) s g = g

  pushed-IsCalm :
      (packet : Packet) (callback : Option Callback) (s : Socket A)
      → accepts s.state.ready ≡ true
      → IsCalm s
      → IsCalm (pushed packet callback s)
  pushed-IsCalm packet none s a h = record {
    no_reader = h.no_reader;
    not_closing = h.not_closing;
    closed_empty = λ c. accepts-closed s.state.ready a c;
  }
  pushed-IsCalm packet (some cb) s a h = record {
    no_reader = h.no_reader;
    not_closing = h.not_closing;
    closed_empty = λ c. accepts-closed s.state.ready a c;
  }

  pub if-IsCalm : (b : Bool) (s t : Socket A) → IsCalm s → IsCalm t → IsCalm (if b then s else t)
  if-IsCalm true s t h k = h
  if-IsCalm false s t h k = k

  pub after-IsCalm : {X : Type 0} (x y : Run A X) → x ≡ y → IsCalm (after y) → IsCalm (after x)
  after-IsCalm x y e h = rw (e) (h)

  pub either-IsCalm :
      (b : Bool) (x y : Run A Unit)
      → IsCalm (after x)
      → IsCalm (after y)
      → IsCalm (after (if b then x else y))
  either-IsCalm true x y h k = h
  either-IsCalm false x y h k = k

  pub sends-IsCalm :
      (packet : Packet) (callback : Option Callback) (s : Socket A)
      → s.guard ≡ free
      → IsCalm s
      → IsCalm (after (send_packet packet callback s))
  sends-IsCalm packet callback s g h = elim (Bool-cases (accepts s.state.ready)) [
    | (inl a) ↦ rw (send_packet_accepted packet callback s g a) (
        flush-IsCalm (pushed packet callback s) (pushed-free packet callback s g)
          (pushed-IsCalm packet callback s a h))
    | (inr a) ↦ rw (send_packet_refused packet callback s g a) (h)
  ]

  pub polls-IsCalm :
      (context : RequestContext) (body : Option A.Body) (s : Socket A)
      → s.guard ≡ free
      → IsCalm s
      → IsCalm (after (handle_polling_request context body s))
  polls-IsCalm context body s g h = elim (handle_polling_request-after context body s g) [
    | (inl e) ↦ rw (e) (h)
    | (inr e) ↦ rw (e) (flush-IsCalm s g h)
  ]

  pub upgrades-IsCalm :
      (context : RequestContext) (d : TransportCreateData A.WsHandle) (s : Socket A)
      → s.guard ≡ free
      → IsCalm s
      → IsCalm (after (maybe_upgrade context d s))
  unfolding maybe_upgrade set_transport
  upgrades-IsCalm context d s g h =
      rw (g)
        (record { no_reader = refl; not_closing = h.not_closing; closed_empty = h.closed_empty })
