-- ===== src/EngineServer/Socket/Operations.antt =====
-- engine_io_server/src/socket.rs: the operations of a connection.
use Prim.Native.String.{String}
use socket_io_server_rust.Prelude.{
  Bool, true, false, if◌then◌else◌, not, Option, none, some, List, [], ◌∷◌, ◌++◌, map, Str, Outcome,
  ok, err, panic,
}
use socket_io_server_rust.EngineParser.Packet.{PacketType, PacketData, Packet}
use socket_io_server_rust.EngineServer.Util.{ServerError, bad_request, unknown, RequestContext}
use socket_io_server_rust.EngineServer.Transport.{
  Adapter, Transport, TransportCreateData, TransportError, TransportEvent, RequestReply, action,
  response, as_polling_or_fail,
}
use socket_io_server_rust.EngineServer.Socket.State.{
  UpgradeState, opened, closing, closed, SocketError, SocketCloseReason, transport_closed,
  SocketEvent, CallbackBatch, non_framed, framed, calls, returns, panics, ◌>>=◌, Op, read, modify,
  lock_write, unlock, push_effect, emit, accepts, is_open, is_closed, is_upgrading,
}
use socket_io_server_rust.EngineServer.Socket.Sending.{
  set_transport, drop_transport, close_transport, get_transport_or_fail, get_available_upgrades,
  set_ping_timeout, flush, send_packet,
}

-- Where the transport asks for a drain: what the flush returned is the response.
abbrev pub drained :
    (A : Adapter)
    → A.Polling
    → RequestContext
    → Option (List Packet)
    → Outcome ServerError A.Response
drained A transport request_context (some packets) =
    A.respond_with_packets transport request_context packets
drained A transport request_context none = err bad_request

abbrev pub error_reason : TransportError → SocketCloseReason
error_reason TransportError.packet_parse_error =
    SocketCloseReason.error SocketError.packet_parse_error
error_reason TransportError.other_error = SocketCloseReason.error SocketError.transport_error

abbrev is_empty : List Packet → Bool
is_empty [] = true
is_empty (_ ∷ _) = false

module _ {A : Adapter} where
  -- What `handle_polling_request` does with the answer of the transport.
  unfoldable pub answer :
      A.Polling
      → RequestContext
      → Outcome ServerError (RequestReply A.Response)
      → Op A (Outcome ServerError A.Response)
  unfolding flush
  answer transport request_context (ok (action TransportEvent.drain)) s = do
    (flushed, s) ← flush s
    returns (drained A transport request_context flushed, s)
  answer transport request_context (ok (action _)) s = returns (err unknown, s)
  answer transport request_context (ok (response r)) s = returns (ok r, s)
  answer transport request_context (err e) s = returns (err e, s)
  answer transport request_context panic s = panics s

  abbrev pub request_on :
      RequestContext
      → Option A.Body
      → Outcome ServerError A.Polling
      → Op A (Outcome ServerError A.Response)
  request_on request_context body (ok transport) s =
      answer transport request_context (A.handle_request transport request_context body) s
  request_on request_context body (err e) s = returns (err e, s)
  request_on request_context body panic s = panics s

  abbrev pub polling_or_fail : Outcome ServerError (Transport A) → Outcome ServerError A.Polling
  polling_or_fail (ok transport) = as_polling_or_fail transport
  polling_or_fail (err e) = err e
  polling_or_fail panic = panic

  unfoldable pub handle_polling_request :
      RequestContext → Option A.Body → Op A (Outcome ServerError A.Response)
  unfolding get_transport_or_fail as_polling_or_fail answer
  handle_polling_request request_context body s = do
    (transport, s) ← get_transport_or_fail s
    request_on request_context body (polling_or_fail transport) s

  unfoldable pub maybe_upgrade : RequestContext → TransportCreateData A.WsHandle → Op A Unit
  unfolding set_transport
  maybe_upgrade = set_transport

  -- The JSON text of the open packet, from the socket's id and the upgrades, is `serde_json`'s.
  unfoldable pub send_open_packet : (String → List String → Str) → Op A Unit
  unfolding get_available_upgrades send_packet
  send_open_packet open_packet_data s = do
    (upgrades, s) ← get_available_upgrades s
    let data' = PacketData.text (open_packet_data s.id upgrades)
    send_packet (record { packet_type = PacketType.open'; data' = data' }) none s

  unfoldable pub open_socket : (String → List String → Str) → Op A Unit
  unfolding send_open_packet set_ping_timeout
  open_socket open_packet_data s = do
    (_, s) ← modify (λ state. record state { ready = opened }) s
    (_, s) ← send_open_packet open_packet_data s
    (_, s) ← emit (SocketEvent.open' s.id) s
    set_ping_timeout s

  -- Two write guards: the first lives to the end of the function.
  unfoldable pub close_socket : Bool → Op A Unit
  close_socket discard s = do
    (_, s) ← lock_write s
    if is_open s.state.ready
        then (do
          (_, s) ← lock_write s
          let closing_state = record s.state { ready = closing discard }
          let emptied =
              if is_empty closing_state.write_buffer
              then drop_transport closing_state
              else closing_state
          unlock (record s { state = emptied }))
        else unlock s

  unfoldable pub on_close : SocketCloseReason → Op A Unit
  unfolding close_transport
  on_close reason s = do
    (ready, s) ← read (λ state. state.ready) s
    if not (is_closed ready)
        then (do
          (_, s) ←
              modify
                (λ state. record state {
                  ready = closed;
                  write_buffer = [];
                  pending_callbacks = [];
                })
                s
          (_, s) ← close_transport s
          emit (SocketEvent.close s.id reason) s)
        else returns (tt, s)

  -- The error event at the end is not awaited, so it is not sent.
  unfoldable pub on_transport_error : TransportError → Op A Unit
  unfolding on_close
  on_transport_error error s = do
    (ready, s) ← read (λ state. state.ready) s
    if accepts ready then on_close (error_reason error) s else returns (tt, s)

  unfoldable pub handle_packet : RequestContext → UpgradeState → PacketType → PacketData → Op A Unit
  unfolding send_packet close_transport set_ping_timeout flush
  handle_packet context upgrade_state PacketType.ping data' s = do
    (_, s) ← send_packet (record { packet_type = PacketType.pong; data' = PacketData.empty }) none s
    emit (SocketEvent.heartbeat s.id) s
  handle_packet context upgrade_state PacketType.upgrade data' s =
      if is_upgrading upgrade_state
      then (do
        (_, s) ← close_transport s
        (_, s) ← emit (SocketEvent.upgrade s.id context) s
        (_, s) ← set_ping_timeout s
        (_, s) ← flush s
        returns (tt, s))
      else returns (tt, s)
  handle_packet context upgrade_state PacketType.message data' s =
      emit (SocketEvent.message s.id context data') s
  handle_packet context upgrade_state _ data' s = panics s

  unfoldable pub on_packet : RequestContext → Packet → Op A Unit
  unfolding set_ping_timeout handle_packet
  on_packet context packet s = do
    (ready, s) ← read (λ state. state.ready) s
    (upgrade_state, s) ← read (λ state. state.upgrade) s
    if is_open ready
        then (do
          (_, s) ← set_ping_timeout s
          handle_packet context upgrade_state packet.packet_type packet.data' s)
        else returns (tt, s)

  unfoldable pub on_flush : Op A Unit
  unfolding flush
  on_flush s = do (_, s) ← flush s; returns (tt, s)

  -- Running the callbacks of one batch, in order.
  abbrev run_batch : CallbackBatch → Op A Unit
  run_batch (framed callback) s = push_effect (calls callback) s
  run_batch (non_framed callbacks) s =
      returns (tt, record s { trace = s.trace ++ map calls callbacks })

  abbrev run_first : List CallbackBatch → Op A Unit
  run_first [] s = returns (tt, s)
  run_first (batch ∷ rest) s = do
    (_, s) ← run_batch batch (record s { state = record s.state { flushed_callbacks = rest } })
    returns (tt, s)

  unfoldable pub on_drain : Op A Unit
  on_drain s = do (_, s) ← lock_write s; (_, s) ← run_first s.state.flushed_callbacks s; unlock s

  -- One round of the task that `subscribe_socket_to_transport_events` starts.
  unfoldable pub on_transport_event : TransportEvent → Op A Unit
  unfolding on_transport_error on_packet on_flush on_drain on_close
  on_transport_event (TransportEvent.error error) s = on_transport_error error s
  on_transport_event (TransportEvent.packet context packet) s = on_packet context packet s
  on_transport_event TransportEvent.drain s = do (_, s) ← on_flush s; on_drain s
  on_transport_event TransportEvent.close s = on_close transport_closed s
