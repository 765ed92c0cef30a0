-- ===== src/EngineServer/Socket/Sending.antt =====
-- engine_io_server/src/socket.rs: the transport of a connection, and what is sent by it.
use Prim.Native.String.{String}
use socket_io_server_rust.Prelude.{
  Bool, true, false, ltb, if◌then◌else◌, ◌&&◌, not, Option, none, some, List, [], ◌∷◌, ◌++◌, map,
  length, Outcome, ok, err, panic,
}
use socket_io_server_rust.EngineParser.Packet.{PacketType, PacketData, Packet}
use socket_io_server_rust.EngineServer.Util.{TransportKind, ServerError, unknown, RequestContext}
use socket_io_server_rust.EngineServer.Transport.{
  Adapter, Transport, TransportCreateData, TransportError, TransportEvent, RequestReply, action,
  response, supports_framing, as_polling_or_fail, is_writable, create,
}
use socket_io_server_rust.EngineServer.Transport as Transports
use socket_io_server_rust.EngineServer.Socket.State.{
  initial, opening, SocketEvent, Callback, CallbackBatch, non_framed, framed, SocketState, free,
  commands, Socket, returns, panics, ◌>>=◌, Op, read, modify, lock_read, unlock, push_effect, emit,
  accepts, is_closed, is_closing,
}

abbrev pub batches : Bool → List Callback → List CallbackBatch
batches true callbacks = map framed callbacks
batches false callbacks = non_framed callbacks ∷ []

-- `buffer.take()`: the value, and what is left.
abbrev pub take_option {ℓ} : {X : Type ℓ} → Option X → Option X × Option X
take_option o = (o, none)

module _ {A : Adapter} where
  unfoldable pub new : String → RequestContext → TransportCreateData A.WsHandle → Socket A
  unfolding create
  new id context transport_create_data = record {
    id = id;
    remote_address = context.remote_address;
    state = record {
      upgrade = initial;
      ready = opening;
      transport = some (create A context transport_create_data);
      write_buffer = [];
      pending_callbacks = [];
      flushed_callbacks = [];
    };
    guard = free;
    trace = [];
  }

  unfoldable pub set_transport : RequestContext → TransportCreateData A.WsHandle → Op A Unit
  unfolding create
  set_transport context transport_create_data =
      modify (λ state. record state { transport = some (create A context transport_create_data) })

  -- `drop_transport`
  abbrev pub drop_transport : SocketState A → SocketState A
  drop_transport state = record state { transport = none }

  unfoldable pub close_transport : Op A Unit
  close_transport = modify drop_transport

  abbrev kind_of : Option (Transport A) → Option TransportKind
  kind_of none = none
  kind_of (some t) = some (Transports.get_transport_kind t)

  unfoldable pub get_transport_kind : Op A (Option TransportKind)
  unfolding Transports.get_transport_kind
  get_transport_kind = read (λ state. kind_of state.transport)

  abbrev pub transport_or_fail : Option (Transport A) → Outcome ServerError (Transport A)
  transport_or_fail (some transport) = ok transport
  transport_or_fail none = err unknown

  unfoldable pub get_transport_or_fail : Op A (Outcome ServerError (Transport A))
  get_transport_or_fail = read (λ state. transport_or_fail state.transport)

  -- `.map_or(false, test)`
  abbrev map_or_false : (Transport A → Bool) → Outcome ServerError (Transport A) → Bool
  map_or_false test (ok t) = test t
  map_or_false test (err _) = false
  map_or_false test panic = false

  -- `unimplemented!()`
  unfoldable pub get_available_upgrades : Op A (List String)
  get_available_upgrades s = panics s

  -- `unimplemented!()`
  unfoldable pub set_ping_timeout : Op A Unit
  set_ping_timeout s = panics s

  -- `mem::replace(&mut state.write_buffer, Vec::new())`
  abbrev pub take_write_buffer : Op A (List Packet)
  take_write_buffer s = do
    (packets, s) ← read (λ state. state.write_buffer) s
    (_, s) ← modify (λ state. record state { write_buffer = [] }) s
    returns (packets, s)

  abbrev pub take_pending_callbacks : Op A (List Callback)
  take_pending_callbacks s = do
    (callbacks, s) ← read (λ state. state.pending_callbacks) s
    (_, s) ← modify (λ state. record state { pending_callbacks = [] }) s
    returns (callbacks, s)

  -- `if let Closing { .. } = self.state.read().unwrap().ready { self.close_transport(); }`: the guard
  -- of the read lives to the end of the statement.
  unfoldable pub close_if_closing : Op A Unit
  unfolding close_transport
  close_if_closing s = do
    (_, s) ← lock_read s
    (ready, s) ← read (λ state. state.ready) s
    (_, s) ← (if is_closing ready then close_transport s else returns (tt, s))
    unlock s

  -- The commands that a taken buffer is sent as; `unwrap` of nothing is a panic.
  abbrev pub send_taken : Option (List Packet) → Op A Unit
  send_taken (some packets) = push_effect (commands packets)
  send_taken none = λ s. panics s

  -- The body of `flush`, where there is something to send and a transport to take it.
  unfoldable pub flush_buffer : Op A (Option (List Packet))
  unfolding get_transport_or_fail close_if_closing
  flush_buffer s = do
    (_, s) ← emit (SocketEvent.flush s.id) s
    (packets, s) ← take_write_buffer s
    let (taken, buffer) = take_option (some packets)
    (_, s) ← send_taken taken s
    (callbacks, s) ← take_pending_callbacks s
    (t, s) ← get_transport_or_fail s
    let flushed = batches (map_or_false supports_framing t) callbacks
    (_, s) ←
        modify (λ state. record state { flushed_callbacks = state.flushed_callbacks ++ flushed }) s
    (_, s) ← emit (SocketEvent.drain s.id) s
    (_, s) ← close_if_closing s
    returns (buffer, s)

  unfoldable pub flush : Op A (Option (List Packet))
  unfolding get_transport_or_fail flush_buffer
  flush s = do
    (ready, s) ← read (λ state. state.ready) s
    (write_buffer_length, s) ← read (λ state. length state.write_buffer) s
    (t, s) ← get_transport_or_fail s
    if not (is_closed ready) && (ltb 0 write_buffer_length && map_or_false is_writable t)
        then flush_buffer s
        else returns (none, s)

  abbrev pub push_callback : Option Callback → Op A Unit
  push_callback none s = returns (tt, s)
  push_callback (some callback) s =
      modify
        (λ state. record state { pending_callbacks = state.pending_callbacks ++ callback ∷ [] }) s

  unfoldable pub send_packet : Packet → Option Callback → Op A Unit
  unfolding flush
  send_packet packet callback s = do
    (ready, s) ← read (λ state. state.ready) s
    if accepts ready
        then (do
          (_, s) ←
              modify (λ state. record state { write_buffer = state.write_buffer ++ packet ∷ [] }) s
          (_, s) ← push_callback callback s
          (_, s) ← flush s
          returns (tt, s))
        else returns (tt, s)

  -- `send`, and `write`, which has the same body.
  unfoldable pub send : PacketData → Option Callback → Op A Unit
  unfolding send_packet
  send packet_data callback =
      send_packet (record { packet_type = PacketType.message; data' = packet_data }) callback
