-- ===== src/EngineServer/Socket/State.antt =====
-- engine_io_server/src/socket.rs: the state of a connection, and how an operation reaches it. What an
-- operation does beside its result is kept in the socket: the lock of the state, as the running task
-- holds it, and the trace of what is sent to the server and to the transport, and of the callbacks
-- that are run. A send that the source does not await is a future that never runs, and no effect.
use Prim.Native.String.{String}
use socket_io_server_rust.Prelude.{ℕ, Bool, true, false, Option, List, [], ◌∷◌, ◌++◌}
use socket_io_server_rust.EngineParser.Packet.{PacketData, Packet}
use socket_io_server_rust.EngineServer.Util.{RequestContext}
use socket_io_server_rust.EngineServer.Transport.{Adapter, Transport}

pub data UpgradeState : Type 0 where
  initial upgrading upgraded : UpgradeState

pub data ReadyState : Type 0 where
  opening opened : ReadyState
  closing : (with_discard : Bool) → ReadyState
  closed : ReadyState

pub data SocketError : Type 0 where
  transport_error packet_parse_error : SocketError

pub data SocketCloseReason : Type 0 where
  error : SocketError → SocketCloseReason
  transport_closed terminated_by_server : SocketCloseReason

pub data SocketEvent : Type 0 where
  open' : String → SocketEvent
  close : String → SocketCloseReason → SocketEvent
  flush drain heartbeat : String → SocketEvent
  upgrade : String → RequestContext → SocketEvent
  message : String → RequestContext → PacketData → SocketEvent
  error : String → SocketEvent

-- A `Box<dyn Fn()>`, by its identity.
abbrev pub Callback : Type 0
Callback = ℕ

pub data CallbackBatch : Type 0 where
  non_framed : List Callback → CallbackBatch
  framed : Callback → CallbackBatch

pub record SocketState (A : Adapter) : Type 0 where
  pub upgrade : UpgradeState
  pub ready : ReadyState
  pub transport : Option (Transport A)
  pub write_buffer : List Packet
  pub pending_callbacks : List Callback
  pub flushed_callbacks : List CallbackBatch

-- The guard of the `RwLock` that the running task holds across other statements.
pub data Guard : Type 0 where
  free read_held write_held : Guard

-- `commands` is a `TransportCmd::Send` to the transport.
pub data Effect : Type 0 where
  emits : SocketEvent → Effect
  commands : List Packet → Effect
  calls : Callback → Effect

pub record Socket (A : Adapter) : Type 0 where
  pub id : String
  pub remote_address : String
  pub state : SocketState A
  pub guard : Guard
  pub trace : List Effect

-- How an operation ends: with a result, by a panic, or never, waiting for a lock that its own task
-- holds. Each time with what it did up to there.
pub data Run (A : Adapter) (X : Type 0) : Type 0 where
  returns : X × Socket A → Run A X
  panics : Socket A → Run A X
  blocks : Socket A → Run A X

module _ {A : Adapter} {X Y : Type 0} where
  infixl 5 ◌>>=◌
  abbrev pub ◌>>=◌ : Run A X → (X × Socket A → Run A Y) → Run A Y
  returns r >>= f = f r
  panics s >>= f = panics s
  blocks s >>= f = blocks s

module _ {A : Adapter} {X : Type 0} where
  -- The socket that an operation leaves behind, however it ends.
  abbrev pub after : Run A X → Socket A
  after (returns r) = r.1
  after (panics s) = s
  after (blocks s) = s

abbrev pub Op : Adapter → Type 0 → Type 0
Op A X = Socket A → Run A X

module _ {A : Adapter} {X : Type 0} where
  abbrev read_under : Guard → (SocketState A → X) → Op A X
  read_under write_held f s = blocks s
  read_under free f s = returns (f s.state, s)
  read_under read_held f s = returns (f s.state, s)

  -- `self.state.read().unwrap()` for one expression.
  abbrev pub read : (SocketState A → X) → Op A X
  read f s = read_under s.guard f s

module _ {A : Adapter} where
  abbrev modify_under : Guard → (SocketState A → SocketState A) → Op A Unit
  modify_under free f s = returns (tt, record s { state = f s.state })
  modify_under read_held f s = blocks s
  modify_under write_held f s = blocks s

  -- `self.state.write().unwrap()` for one statement.
  abbrev pub modify : (SocketState A → SocketState A) → Op A Unit
  modify f s = modify_under s.guard f s

  -- `self.state.read().unwrap()` for one expression whose guard lives on.
  abbrev lock_read_under : Guard → Op A Unit
  lock_read_under write_held s = blocks s
  lock_read_under free s = returns (tt, record s { guard = read_held })
  lock_read_under read_held s = returns (tt, s)

  abbrev pub lock_read : Op A Unit
  lock_read s = lock_read_under s.guard s

  abbrev lock_write_under : Guard → Op A Unit
  lock_write_under free s = returns (tt, record s { guard = write_held })
  lock_write_under read_held s = blocks s
  lock_write_under write_held s = blocks s

  abbrev pub lock_write : Op A Unit
  lock_write s = lock_write_under s.guard s

  -- The end of the guard's scope.
  abbrev pub unlock : Op A Unit
  unlock s = returns (tt, record s { guard = free })

  abbrev pub push_effect : Effect → Op A Unit
  push_effect e s = returns (tt, record s { trace = s.trace ++ e ∷ [] })

  -- `event_sender.send(event).await`
  abbrev pub emit : SocketEvent → Op A Unit
  emit e = push_effect (emits e)

-- `ready == ReadyState::Opening || ready == ReadyState::Open`
abbrev pub accepts : ReadyState → Bool
accepts opening = true
accepts opened = true
accepts (closing _) = false
accepts closed = false

-- `ready == ReadyState::Open`
abbrev pub is_open : ReadyState → Bool
is_open opened = true
is_open opening = false
is_open (closing _) = false
is_open closed = false

-- `ready == ReadyState::Closed`
abbrev pub is_closed : ReadyState → Bool
is_closed closed = true
is_closed opening = false
is_closed opened = false
is_closed (closing _) = false

abbrev pub is_closing : ReadyState → Bool
is_closing (closing _) = true
is_closing opening = false
is_closing opened = false
is_closing closed = false

abbrev pub is_upgrading : UpgradeState → Bool
is_upgrading upgrading = true
is_upgrading initial = false
is_upgrading upgraded = false
