-- ===== src/SocketServer/Server/Subscription.antt =====
-- socket_io_server/src/server.rs: the constructor of the server and the subscriptions to its events. The
-- adapter passes `subscribe` on to the server of engine.io, which stands for it.
use socket_io_server_rust.Prelude.{ℕ, ◌+◌, Option, none, some, List, [], ◌∷◌, length}
use socket_io_server_rust.EngineServer.Transport.{Adapter}
use socket_io_server_rust.EngineServer.Server.State as Engine
use socket_io_server_rust.EngineServer.Server.Operations as EngineOps
use socket_io_server_rust.SocketParser.Json.{Json}
use socket_io_server_rust.SocketServer.Storage.{Storage}
use socket_io_server_rust.SocketServer.Server.State.{Shared}
use socket_io_server_rust.SocketServer.Server.Descriptors.{ServerOptions}

-- A receiver of the channel of events: the number of events that were sent before it.
abbrev pub Receiver : Type 0
Receiver = ℕ

-- `listeners` counts the tasks that `subscribe_to_engine_events` started.
pub record Server (A : Adapter) (json : Json) (storage : Storage json.Number) : Type 0 where
  pub adapter : Engine.Server A
  pub shared : Shared json storage
  pub event_receiver_temp : Option Receiver
  pub listeners : ℕ
  pub socketio_options : ServerOptions

-- What happens to a server: a subscription, or a task that changes what it shares.
pub data Action (S : Type 0) : Type 0 where
  subscribes : Action S
  changes : (S → S) → Action S

module _ {A : Adapter} {json : Json} {storage : Storage json.Number} where
  unfoldable pub new : Engine.ServerOptions → ServerOptions → Server A json storage
  unfolding EngineOps.new
  new engine_options socketio_options = record {
    adapter = EngineOps.new engine_options;
    shared = record {
      namespaces = [];
      connections = [];
      connection_lookup = [];
      dynamic_namespaces = [];
      events = [];
      closed_sockets = [];
      responses = [];
    };
    event_receiver_temp = some 0;
    listeners = 0;
    socketio_options = socketio_options;
  }

  -- `none` is the panic of the adapter.
  abbrev started : Server A json storage → Engine.ServerRun A Unit → Option (Server A json storage)
  started s (Engine.returns (_, engine)) =
      some (record s { adapter = engine; listeners = s.listeners + 1 })
  started s _ = none

  -- The start of the task, which asks the adapter for the events first.
  unfoldable pub subscribe_to_engine_events : Server A json storage → Option (Server A json storage)
  unfolding EngineOps.subscribe
  subscribe_to_engine_events s = started s (EngineOps.subscribe s.adapter)

  abbrev with_receiver :
      Receiver → Option (Server A json storage) → Option (Receiver × Server A json storage)
  with_receiver r (some s) = some (r, s)
  with_receiver r none = none

  unfoldable pub subscribe : Server A json storage → Option (Receiver × Server A json storage)
  unfolding subscribe_to_engine_events
  subscribe s = elim s.event_receiver_temp [
    | some event_receiver ↦
        with_receiver event_receiver
          (subscribe_to_engine_events (record s { event_receiver_temp = none }))
    | none ↦ some (length s.shared.events, s)
  ]

  -- The receivers that were answered, and the server; `none` is a panic.
  unfoldable pub performs :
      List (Action (Shared json storage))
      → Server A json storage
      → Option (List Receiver × Server A json storage)
  unfolding subscribe
  performs [] s = some ([], s)
  performs (changes f ∷ actions) s = performs actions (record s { shared = f s.shared })
  performs (subscribes ∷ actions) s = elim (subscribe s) [
    | none ↦ none
    | some (r, s) ↦ elim (performs actions s) [ none ↦ none | some (rs, s) ↦ some (r ∷ rs, s) ]
  ]
