-- ===== src/Tests/Subscription.antt =====
-- socket_io_server/src/server.rs: subscriptions at concrete inputs.
use socket_io_server_rust.Prelude.{some, List, [], ◌∷◌, ◌≡◌, refl, length}
use mathlib.Core.Option.{map}
use socket_io_server_rust.EngineServer.Server.State as Engine
use socket_io_server_rust.SocketServer.Server.State.{Shared, ServerEvent}
use socket_io_server_rust.SocketServer.Server.Descriptors.{default_options}
use socket_io_server_rust.SocketServer.Server.Subscription.{
  Receiver, Server, Action, subscribes, changes, new, performs,
}
use socket_io_server_rust.SocketServer.Server.Listeners.{performs-new}
use socket_io_server_rust.Tests.EngineServer.{adapter}
use socket_io_server_rust.Tests.SocketServer.{json, storage}

abbrev fails : Shared json storage → Shared json storage
fails s = record s { events = ServerEvent.error [] ∷ s.events }

abbrev actions : List (Action (Shared json storage))
actions = subscribes ∷ changes fails ∷ subscribes ∷ []

performs-new_example :
    (receivers : List Receiver) × (s : Server adapter json storage) × (performs actions
        (new Engine.default_options default_options)
      ≡ some (receivers, s))
    × (length receivers ≡ 2)
    × (s.listeners ≡ 1)
performs-new_example = performs-new actions Engine.default_options default_options

-- The second receiver begins behind the event that was sent before it.
receivers_run :
    map (λ r. r.0) (performs actions (new {A = adapter} Engine.default_options default_options))
    ≡ some (0 ∷ 1 ∷ [])
unfolding performs new
receivers_run = refl
