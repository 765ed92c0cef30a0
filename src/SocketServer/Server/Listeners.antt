-- ===== src/SocketServer/Server/Listeners.antt =====
-- socket_io_server/src/server.rs and engine_io_server/src/server.rs: how often the servers subscribe.
use socket_io_server_rust.Prelude.{
  ℕ, suc, ◌+◌, ltb, if◌then◌else◌, none, some, List, [], ◌∷◌, ◌≡◌, refl, length, arith,
}
use socket_io_server_rust.EngineServer.Transport.{Adapter}
use socket_io_server_rust.EngineServer.Server.State as Engine
use socket_io_server_rust.SocketParser.Json.{Json}
use socket_io_server_rust.SocketServer.Storage.{Storage}
use socket_io_server_rust.SocketServer.Server.State.{Shared}
use socket_io_server_rust.EngineServer.Server.Operations as EngineOps
use socket_io_server_rust.SocketServer.Server.Descriptors.{ServerOptions}
use socket_io_server_rust.SocketServer.Server.Subscription.{
  Receiver, Server, Action, subscribes, changes, new, subscribe, performs,
}

abbrev pub subscriptions : {S : Type 0} → List (Action S) → ℕ
subscriptions [] = 0
subscriptions (subscribes ∷ actions) = suc (subscriptions actions)
subscriptions (changes f ∷ actions) = subscriptions actions

module _ {A : Adapter} {json : Json} {storage : Storage json.Number} where
  -- No action panics, each subscription is answered a receiver, and in the end there are so many listeners.
  abbrev Answers : List (Action (Shared json storage)) → Server A json storage → ℕ → Type 0
  Answers actions s listeners =
      (receivers : List Receiver) × (s' : Server A json storage) × (performs actions s
        ≡ some (receivers, s'))
      × (length receivers ≡ subscriptions actions)
      × (s'.listeners ≡ listeners)

  subscribe-started :
      (s : Server A json storage)
      → s.event_receiver_temp ≡ none
      → subscribe s ≡ some (length s.shared.events, s)
  unfolding subscribe
  subscribe-started s e = ground arith

  performs-started :
      (actions : List (Action (Shared json storage))) (s : Server A json storage)
      → s.event_receiver_temp ≡ none
      → Answers actions s s.listeners
  unfolding performs
  performs-started [] s e = ([], s, refl, refl, refl)
  performs-started (changes f ∷ actions) s e =
      performs-started actions (record s { shared = f s.shared }) e
  performs-started (subscribes ∷ actions) s e =
      let (rs, s', run, l, n) = performs-started actions s e in
      (
        length s.shared.events ∷ rs,
        s',
        rw (subscribe-started s e, performs) (rw run refl),
        omega (arith, l),
        n,
      )

  performs-waiting :
      (actions : List (Action (Shared json storage))) (s : Server A json storage) (r : Receiver)
      → s.event_receiver_temp ≡ some r
      → s.adapter.state ≡ Engine.unsubscribed
      → Answers actions s (if ltb 0 (subscriptions actions) then s.listeners + 1 else s.listeners)
  unfolding performs subscribe EngineOps.subscribe
  performs-waiting [] s r e u = ([], s, refl, refl, refl)
  performs-waiting (changes f ∷ actions) s r e u =
      performs-waiting actions (record s { shared = f s.shared }) r e u
  performs-waiting (subscribes ∷ actions) s r e u =
      let s1 : Server A json storage = record s {
        adapter = record s.adapter { state = Engine.subscribed };
        event_receiver_temp = none;
        listeners = s.listeners + 1;
      } in
      let (rs, s', run, l, n) = performs-started actions s1 refl in
      (
        r ∷ rs,
        s',
        rw (e, subscribe) (rw (u, EngineOps.try_subscribe) (rw run refl)),
        omega (arith, l),
        ground (arith, n),
      )

  -- Whatever happens to a new server, no subscription panics, though the server of engine.io allows one
  -- only: each is answered a receiver, and the task that listens to the engine is started once, with the
  -- first subscription, and never without one.
  pub performs-new :
      (actions : List (Action (Shared json storage))) (engine_options : Engine.ServerOptions)
      (options : ServerOptions)
      → (receivers : List Receiver) × (s : Server A json storage) × (performs actions
            (new engine_options options)
          ≡ some (receivers, s))
        × (length receivers ≡ subscriptions actions)
        × (s.listeners ≡ (if ltb 0 (subscriptions actions) then 1 else 0))
  unfolding new
  performs-new actions engine_options options =
      performs-waiting actions (new engine_options options) 0 refl refl
