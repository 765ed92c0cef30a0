-- ===== src/SocketServer/Server/Events.antt =====
-- socket_io_server/src/server.rs: the events of the engine. Each event has a task of its own; here
-- one task ends before the next begins.
use socket_io_server_rust.Prelude.{ℕ, [], ◌∷◌, ◌++◌, Str}
use socket_io_server_rust.Nom.{Combinators}
use socket_io_server_rust.EngineServer.Server.State as Engine
use socket_io_server_rust.SocketParser.Json.{Json, chars}
use socket_io_server_rust.SocketServer.Storage.{Storage}
use socket_io_server_rust.SocketServer.Server.State.{Shared, Run, returns}
use socket_io_server_rust.SocketServer.Server.Operations.{
  setup_connect_timer, handle_engine_socket_close,
}
use socket_io_server_rust.SocketServer.Server.Messages.{handle_new_message}

module _ {json : Json} {storage : Storage json.Number} where
  -- The task of one event, in `subscribe_to_engine_events`.
  unfoldable pub on_engine_event :
      {O : Type 0}
      → Combinators O
      → (new_id : Str) → (time : ℕ) → Engine.ServerEvent
      → Shared json storage
      → Run json storage Unit
  unfolding setup_connect_timer handle_engine_socket_close handle_new_message
  on_engine_event nom new_id time (Engine.ServerEvent.connection connection_id) s =
      setup_connect_timer (chars connection_id) s
  on_engine_event nom new_id time (Engine.ServerEvent.close connection_id reason) s =
      returns (tt, handle_engine_socket_close (chars connection_id) s)
  on_engine_event nom new_id time (Engine.ServerEvent.message connection_id context data') s =
      handle_new_message nom new_id time context (chars connection_id) data' s
  on_engine_event nom new_id time (Engine.ServerEvent.error connection_id) s =
      returns (tt, record s { closed_sockets = s.closed_sockets ++ chars connection_id ∷ [] })
  on_engine_event nom new_id time _ s = returns (tt, s)
