-- ===== src/Tests/Listening.antt =====
-- engine_io_warp/src/adapter_warp.rs: listening, with filters that are lists of their segments.
use socket_io_server_rust.Prelude.{if◌then◌else◌, none, some, List, [], ◌∷◌, ◌++◌, ◌≡◌, refl, Str}
use socket_io_server_rust.SocketParser.Json.{chars}
use socket_io_server_rust.EngineWarp.Adapter.{standalone_adapter}
use socket_io_server_rust.EngineServer.Server.State.{default_options}
use socket_io_server_rust.EngineWarp.Listening.{
  Warp, Handler, StandaloneAdapter, contains, path_of, new_adapter, listen, listen_lem,
}
use socket_io_server_rust.EngineWarp.Listening as Listening
use socket_io_server_rust.Tests.EngineWarp.{nom, base64}

abbrev warp : Warp (standalone_adapter nom base64 Unit)
warp = record {
  Filter = List Str;
  path = λ p. if contains b'/' p then none else some (p ∷ []);
  path-slash = λ p h. rw h refl;
  full_path = [];
  and_then_path = λ filter f. filter;
  ws = [];
  get = [];
  post = [];
  content_length_limit = λ n. [];
  bytes = [];
  with_server = λ server. [];
  build_context = λ method. [];
  and = λ f g. f ++ g;
  or = λ f g. f ++ g;
  end_in = λ f handler. f;
}

listen_run :
    listen warp (new_adapter default_options Listening.default_options) (chars "/engine.io") ≡ none
unfolding listen
listen_run = refl

path_of_run : path_of (chars "/io&x") (chars "/io/1") ≡ some (chars "/io/1")
unfolding path_of
path_of_run = refl
