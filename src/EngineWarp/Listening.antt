-- ===== src/EngineWarp/Listening.antt =====
-- engine_io_warp/src/adapter_warp.rs: the adapter and its options, and the routes that it listens on.
-- The filters of the `warp` crate are an interface.
use Prim.Native.Char.{code}
use Prim.Native.String.{String}
use socket_io_server_rust.Prelude.{
  ℕ, ◌*◌, ◌==◌, ◌&&◌, ◌||◌, Bool, true, false, if◌then◌else◌, Option, none, some, List, [], ◌∷◌,
  ◌≡◌, refl, Str,
}
use socket_io_server_rust.EngineServer.Util.{HttpMethod, get', TransportKind}
use socket_io_server_rust.EngineServer.Transport.{Adapter}
use socket_io_server_rust.EngineServer.Server.State as Servers
use socket_io_server_rust.EngineServer.Server.State.{ServerOptions, Server, ServerRun}
use socket_io_server_rust.EngineServer.Server.Operations as Server

abbrev chars : String → Str
chars String.[] = []
chars (String.◌∷◌ c s) = code c ∷ chars s

-- `WarpAdapterOptions`; the address is its text.
pub record WarpAdapterOptions : Type 0 where
  pub socket_addr : String
  pub buffer_factor : ℕ
  pub request_body_content_limit : ℕ

abbrev pub default_options : WarpAdapterOptions
default_options = record {
  socket_addr = "127.0.0.1:3000";
  buffer_factor = 32;
  request_body_content_limit = 1024 * 1024 * 16;
}

pub record StandaloneAdapter (A : Adapter) : Type 0 where
  pub server : Server A
  pub options : WarpAdapterOptions

-- How an operation of the adapter ends.
pub data Run (A : Adapter) (X : Type 0) : Type 0 where
  returns : X × StandaloneAdapter A → Run A X
  panics : StandaloneAdapter A → Run A X
  blocks : StandaloneAdapter A → Run A X

-- The handlers that the endpoints end in.
pub data Handler : Type 0 where
  on_ws_upgrade on_poll_request on_data_request : Handler

abbrev pub contains : ℕ → Str → Bool
contains c [] = false
contains c (d ∷ s) = c == d || contains c s

-- The filters of `warp`. A filter is opaque here. `path` panics (`none`) on a segment that contains a
-- slash, as its documentation has it. `and_then_path` is `and_then` with a closure on the full path, which
-- answers it, or `not_found` (`none`); `end_in` is `map` or `and_then` with a handler.
pub record Warp (A : Adapter) : Type 1 where
  pub Filter : Type 0
  pub path : Str → Option Filter
  pub path-slash : (p : Str) → contains b'/' p ≡ true → path p ≡ none
  pub full_path : Filter
  pub and_then_path : Filter → (Str → Option Str) → Filter
  pub ws : Filter
  pub get : Filter
  pub post : Filter
  pub content_length_limit : ℕ → Filter
  pub bytes : Filter
  pub with_server : Server A → Filter
  pub build_context : HttpMethod → Filter
  pub and : Filter → Filter → Filter
  pub or : Filter → Filter → Filter
  pub end_in : Filter → Handler → Filter

infixl 5 ◌>>=◌
abbrev ◌>>=◌ : {X Y : Type 0} → Option X → (X → Option Y) → Option Y
none >>= f = none
some x >>= f = f x

-- `scheme.split('&')`, the first part.
abbrev pub split_first : Str → Str
split_first [] = []
split_first (c ∷ s) = let rest = split_first s in if c == b'&' then [] else c ∷ rest

abbrev pub starts_with : Str → Str → Bool
starts_with s [] = true
starts_with [] (d ∷ prefix) = false
starts_with (c ∷ s) (d ∷ prefix) = c == d && starts_with s prefix

-- The closure of `path_from_str`.
unfoldable pub path_of : Str → Str → Option Str
path_of scheme full_path =
    if starts_with full_path (split_first scheme) then some full_path else none

abbrev is_web_socket : TransportKind → Bool
is_web_socket TransportKind.web_socket = true
is_web_socket TransportKind.polling = false

-- `.iter().any(|t| t == WebSocket)`
abbrev has_web_socket : List TransportKind → Bool
has_web_socket [] = false
has_web_socket (t ∷ ts) = is_web_socket t || has_web_socket ts

module _ {A : Adapter} where
  -- `StandaloneAdapter::new`
  unfoldable pub new_adapter : ServerOptions → WarpAdapterOptions → StandaloneAdapter A
  unfolding Server.new
  new_adapter server_options options = record {
    server = Server.new server_options;
    options = options;
  }

  -- What the adapter passes on to its server; `close` is `todo!()`.
  abbrev on_server : {X : Type 0} → StandaloneAdapter A → ServerRun A X → Run A X
  on_server adapter (Servers.returns (x, server)) = returns (x, record adapter { server = server })
  on_server adapter (Servers.panics server) = panics (record adapter { server = server })
  on_server adapter (Servers.blocks server) = blocks (record adapter { server = server })

  unfoldable pub subscribe : StandaloneAdapter A → Run A Unit
  unfolding Server.subscribe
  subscribe adapter = on_server adapter (Server.subscribe adapter.server)

  unfoldable pub close_socket : String → StandaloneAdapter A → Run A Unit
  unfolding Server.close_socket
  close_socket connection_id adapter =
      on_server adapter (Server.close_socket connection_id adapter.server)

  unfoldable pub close : StandaloneAdapter A → Run A Unit
  close adapter = panics adapter

  -- A filter that answers the full path, where it begins with the scheme.
  unfoldable pub path_from_str : (warp : Warp A) → Str → Option warp.Filter
  unfolding path_of
  path_from_str warp scheme = do
    slash ← warp.path (chars "/")
    some (warp.and_then_path (warp.and slash warp.full_path) (path_of scheme))

  -- `listen`, up to the routes that `warp::serve` runs.
  unfoldable pub listen : (warp : Warp A) → StandaloneAdapter A → Str → Option warp.Filter
  unfolding path_from_str
  listen warp adapter path = do
    path_filter ← path_from_str warp path
    let websocket =
        warp.end_in
          (warp.and (warp.and (warp.and path_filter warp.ws) (warp.with_server adapter.server))
            (warp.build_context get'))
          on_ws_upgrade
    path_filter ← path_from_str warp path
    let poll_endpoint =
        warp.end_in
          (warp.and (warp.and (warp.and path_filter warp.get) (warp.with_server adapter.server))
            (warp.build_context get'))
          on_poll_request
    path_filter ← path_from_str warp path
    let limit = warp.content_length_limit adapter.options.request_body_content_limit
    let data_endpoint =
        warp.end_in
          (warp.and
            (warp.and (warp.and (warp.and (warp.and path_filter warp.post) limit) warp.bytes)
              (warp.with_server adapter.server))
            (warp.build_context HttpMethod.post))
          on_data_request
    let web_routes = warp.or poll_endpoint data_endpoint
    some (
        if has_web_socket adapter.server.options.transports
        then warp.or websocket web_routes
        else web_routes)

  -- The adapter never listens: whatever its options and the path are, it panics when it makes the first
  -- route, since the segment that it asks `warp` for is a slash.
  pub listen_lem :
      (warp : Warp A) (adapter : StandaloneAdapter A) (path : Str) → listen warp adapter path ≡ none
  unfolding listen
  listen_lem warp adapter path = rw (warp.path-slash (chars "/") refl) refl
