-- ===== src/SocketServer/Server/State.antt =====
-- socket_io_server/src/server.rs: the state that the tasks of the server share. A namespace stands
-- once, under its name; what the server asks of its adapter, sends to its owner and answers to a
-- message is kept in order.
use socket_io_server_rust.Prelude.{Bool, List, Str}
use socket_io_server_rust.EngineParser.Packet as Engine
use socket_io_server_rust.SocketParser.Json.{Json}
use socket_io_server_rust.SocketParser.Packet.{PacketDataValue}
use socket_io_server_rust.SocketServer.Storage.{Storage}
use socket_io_server_rust.SocketServer.Namespace.{SimpleNamespace}
use socket_io_server_rust.SocketServer.Connection.{Connection}

pub data GetResult : Type 0 where
  new existing : GetResult

pub data ServerEvent : Type 0 where
  error : (message : Str) → ServerEvent

-- A test on a name and the auth data, and the names of the members.
pub record DynamicNamespace (N : Type 0) : Type 0 where
  pub match_fn : Str → PacketDataValue N → Bool
  pub members : List Str

pub record Shared (json : Json) (storage : Storage json.Number) : Type 0 where
  pub namespaces : List (Str × SimpleNamespace storage)
  pub connections : List (Str × Connection json)
  pub connection_lookup : List (Str × Str)
  pub dynamic_namespaces : List (DynamicNamespace json.Number)
  pub events : List ServerEvent
  pub closed_sockets : List Str
  pub responses : List (List Engine.Packet)

pub data Run (json : Json) (storage : Storage json.Number) (X : Type 0) : Type 0 where
  returns : X × Shared json storage → Run json storage X
  panics : Shared json storage → Run json storage X

module _ {json : Json} {storage : Storage json.Number} {X Y : Type 0} where
  infixl 5 ◌>>=◌
  abbrev pub ◌>>=◌ :
      Run json storage X → (X × Shared json storage → Run json storage Y) → Run json storage Y
  returns r >>= f = f r
  panics s >>= f = panics s
