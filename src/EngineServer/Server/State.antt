-- ===== src/EngineServer/Server/State.antt =====
-- engine_io_server/src/server.rs: the state of the server, and how an operation reaches it.
use Prim.Native.String.{String}
use text.Mathlib.Text.{◌==◌ as str_eq}
use socket_io_server_rust.Prelude.{ℕ, Bool, true, if◌then◌else◌, Option, none, some, List, [], ◌∷◌}
use socket_io_server_rust.EngineParser.Packet.{PacketData, Packet}
use socket_io_server_rust.EngineServer.Util.{TransportKind, RequestContext, CookieOptions}
use socket_io_server_rust.EngineServer.Transport.{Adapter}
use socket_io_server_rust.EngineServer.Socket.State as Sockets
use socket_io_server_rust.EngineServer.Socket.State.{Socket, SocketCloseReason, Run, Op}

pub record ServerOptions : Type 0 where
  pub ping_timeout : ℕ
  pub ping_interval : ℕ
  pub upgrade_timeout : ℕ
  pub transports : List TransportKind
  pub allow_upgrades : Bool
  pub initial_packet : Option Packet
  pub cookie : Option CookieOptions
  pub buffer_factor : ℕ

abbrev pub default_cookie_options : CookieOptions
default_cookie_options = record { name = "io"; path = "/"; http_only = true }

abbrev pub default_options : ServerOptions
default_options = record {
  ping_timeout = 5000;
  ping_interval = 25000;
  upgrade_timeout = 10000;
  transports = TransportKind.web_socket ∷ TransportKind.polling ∷ [];
  allow_upgrades = true;
  initial_packet = none;
  cookie = some default_cookie_options;
  buffer_factor = 2;
}

-- `Unsubscribed` holds the receivers of the two channels.
pub data ServerState : Type 0 where
  unsubscribed subscribed : ServerState

pub data ServerEvent : Type 0 where
  connection : String → ServerEvent
  close : String → SocketCloseReason → ServerEvent
  flush drain : String → ServerEvent
  message : String → RequestContext → PacketData → ServerEvent
  error : String → ServerEvent

pub data HandshakeData (S : Type 0) : Type 0 where
  polling : HandshakeData S
  web_socket : S → HandshakeData S

pub data AlreadySubscribedError : Type 0 where
  already_subscribed_error : AlreadySubscribedError

pub data SendPacketError : Type 0 where
  unknown_connection_id : SendPacketError

pub record Server (A : Adapter) : Type 0 where
  pub state : ServerState
  pub clients : List (String × Socket A)
  pub options : ServerOptions

-- How an operation of the server ends, as one of a connection does.
pub data ServerRun (A : Adapter) (X : Type 0) : Type 0 where
  returns : X × Server A → ServerRun A X
  panics : Server A → ServerRun A X
  blocks : Server A → ServerRun A X

module _ {A : Adapter} {X Y : Type 0} where
  infixl 5 ◌>>=◌
  abbrev pub ◌>>=◌ : ServerRun A X → (X × Server A → ServerRun A Y) → ServerRun A Y
  returns r >>= f = f r
  panics s >>= f = panics s
  blocks s >>= f = blocks s

module _ {V : Type 0} where
  -- `DashMap::get`
  abbrev pub find : String → List (String × V) → Option V
  find k [] = none
  find k ((j, v) ∷ m) = if str_eq j k then some v else find k m

  -- `DashMap::remove`
  abbrev pub delete : String → List (String × V) → List (String × V)
  delete k [] = []
  delete k ((j, v) ∷ m) = if str_eq j k then delete k m else (j, v) ∷ delete k m

  -- `DashMap::insert`
  abbrev pub insert : String → V → List (String × V) → List (String × V)
  insert k v m = (k, v) ∷ delete k m

module _ {A : Adapter} where
  abbrev pub with_client : String → Socket A → Server A → Server A
  with_client id socket s = record s { clients = insert id socket s.clients }

  -- An operation of a connection that is reached through a shared pointer.
  abbrev pub on_client : {X : Type 0} → String → Run A X → Server A → ServerRun A X
  on_client id (Sockets.returns (x, socket)) s = returns (x, with_client id socket s)
  on_client id (Sockets.panics socket) s = panics (with_client id socket s)
  on_client id (Sockets.blocks socket) s = blocks (with_client id socket s)
