-- ===== src/SocketServer/Socket.antt =====
-- socket_io_server/src/socket.rs: the socket of a client in a namespace. The time and the identifier,
-- which are not the crate's, are arguments.
use Prim.Native.String.{String}
use socket_io_server_rust.Prelude.{ℕ, Bool, true, false, Option, none, some, Str}
use socket_io_server_rust.EngineServer.Util.{StringMap, RequestContext}
use socket_io_server_rust.SocketParser.Packet.{PacketDataValue}

-- `issued` is the time as a number, from which `time` is.
pub record Handshake (N : Type 0) : Type 0 where
  pub headers : StringMap
  pub address : String
  pub xdomain : Bool
  pub secure : Bool
  pub issued : ℕ
  pub url : String
  pub query : StringMap
  pub auth : PacketDataValue N

abbrev is_some : Option String → Bool
is_some (some _) = true
is_some none = false

-- `Handshake::new`
unfoldable pub new_handshake : {N : Type 0} → ℕ → RequestContext → PacketDataValue N → Handshake N
new_handshake time context auth = record {
  headers = context.headers;
  xdomain = is_some context.origin;
  address = context.remote_address;
  secure = context.secure;
  issued = time;
  url = context.request_url;
  query = context.query;
  auth = auth;
}

pub record Socket (N : Type 0) : Type 0 where
  pub id : Str
  pub namespace' : Str
  pub handshake : Handshake N

-- `Socket::new`
unfoldable pub new : {N : Type 0} → Str → Handshake N → Str → Socket N
new id handshake name = record { id = id; handshake = handshake; namespace' = name }
