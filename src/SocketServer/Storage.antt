-- ===== src/SocketServer/Storage.antt =====
-- socket_io_server/src/storage.rs and error.rs: the trait that holds the rooms, and the errors. A
-- namespace takes its storage as a parameter; the one in the crate is not written yet.
use socket_io_server_rust.Prelude.{Bool, false, List, Str, Outcome}
use socket_io_server_rust.SocketParser.Packet.{Packet}

pub record Flags : Type 0 where
  pub volatile : Bool
  pub compress : Bool
  pub local : Bool

-- `Flags::default`
abbrev pub default_flags : Flags
default_flags = record { volatile = false; compress = false; local = false }

pub data BroadcastError : Type 0 where
  broadcast_error : BroadcastError

pub data EmitError : Type 0 where
  empty_event_name broadcast_error : EmitError

-- `From<BroadcastError>`
unfoldable pub from_broadcast_error : BroadcastError → EmitError
from_broadcast_error _ = EmitError.broadcast_error

-- The trait `Storage`, whose methods change its interior, for implementations whose `new`, `add_all` and
-- `del` return. Each method of `DefaultStorage` is `todo!()`: it is none of them.
pub record Storage (N : Type 0) : Type 1 where
  pub State : Type 0
  pub new : State
  pub add_all : Str → List Str → State → State
  pub del : Str → Str → State → State
  pub broadcast : Packet N → List Str → Flags → State → Outcome BroadcastError Unit × State
