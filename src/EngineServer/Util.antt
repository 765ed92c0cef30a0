-- ===== src/EngineServer/Util.antt =====
-- engine_io_server/src/util.rs: request contexts, server errors and cookies. A `HashMap` with string
-- keys is an association list.
use Prim.Native.String.{String}
use text.Mathlib.Text.{◌==◌ as str_eq}
use socket_io_server_rust.Prelude.{
  ℕ, Bool, true, false, Option, none, some, List, [], ◌∷◌, if◌then◌else◌,
}
use socket_io_server_rust.EngineParser.Packet.{ParsePacketError}

abbrev pub StringMap : Type 0
StringMap = List (String × String)

-- `HashMap::get`
unfoldable pub get : String → StringMap → Option String
get k [] = none
get k ((j, v) ∷ m) = if str_eq j k then some v else get k m

pub data TransportKind : Type 0 where
  web_socket polling : TransportKind

pub data HttpMethod : Type 0 where
  options get' post put delete head trace connect patch : HttpMethod

pub data ServerError : Type 0 where
  unknown_transport unknown_sid bad_handshake_method bad_request : ServerError
  forbidden unknown shutting_down : ServerError

pub record SetCookie : Type 0 where
  pub name : String
  pub value : String
  pub path : String
  pub http_only : Bool
  pub same_site : Bool

pub record CookieOptions : Type 0 where
  pub name : String
  pub path : String
  pub http_only : Bool

pub record RequestContext : Type 0 where
  pub query : StringMap
  pub headers : StringMap
  pub origin : Option String
  pub secure : Bool
  pub user_agent : String
  pub content_type : String
  pub transport_kind : TransportKind
  pub http_method : HttpMethod
  pub remote_address : String
  pub request_url : String
  pub set_cookie : Option SetCookie

unfoldable pub with_set_cookie : RequestContext → Option SetCookie → RequestContext
with_set_cookie context set_cookie = record context { set_cookie = set_cookie }

-- `SetCookie::from_cookie_options`
unfoldable pub from_cookie_options : Option CookieOptions → String → Option SetCookie
from_cookie_options (some o) value = some (record {
  name = o.name;
  value = value;
  path = o.path;
  http_only = o.http_only;
  same_site = true;
})
from_cookie_options none value = none

-- `From<ParsePacketError>`
unfoldable pub from_parse_packet_error : ParsePacketError → ServerError
from_parse_packet_error _ = bad_request

-- `ServerErrorMessage`, whose code is an `i8`: the sign, and the absolute value.
pub record ServerErrorMessage : Type 0 where
  pub is_negative : Bool
  pub code : ℕ
  pub message : String

-- `ServerError::to_string`, with the texts that `strum` is given.
unfoldable pub error_string : ServerError → String
error_string unknown_transport = "Transport unknown"
error_string unknown_sid = "Session ID unknown"
error_string bad_handshake_method = "Bad handshake method"
error_string bad_request = "Bad request"
error_string forbidden = "Forbidden"
error_string unknown = "Unknown"
error_string shutting_down = "Server is shutting down"

abbrev error_code : ServerError → Bool × ℕ
error_code unknown_transport = (false, 0)
error_code unknown_sid = (false, 1)
error_code bad_handshake_method = (false, 2)
error_code bad_request = (false, 3)
error_code forbidden = (false, 4)
error_code unknown = (true, 1)
error_code shutting_down = (true, 99)

-- `From<ServerError>`
unfoldable pub error_message : ServerError → ServerErrorMessage
unfolding error_string
error_message server_error = record {
  is_negative = (error_code server_error).0;
  code = (error_code server_error).1;
  message = error_string server_error;
}
