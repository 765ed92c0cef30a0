-- ===== src/EngineServer/Transport.antt =====
-- engine_io_server/src/transport.rs and adapter.rs: transports, and what the server takes from an
-- adapter, which another crate implements.
use Prim.Native.String.{String}
use text.Mathlib.Text.{starts_with, ◌==◌ as str_eq}
use socket_io_server_rust.Prelude.{
  ℕ, Bool, true, false, ◌||◌, if◌then◌else◌, Option, none, some, List, [], ◌∷◌, ◌++◌, Str, Bytes,
  as_bytes, Outcome, ok, err,
}
use socket_io_server_rust.EngineParser.Packet.{Packet}
use socket_io_server_rust.EngineServer.Util.{
  StringMap, TransportKind, ServerError, bad_request, unknown_transport, RequestContext,
}

pub data TransportError : Type 0 where
  packet_parse_error other_error : TransportError

pub data TransportEvent : Type 0 where
  error : TransportError → TransportEvent
  packet : RequestContext → Packet → TransportEvent
  drain close : TransportEvent

pub data RequestReply (R : Type 0) : Type 0 where
  action : TransportEvent → RequestReply R
  response : R → RequestReply R

pub record WebsocketTransportOptions : Type 0 where
  pub per_message_deflate : Bool
  pub supports_binary : Bool

-- `http_compression` holds the threshold of `HttpCompressionOptions`.
pub record PollingTransportOptions : Type 0 where
  pub max_http_buffer_size : ℕ
  pub http_compression : Option ℕ
  pub jsonp : Bool

-- The traits `Adapter`, `TransportBase`, `PollingTransport` and `WebsocketTransport`: the types and
-- functions that an adapter supplies. The channel ends that `new` is given are those of `Socket`.
pub record Adapter : Type 1 where
  pub WebSocket : Type 0
  pub Polling : Type 0
  pub Response : Type 0
  pub Body : Type 0
  pub WsHandle : Type 0
  pub web_socket_new : WebsocketTransportOptions → WsHandle → RequestContext → WebSocket
  pub web_socket_is_writable : WebSocket → Bool
  pub polling_new : PollingTransportOptions → Polling
  pub polling_is_writable : Polling → Bool
  pub respond_with_packets : Polling → RequestContext → List Packet → Outcome ServerError Response
  pub handle_request :
      Polling → RequestContext → Option Body → Outcome ServerError (RequestReply Response)

pub data Transport (A : Adapter) : Type 0 where
  web_socket : A.WebSocket → Transport A
  polling : A.Polling → Transport A

pub data TransportCreateData (S : Type 0) : Type 0 where
  polling : (jsonp : Bool) → TransportCreateData S
  web_socket : (supports_binary : Bool) → S → TransportCreateData S

module _ {A : Adapter} where
  unfoldable pub supports_framing : Transport A → Bool
  supports_framing (Transport.web_socket _) = true
  supports_framing (Transport.polling _) = false

  unfoldable pub as_polling_or_fail : Transport A → Outcome ServerError A.Polling
  as_polling_or_fail (Transport.web_socket _) = err bad_request
  as_polling_or_fail (Transport.polling p) = ok p

  unfoldable pub get_transport_kind : Transport A → TransportKind
  get_transport_kind (Transport.web_socket _) = TransportKind.web_socket
  get_transport_kind (Transport.polling _) = TransportKind.polling

  unfoldable pub is_writable : Transport A → Bool
  is_writable (Transport.web_socket transport) = A.web_socket_is_writable transport
  is_writable (Transport.polling transport) = A.polling_is_writable transport

-- `Transport::create`
unfoldable pub create :
    (A : Adapter) → RequestContext → TransportCreateData A.WsHandle → Transport A
create A context (TransportCreateData.web_socket supports_binary socket) = Transport.web_socket (
    A.web_socket_new (record { per_message_deflate = true; supports_binary = supports_binary })
      socket context)
create A context (TransportCreateData.polling jsonp) =
    Transport.polling (
      A.polling_new
        (record { max_http_buffer_size = 1024; http_compression = none; jsonp = jsonp }))

-- `TransportKind::parse`, with the texts that `strum` is given.
unfoldable pub parse : String → Outcome ServerError TransportKind
parse input =
    if str_eq input "websocket"
    then ok TransportKind.web_socket
    else if str_eq input "polling"
    then ok TransportKind.polling
    else err unknown_transport

pub data ResponseBodyData : Type 0 where
  plaintext : Str → ResponseBodyData
  binary : Bytes → ResponseBodyData

unfoldable pub into_bytes : ResponseBodyData → Bytes
into_bytes (ResponseBodyData.plaintext t) = as_bytes t
into_bytes (ResponseBodyData.binary b) = b

-- `str::contains`
abbrev pub contains : String → String → Bool
contains String.[] pattern' = starts_with String.[] pattern'
contains (String.◌∷◌ c s) pattern' = starts_with (String.◌∷◌ c s) pattern' || contains s pattern'

abbrev origin_headers : Option String → StringMap
origin_headers (some origin) =
    ("Access-Control-Allow-Credentials", "true") ∷ ("Access-Control-Allow_origin", origin) ∷ []
origin_headers none = ("Access-Control-Allow-Origin", "*") ∷ []

-- The keys are distinct; the order of the map is not the source's.
unfoldable pub get_common_polling_response_headers : RequestContext → Bool → StringMap
get_common_polling_response_headers request_context xhr =
    (if contains request_context.user_agent ";MSIE"
        || contains request_context.user_agent "Trident/"
      then ("X-XSS-Protection", "0") ∷ []
      else [])
    ++ (if xhr then origin_headers request_context.origin else [])
