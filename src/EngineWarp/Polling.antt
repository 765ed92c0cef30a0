-- ===== src/EngineWarp/Polling.antt =====
-- engine_io_warp/src/polling.rs: the polling transport. A response of the `http` crate is its status,
-- its headers and its body. `events` is what the transport sends on its channel.
use Prim.Native.String.{String}
use text.Mathlib.Text.{◌==◌ as str_eq}
use socket_io_server_rust.Prelude.{
  ℕ, Bool, true, false, if◌then◌else◌, Option, none, some, List, [], ◌∷◌, map, Str, Bytes,
  from_utf8, Outcome, ok, err, panic,
}
use socket_io_server_rust.Nom.{Combinators}
use socket_io_server_rust.EngineParser.Base64.{Base64}
use socket_io_server_rust.EngineParser.Packet.{Packet, ParsePacketError}
use socket_io_server_rust.EngineParser.Binary
use socket_io_server_rust.EngineParser.StringFormat
use socket_io_server_rust.EngineServer.Util.{
  StringMap, ServerError, bad_request, HttpMethod, RequestContext, from_parse_packet_error,
}
use socket_io_server_rust.EngineServer.Transport.{
  PollingTransportOptions, TransportEvent, RequestReply, action, response, ResponseBodyData,
  into_bytes, get_common_polling_response_headers,
}

pub data Mode : Type 0 where
  xhr jsonp : Mode

pub record WarpPollingTransport : Type 0 where
  pub mode : Mode
  pub writable : Bool
  pub options : PollingTransportOptions

pub record Response : Type 0 where
  pub status : ℕ
  pub headers : StringMap
  pub body : Bytes

-- `HeaderMap::insert`
abbrev pub insert_header : String → String → StringMap → StringMap
insert_header k v [] = (k, v) ∷ []
insert_header k v ((j, w) ∷ m) = if str_eq j k then (k, v) ∷ m else (j, w) ∷ insert_header k v m

-- `WarpPollingTransport::new`
unfoldable pub new : PollingTransportOptions → WarpPollingTransport
new options = record {
  mode = if options.jsonp then Mode.jsonp else xhr;
  writable = false;
  options = options;
}

unfoldable pub is_writable : WarpPollingTransport → Bool
is_writable transport = false

abbrev content_type_of : ResponseBodyData → String
content_type_of (ResponseBodyData.plaintext _) = "text/plain; charset=UTF-8"
content_type_of (ResponseBodyData.binary _) = "application/octet-stream"

abbrev pub is_xhr : Mode → Bool
is_xhr xhr = true
is_xhr Mode.jsonp = false

-- `respond`; the text of a cookie is `todo!()`. The compression is not used.
unfoldable pub respond :
    ResponseBodyData → RequestContext → Mode → Bool → Outcome ServerError Response
unfolding into_bytes get_common_polling_response_headers
respond content context mode compress = elim context.set_cookie [
  | some _ ↦ panic
  | none ↦ ok (record {
    status = 200;
    headers =
        insert_header "content-type" (content_type_of content)
          (get_common_polling_response_headers context (is_xhr mode));
    body = into_bytes content;
  })
]

abbrev is_some : Option ℕ → Bool
is_some (some _) = true
is_some none = false

unfoldable pub respond_with_packets :
    Base64 → WarpPollingTransport → RequestContext → List Packet → Outcome ServerError Response
unfolding respond StringFormat.encode_payload
respond_with_packets base64 transport request_context packets =
    respond (ResponseBodyData.plaintext (StringFormat.encode_payload base64 packets))
      request_context transport.mode (is_some transport.options.http_compression)

abbrev pub Answer : Type 0
Answer = Outcome ServerError (RequestReply Response) × List TransportEvent

unfoldable pub handle_poll_request : Answer
handle_poll_request = (ok (action TransportEvent.drain), [])

abbrev pub ok_response : Response
ok_response = record {
  status = 200;
  headers = ("content-type", "text/html") ∷ [];
  body = b'o' ∷ b'k' ∷ [];
}

abbrev pub packet_event : RequestContext → Packet → TransportEvent
packet_event request_context packet = TransportEvent.packet request_context packet

-- `?` on what a decoder answers, and the rest of `handle_data_request`.
abbrev pub send_packets : RequestContext → Outcome ParsePacketError (List Packet) → Answer
send_packets request_context (ok packets) =
    (ok (response ok_response), map (packet_event request_context) packets)
send_packets request_context (err e) = (err (from_parse_packet_error e), [])
send_packets request_context panic = (panic, [])

module _ (nom : Combinators Packet) (base64 : Base64) where
  -- `from_utf8(&body).map_err(|_| BadRequest)?` and the text decoder.
  abbrev pub send_text_packets : RequestContext → Option Str → Answer
  send_text_packets request_context (some body) =
      send_packets request_context (StringFormat.decode_payload nom base64 body)
  send_text_packets request_context none = (err bad_request, [])

  unfoldable pub handle_data_request : RequestContext → Option Bytes → Answer
  unfolding from_utf8 Binary.decode_payload
  handle_data_request request_context none = (err bad_request, [])
  handle_data_request request_context (some body) =
      if str_eq request_context.content_type "application/octet-stream"
      then send_packets request_context (Binary.decode_payload nom body)
      else send_text_packets request_context (from_utf8 body)

  unfoldable pub handle_options_request : Answer
  handle_options_request = (
    ok (
        response (record {
          status = 200;
          headers = ("access-control-allow-headers", "Content-Type") ∷ [];
          body = [];
        })),
    [],
  )

  unfoldable pub respond_with_status_code_only : ℕ → Answer
  respond_with_status_code_only status_code =
      (ok (response (record { status = status_code; headers = []; body = [] })), [])

  abbrev pub dispatch : HttpMethod → Mode → RequestContext → Option Bytes → Answer
  dispatch HttpMethod.get' mode request_context body = handle_poll_request
  dispatch HttpMethod.post mode request_context body = handle_data_request request_context body
  dispatch HttpMethod.options xhr request_context body = handle_options_request
  dispatch HttpMethod.options Mode.jsonp request_context body = respond_with_status_code_only 500
  dispatch HttpMethod.put mode request_context body = respond_with_status_code_only 500
  dispatch HttpMethod.delete mode request_context body = respond_with_status_code_only 500
  dispatch HttpMethod.head mode request_context body = respond_with_status_code_only 500
  dispatch HttpMethod.trace mode request_context body = respond_with_status_code_only 500
  dispatch HttpMethod.connect mode request_context body = respond_with_status_code_only 500
  dispatch HttpMethod.patch mode request_context body = respond_with_status_code_only 500

  unfoldable pub handle_request : WarpPollingTransport → RequestContext → Option Bytes → Answer
  handle_request transport request_context body =
      dispatch request_context.http_method transport.mode request_context body
