-- ===== src/Tests/EngineWarp.antt =====
-- engine_io_warp: the theorems at concrete inputs, with a sink that is a flag.
use socket_io_server_rust.Prelude.{
  ◌≡◌, ◌≤◌, refl, Bool, true, false, inl, Bytes, Str, as_bytes, Option, none, some, List, [], ◌∷◌,
  ◌++◌, map, length, All, Outcome, ok, err, arith,
}
use socket_io_server_rust.Nom.{Combinators}
use socket_io_server_rust.Nom.Model.{model}
use socket_io_server_rust.EngineParser.Base64.{Base64}
use socket_io_server_rust.EngineParser.Packet as Packets
use socket_io_server_rust.EngineParser.Packet.{Packet}
use socket_io_server_rust.EngineParser.Binary
use socket_io_server_rust.EngineParser.Binary.RoundTrip.{received}
use socket_io_server_rust.EngineParser.StringFormat
use socket_io_server_rust.EngineServer.Util.{TransportKind, HttpMethod, RequestContext, bad_request}
use socket_io_server_rust.EngineServer.Transport.{
  TransportEvent, WebsocketTransportOptions, PollingTransportOptions, response,
}
use socket_io_server_rust.EngineServer.Socket.Calls.{sends, hears, sent}
use socket_io_server_rust.EngineWarp.Polling.{
  WarpPollingTransport, handle_data_request, handle_request, ok_response, packet_event, new,
}
use socket_io_server_rust.EngineWarp.Posts.{
  handle_request-binary_payload, handle_request-string_payload, handle_request-err,
}
use socket_io_server_rust.EngineWarp.WebSocket.{
  Message, Frame, frame, failed, subscribe_to_websocket_messages, binary_message, text_message,
  Sink, send_packets, subscribe_to_socket_commands,
}
use socket_io_server_rust.EngineWarp.Messages.{
  subscribe_to_websocket_messages-close, subscribe_to_websocket_messages-text,
  subscribe_to_websocket_messages-binary,
}
use socket_io_server_rust.EngineWarp.Commands.{Refused, subscribe_to_socket_commands_once}
use socket_io_server_rust.EngineWarp.Adapter.{
  standalone_adapter, polling_after, as_get, performs-polling,
}
use socket_io_server_rust.EngineServer.Socket.Mute.{IsOwnReply}
use socket_io_server_rust.EngineServer.Socket.Operations.{handle_polling_request}
use socket_io_server_rust.EngineServer.Socket.State.{Socket, returns}
use socket_io_server_rust.EngineServer.Socket.Calls.{Call}
use socket_io_server_rust.EngineServer.Transport.{Adapter}
use socket_io_server_rust.Prelude.{◌≢◌, sym, length, append-nil, ◌++◌}

abbrev pub nom : Combinators Packet
nom = model

abbrev strip : Str → Option Bytes
strip [] = none
strip (c ∷ cs) = some cs

abbrev pub base64 : Base64
base64 = record { encode = λ d. b'A' ∷ d; decode = strip; decode-encode = λ d. refl }

abbrev request : HttpMethod → RequestContext
request http_method = record {
  query = [];
  headers = [];
  origin = none;
  secure = false;
  user_agent = "";
  content_type = "application/octet-stream";
  transport_kind = TransportKind.polling;
  http_method = http_method;
  remote_address = "";
  request_url = "/";
  set_cookie = none;
}

abbrev text_request : RequestContext
text_request = record (request HttpMethod.post) { content_type = "text/plain" }

abbrev context : RequestContext
context = request HttpMethod.post

abbrev hi : Packet
hi = record { packet_type = Packets.message; data' = Packets.text (b'h' ∷ b'i' ∷ []) }

abbrev blob : Packet
blob = record { packet_type = Packets.message; data' = Packets.binary (1 ∷ 2 ∷ []) }

-- A text, a ping of the socket, bytes that are no packet, and the end.
abbrev frames : List Frame
frames =
    frame (Message.text (b'4' ∷ b'h' ∷ b'i' ∷ []))
    ∷ frame Message.other
    ∷ frame (Message.binary (77 ∷ []))
    ∷ failed
    ∷ frame (Message.text (b'4' ∷ []))
    ∷ []

subscribe_to_websocket_messages-close_example :
    (ps : List Packet) × (subscribe_to_websocket_messages nom context frames
      ≡ map (packet_event context) ps ++ TransportEvent.close ∷ [])
    × (length ps ≤ 5)
subscribe_to_websocket_messages-close_example =
    subscribe_to_websocket_messages-close nom context frames

frames_run :
    subscribe_to_websocket_messages nom context frames
    ≡ packet_event context hi ∷ TransportEvent.close ∷ []
unfolding subscribe_to_websocket_messages model StringFormat.decode_packet Binary.decode_packet
frames_run = refl

subscribe_to_websocket_messages-text_example :
    subscribe_to_websocket_messages nom context (map frame (map (text_message base64) (hi ∷ [])))
    ≡ packet_event context hi ∷ TransportEvent.close ∷ []
subscribe_to_websocket_messages-text_example =
    subscribe_to_websocket_messages-text nom base64 context (hi ∷ []) (refl, tt)

subscribe_to_websocket_messages-binary_example :
    subscribe_to_websocket_messages nom context (map frame (map binary_message (hi ∷ blob ∷ [])))
    ≡ packet_event context blob ∷ TransportEvent.close ∷ []
subscribe_to_websocket_messages-binary_example =
    subscribe_to_websocket_messages-binary nom context (hi ∷ blob ∷ [])

-- A sink that is open or closed, and what it has sent.
abbrev Sent : Type 0
Sent = Bool × List Message

abbrev answer : List Message → Sent → Outcome {0} Unit Unit × Sent
answer [] (closed, out) = (ok tt, (true, out))
answer (m ∷ ms) (false, out) = (ok tt, (true, out ++ m ∷ ms))
answer (m ∷ ms) (true, out) = (err tt, (true, out))

answer_sends :
    (ms : List Message) (s : Sent) → (answer ms s).0 ≡ ok tt → (answer ms s).1.1 ≡ s.1 ++ ms
answer_sends [] (closed, out) h = sym (append-nil out)
answer_sends (m ∷ ms) (false, out) h = refl
answer_sends (m ∷ ms) (true, out) h = cc

answer_closes : (ms : List Message) (s : Sent) → (answer ms s).0 ≡ ok tt → (answer ms s).1.0 ≡ true
answer_closes [] s h = refl
answer_closes (m ∷ ms) (false, out) h = refl
answer_closes (m ∷ ms) (true, out) h = refl

answer_closed :
    (m : Message) (ms : List Message) (s : Sent)
    → s.0 ≡ true
    → ((e : Unit) × ((answer (m ∷ ms) s).0 ≡ err e))
      × ((answer (m ∷ ms) s).1.0 ≡ true)
      × ((answer (m ∷ ms) s).1.1 ≡ s.1)
answer_closed m ms (true, out) h = ((tt, refl), refl, refl)
answer_closed m ms (false, out) h = cc

abbrev sink : Sink
sink = record {
  State = Sent;
  Error = Unit;
  is_closed = λ s. s.0;
  received = λ s. s.1;
  forward = answer;
  forward_sends = answer_sends;
  forward_closes = answer_closes;
  forward_closed = answer_closed;
}

abbrev options : WebsocketTransportOptions
options = record { per_message_deflate = false; supports_binary = true }

subscribe_to_socket_commands_once_example :
    (rest : List (Outcome {0} Unit Unit)) × ((subscribe_to_socket_commands base64 sink options
        ((hi ∷ []) ∷ (blob ∷ []) ∷ [])
        (false, [])).0
      ≡ ok tt ∷ rest)
    × All (Refused base64 sink) rest
    × (length rest ≡ 1)
    × ((subscribe_to_socket_commands base64 sink options
          ((hi ∷ []) ∷ (blob ∷ []) ∷ [])
          (false, [])).1.1
        ≡ binary_message hi ∷ [])
unfolding send_packets
subscribe_to_socket_commands_once_example =
    subscribe_to_socket_commands_once base64 sink options (hi ∷ []) ((blob ∷ []) ∷ []) (false, [])
      refl (tt, tt)

abbrev polling_options : PollingTransportOptions
polling_options = record { max_http_buffer_size = 1024; http_compression = none; jsonp = false }

abbrev transport : WarpPollingTransport
unfolding new
transport = new polling_options

handle_request-binary_payload_example :
    handle_request nom base64 transport context (some (Binary.encode_payload (hi ∷ blob ∷ [])))
    ≡ (ok (response ok_response), map (packet_event context) (map received (hi ∷ blob ∷ [])))
unfolding as_bytes
handle_request-binary_payload_example =
    handle_request-binary_payload nom base64 transport context (hi ∷ blob ∷ []) refl refl
      (((inl (omega arith), (inl (omega arith), tt)), refl, omega arith), (omega arith, tt))

handle_request-string_payload_example :
    handle_request nom base64 transport text_request
      (some (as_bytes (StringFormat.encode_payload base64 (hi ∷ []))))
    ≡ (ok (response ok_response), packet_event text_request hi ∷ [])
unfolding StringFormat.encode_payload
handle_request-string_payload_example =
    handle_request-string_payload nom base64 transport text_request (hi ∷ []) refl refl
      ((refl, omega arith), tt)
      (
        inl (omega arith),
        (inl (omega arith), (inl (omega arith), (inl (omega arith), (inl (omega arith), tt)))),
      )

handle_request-err_example :
    (bad_request ≡ bad_request) × ((handle_request nom base64 transport context none).1 ≡ [])
unfolding handle_request handle_data_request
handle_request-err_example = handle_request-err nom base64 transport context none bad_request refl

abbrev warp : Adapter
warp = standalone_adapter nom base64 Unit

abbrev some_calls : List (Call warp)
some_calls = sends hi none ∷ hears TransportEvent.drain ∷ []

abbrev polled : Socket warp
polled = polling_after nom base64 Unit some_calls "a" context false

abbrev reply : warp.Response
unfolding standalone_adapter
reply = ok_response

performs-polling_example :
    (sent polled.trace ≡ [])
    × IsOwnReply {A = warp} context none polled
        (handle_polling_request {A = warp} context none polled)
    × (handle_polling_request {A = warp} (as_get nom base64 context) none polled
        ≢ returns (ok reply, polled))
performs-polling_example =
    performs-polling nom base64 Unit some_calls "a" context false context none reply polled
      (tt, (tt, tt))
