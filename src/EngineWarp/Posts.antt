-- ===== src/EngineWarp/Posts.antt =====
-- engine_io_warp/src/polling.rs: what the server makes of the payload in the body of a POST.
use text.Mathlib.Text.{◌==◌ as str_eq}
use socket_io_server_rust.Prelude.{
  ◌≡◌, refl, Bool-cases, inl, inr, true, false, Option, none, some, List, [], map, Str, Bytes,
  as_bytes, from_utf8, IsChar, from_utf8-as_bytes, All, Outcome, ok, err, panic,
}
use socket_io_server_rust.Nom.{Combinators}
use socket_io_server_rust.EngineParser.Base64.{Base64}
use socket_io_server_rust.EngineParser.Packet.{Packet, ParsePacketError}
use socket_io_server_rust.EngineParser.Binary
use socket_io_server_rust.EngineParser.Binary.RoundTrip.{
  IsSendable, received, decode_binary_payload-encode,
}
use socket_io_server_rust.EngineParser.StringFormat
use socket_io_server_rust.EngineParser.StringFormat.RoundTrip.{
  IsCarried, delivered, decode_string_payload-encode,
}
use socket_io_server_rust.EngineServer.Util.{
  RequestContext, HttpMethod, ServerError, bad_request, from_parse_packet_error,
}
use socket_io_server_rust.EngineServer.Transport.{response, RequestReply}
use socket_io_server_rust.EngineWarp.Polling.{
  WarpPollingTransport, ok_response, packet_event, send_packets, send_text_packets,
  handle_data_request, dispatch, handle_request, Answer, Response, Mode, xhr, handle_poll_request,
  handle_options_request, respond_with_status_code_only,
}

module _ (nom : Combinators Packet) (base64 : Base64) where
  post :
      (transport : WarpPollingTransport) (request_context : RequestContext) (body : Option Bytes)
      → request_context.http_method ≡ HttpMethod.post
      → handle_request nom base64 transport request_context body
        ≡ handle_data_request nom base64 request_context body
  unfolding handle_request
  post transport request_context body h = rw h refl

  -- A POST of binary data that `encode_payload` of the binary format made is answered `ok`, and sends
  -- one event for each packet, in order, a text as its bytes. It holds when no packet is empty, each
  -- length field fits 32 bits and no text begins with a digit.
  pub handle_request-binary_payload :
      (transport : WarpPollingTransport) (request_context : RequestContext) (ps : List Packet)
      → request_context.http_method ≡ HttpMethod.post
      → str_eq request_context.content_type "application/octet-stream" ≡ true
      → All (λ p. IsSendable p.data') ps
      → handle_request nom base64 transport request_context (some (Binary.encode_payload ps))
        ≡ (ok (response ok_response), map (packet_event request_context) (map received ps))
  unfolding handle_data_request
  handle_request-binary_payload transport request_context ps h content all =
      rw (post transport request_context (some (Binary.encode_payload ps)) h)
        (rw (content) (rw (decode_binary_payload-encode nom ps all) refl))

  -- A POST of any other content type, of text that `encode_payload` of the string format made, is
  -- answered `ok`, and sends one event for each packet that is not empty, in order and unchanged.
  pub handle_request-string_payload :
      (transport : WarpPollingTransport) (request_context : RequestContext) (ps : List Packet)
      → request_context.http_method ≡ HttpMethod.post
      → str_eq request_context.content_type "application/octet-stream" ≡ false
      → All (λ p. IsCarried base64 p.data') ps
      → All IsChar (StringFormat.encode_payload base64 ps)
      → handle_request nom base64 transport request_context
          (some (as_bytes (StringFormat.encode_payload base64 ps)))
        ≡ (ok (response ok_response), map (packet_event request_context) (delivered ps))
  unfolding handle_data_request
  handle_request-string_payload transport request_context ps h content all chars =
      let text = StringFormat.encode_payload base64 ps in
      rw (post transport request_context (some (as_bytes text)) h) (
        rw (content) (
          rw (from_utf8-as_bytes text chars)
            (rw (decode_string_payload-encode nom base64 ps all) refl)))

  IsQuiet : Answer → Type 0
  IsQuiet a = (e : ServerError) → a.0 ≡ err e → (e ≡ bad_request) × (a.1 ≡ [])

  ok-IsQuiet : (a : Answer) (r : RequestReply Response) → a.0 ≡ ok r → IsQuiet a
  unfolding IsQuiet
  ok-IsQuiet a r h e h' = cc

  refused-IsQuiet : IsQuiet (err bad_request, [])
  unfolding IsQuiet
  refused-IsQuiet e h = (cc, refl)

  send_packets-IsQuiet :
      (request_context : RequestContext) (o : Outcome ParsePacketError (List Packet))
      → IsQuiet (send_packets request_context o)
  unfolding IsQuiet from_parse_packet_error
  send_packets-IsQuiet request_context (ok ps) e h = cc
  send_packets-IsQuiet request_context (err p) e h = (cc, refl)
  send_packets-IsQuiet request_context panic e h = cc

  text_packets-IsQuiet :
      (request_context : RequestContext) (o : Option Str)
      → IsQuiet (send_text_packets nom base64 request_context o)
  unfolding IsQuiet
  text_packets-IsQuiet request_context none = refused-IsQuiet
  text_packets-IsQuiet request_context (some t) =
      send_packets-IsQuiet request_context (StringFormat.decode_payload nom base64 t)

  data_request-IsQuiet :
      (request_context : RequestContext) (body : Option Bytes)
      → IsQuiet (handle_data_request nom base64 request_context body)
  unfolding IsQuiet handle_data_request
  data_request-IsQuiet request_context none = refused-IsQuiet
  data_request-IsQuiet request_context (some b) =
      elim (Bool-cases (str_eq request_context.content_type "application/octet-stream")) [
        | inl c ↦ rw c (send_packets-IsQuiet request_context (Binary.decode_payload nom b))
        | inr c ↦ rw c (text_packets-IsQuiet request_context (from_utf8 b))
      ]

  dispatch-IsQuiet :
      (m : HttpMethod) (mode : Mode) (request_context : RequestContext) (body : Option Bytes)
      → IsQuiet (dispatch nom base64 m mode request_context body)
  unfolding IsQuiet handle_poll_request handle_options_request respond_with_status_code_only
  dispatch-IsQuiet HttpMethod.post mode c body = data_request-IsQuiet c body
  dispatch-IsQuiet HttpMethod.options xhr c body = ok-IsQuiet _ _ refl
  dispatch-IsQuiet HttpMethod.options Mode.jsonp c body = ok-IsQuiet _ _ refl
  dispatch-IsQuiet HttpMethod.get' mode c body = ok-IsQuiet _ _ refl
  dispatch-IsQuiet HttpMethod.put mode c body = ok-IsQuiet _ _ refl
  dispatch-IsQuiet HttpMethod.delete mode c body = ok-IsQuiet _ _ refl
  dispatch-IsQuiet HttpMethod.head mode c body = ok-IsQuiet _ _ refl
  dispatch-IsQuiet HttpMethod.trace mode c body = ok-IsQuiet _ _ refl
  dispatch-IsQuiet HttpMethod.connect mode c body = ok-IsQuiet _ _ refl
  dispatch-IsQuiet HttpMethod.patch mode c body = ok-IsQuiet _ _ refl

  -- A request of any method that is refused is refused as `BadRequest`, and none of the packets in
  -- its body is sent on.
  pub handle_request-err :
      (transport : WarpPollingTransport) (request_context : RequestContext) (body : Option Bytes)
      (e : ServerError)
      → (handle_request nom base64 transport request_context body).0 ≡ err e
      → (e ≡ bad_request) × ((handle_request nom base64 transport request_context body).1 ≡ [])
  unfolding handle_request IsQuiet
  handle_request-err transport request_context body =
      dispatch-IsQuiet request_context.http_method transport.mode request_context body
