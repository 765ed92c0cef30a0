-- ===== src/EngineWarp/Adapter.antt =====
-- engine_io_warp/src/adapter_warp.rs: the adapter's types and functions, and what its endpoints do
-- with requests. The filters of the `warp` crate, which give the endpoints their arguments, are not
-- modelled.
use Prim.Native.Char.{code}
use Prim.Native.String.{String}
use socket_io_server_rust.Prelude.{
  ◌≡◌, ◌≢◌, refl, arith, Bool, Option, none, some, List, [], ◌∷◌, All, Bytes, Str, as_bytes,
  Outcome, ok, err, panic,
}
use socket_io_server_rust.Nom.{Combinators}
use socket_io_server_rust.EngineParser.Base64.{Base64}
use socket_io_server_rust.EngineParser.Packet.{Packet}
use socket_io_server_rust.EngineServer.Util.{
  StringMap, get, RequestContext, HttpMethod, ServerError, error_string,
}
use socket_io_server_rust.EngineServer.Transport.{
  Adapter, TransportCreateData, RequestReply, parse, create, is_writable,
}
use socket_io_server_rust.EngineServer.Socket.Sending.{new}
use socket_io_server_rust.EngineServer.Socket.Calls.{Call, sent}
use socket_io_server_rust.EngineServer.Socket.Invariant.{performs}
use socket_io_server_rust.EngineServer.Socket.Mute.{
  IsMute, IsOwnReply, KeepsTransport, performs-sent, performs-IsMute, request-IsOwnReply,
}
use socket_io_server_rust.EngineServer.Socket.State.{Socket, returns}
use socket_io_server_rust.EngineServer.Socket.Operations.{handle_polling_request}
use socket_io_server_rust.EngineWarp.Polling as Polling
use socket_io_server_rust.EngineWarp.Polling.{WarpPollingTransport, Response}
use socket_io_server_rust.EngineWarp.WebSocket as WebSocket
use socket_io_server_rust.EngineWarp.WebSocket.{WarpWebsocketTransport}

-- The text of a literal.
abbrev chars : String → Str
chars String.[] = []
chars (String.◌∷◌ c s) = code c ∷ chars s

-- `server_error_to_warp_result`; the status of `warp::reply::html` is 200.
unfoldable pub server_error_to_warp_result : ServerError → Response
unfolding error_string
server_error_to_warp_result error = record {
  status = 200;
  headers = ("content-type", "text/html; charset=utf-8") ∷ [];
  body = as_bytes (chars (error_string error));
}

-- `on_poll_request` and `on_data_request`, on what the server answers.
unfoldable pub on_request : Outcome ServerError Response → Outcome ServerError Response
unfolding server_error_to_warp_result
on_request (ok response) = ok response
on_request (err error) = ok (server_error_to_warp_result error)
on_request panic = panic

abbrev transport_name : Option String → String
transport_name (some name) = name
transport_name none = "polling"

-- The context of a request whose transport is known is never made: `headers_into_map`, which is
-- `todo!()`, stands in its first field.
abbrev with_kind : {K : Type 0} → Outcome ServerError K → Outcome ServerError RequestContext
with_kind (ok transport_kind) = panic
with_kind (err server_error) = err server_error
with_kind panic = panic

-- The closure of `build_context`, on the query.
unfoldable pub build_context : StringMap → Outcome ServerError RequestContext
unfolding parse
build_context query = with_kind (parse (transport_name (get "transport" query)))

module _ (nom : Combinators Packet) (base64 : Base64) where
  -- The associated types and the functions of the adapter and its transports. What a transport sends
  -- on its channel is left out here.
  unfoldable pub standalone_adapter : (WsHandle : Type 0) → Adapter
  unfolding WebSocket.new WebSocket.is_writable Polling.new Polling.is_writable
      Polling.respond_with_packets Polling.handle_request
  standalone_adapter WsHandle = record {
    WebSocket = WarpWebsocketTransport;
    Polling = WarpPollingTransport;
    Response = Response;
    Body = Bytes;
    WsHandle = WsHandle;
    web_socket_new = λ options _ _. WebSocket.new options;
    web_socket_is_writable = WebSocket.is_writable;
    polling_new = Polling.new;
    polling_is_writable = Polling.is_writable;
    respond_with_packets = Polling.respond_with_packets base64;
    handle_request =
        λ transport context body. (Polling.handle_request nom base64 transport context body).0;
  }

  get-ne-response :
      (p : WarpPollingTransport) (request : RequestContext) (body : Option Bytes) (r : Response)
      → request.http_method ≡ HttpMethod.get'
      → (Polling.handle_request nom base64 p request body).0 ≢ ok (RequestReply.response r)
  unfolding Polling.handle_request Polling.handle_poll_request
  get-ne-response p request body r is_get h = ground arith

  -- A connection over polling, behind the calls that were made on it.
  abbrev pub polling_after :
      (WsHandle : Type 0)
      → List (Call (standalone_adapter WsHandle))
      → String
      → RequestContext
      → Bool
      → Socket (standalone_adapter WsHandle)
  polling_after WsHandle cs id context jsonp =
      performs cs
        (new {A = standalone_adapter WsHandle} id context (TransportCreateData.polling jsonp))

  -- The same request, as a GET.
  abbrev pub as_get : RequestContext → RequestContext
  as_get request = record request { http_method = HttpMethod.get' }

  ne-IsOwnReply :
      (WsHandle : Type 0) (s : Socket (standalone_adapter WsHandle)) (request : RequestContext)
      (body : Option (standalone_adapter WsHandle).Body)
      (r : (standalone_adapter WsHandle).Response) (s' : Socket (standalone_adapter WsHandle))
      → handle_polling_request {A = standalone_adapter WsHandle} (as_get request) body s
        ≡ returns (ok r, s')
      → IsOwnReply {A = standalone_adapter WsHandle}
          (as_get request)
          body
          s
          (handle_polling_request {A = standalone_adapter WsHandle} (as_get request) body s)
      → ⊥
  unfolding standalone_adapter
  ne-IsOwnReply WsHandle s request body r s' e own =
      let own' : IsOwnReply {A = standalone_adapter WsHandle} (as_get request) body s
          (returns (ok r, s')) =
        rw e at own in
      get-ne-response own'.0 (as_get request) body r refl own'.1

  -- A connection over polling never sends a packet: whatever is called on it since it was made, short
  -- of an upgrade to another transport, nothing reaches the transport; and a poll that it then answers
  -- with a response is answered with what the transport says to the request alone, whatever waits in
  -- the write buffer, and leaves the connection as it is; and no GET is answered with a response.
  pub performs-polling :
      (WsHandle : Type 0) (cs : List (Call (standalone_adapter WsHandle))) (id : String)
      (context : RequestContext) (jsonp : Bool) (request : RequestContext)
      (body : Option (standalone_adapter WsHandle).Body)
      (r : (standalone_adapter WsHandle).Response) (s' : Socket (standalone_adapter WsHandle))
      → All KeepsTransport cs
      → (sent (polling_after WsHandle cs id context jsonp).trace ≡ [])
        × IsOwnReply {A = standalone_adapter WsHandle} request body
            (polling_after WsHandle cs id context jsonp)
            (handle_polling_request {A = standalone_adapter WsHandle} request body
              (polling_after WsHandle cs id context jsonp))
        × (handle_polling_request {A = standalone_adapter WsHandle}
              (as_get request)
              body
              (polling_after WsHandle cs id context jsonp)
            ≢ returns (ok r, s'))
  unfolding standalone_adapter new create is_writable Polling.is_writable
  performs-polling WsHandle cs id context jsonp request body r s' all =
      let made : Socket (standalone_adapter WsHandle) =
        new id context (TransportCreateData.polling jsonp) in
      let mute : IsMute made = record { no_reader = refl; mute = refl } in
      let later = performs-IsMute cs made all mute in
      (
        performs-sent cs made all mute,
        request-IsOwnReply request body (performs cs made) later,
        λ e.
            ne-IsOwnReply WsHandle (performs cs made) request body r s' e
              (request-IsOwnReply (as_get request) body (performs cs made) later),
      )
