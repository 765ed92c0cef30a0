-- ===== src/Tests/EngineServer.antt =====
-- engine_io_server: the theorems at concrete inputs, with a transport that takes packets and one that
-- does not.
use socket_io_server_rust.Prelude.{ℕ, ◌≡◌, refl, true, false, none, some, List, [], ◌∷◌, ok, err}
use socket_io_server_rust.EngineParser.Packet as Packets
use socket_io_server_rust.EngineParser.Packet.{Packet}
use socket_io_server_rust.EngineServer.Util.{TransportKind, get', RequestContext, bad_request, get}
use socket_io_server_rust.EngineServer.Transport as Transports
use socket_io_server_rust.EngineServer.Transport.{
  Adapter, Transport, TransportCreateData, TransportEvent, RequestReply, action,
}
use socket_io_server_rust.EngineServer.Socket.State.{opened, Socket, initial, free, returns}
use socket_io_server_rust.EngineServer.Socket.Sending.{new}
use socket_io_server_rust.EngineServer.Socket.Operations.{handle_polling_request}
use socket_io_server_rust.EngineServer.Socket.Calls.{
  Call, opens, sends, hears, perform, outbox, ledger,
}
use socket_io_server_rust.EngineServer.Socket.Outbox.{outbox-perform}
use socket_io_server_rust.EngineServer.Socket.Invariant.{IsCalm, performs, performs-new-IsCalm}
use socket_io_server_rust.EngineServer.Socket.Ledger.{ledger-perform}
use socket_io_server_rust.EngineServer.Socket.Polls.{handle_polling_request_drain}
use socket_io_server_rust.EngineServer.Server.State as States
use socket_io_server_rust.EngineServer.Server.State.{
  Server, default_options, with_client, panics, HandshakeData, find,
}
use socket_io_server_rust.EngineServer.Server.Operations as Servers
use socket_io_server_rust.EngineServer.Server.Handshakes as Handshakes
use socket_io_server_rust.EngineServer.Server.Calls as ServerCalls
use socket_io_server_rust.EngineServer.Server.Calls.{ServerCall, perform_server, performs_server}
use socket_io_server_rust.EngineServer.Server.Invariant.{performs_server-new}
use socket_io_server_rust.EngineServer.Server.Requests.{
  fresh, handle_request_no_sid, handle_upgrade_lem,
}

abbrev pub adapter : Adapter
adapter = record {
  WebSocket = ℕ;
  Polling = ℕ;
  Response = ℕ;
  Body = ℕ;
  WsHandle = ℕ;
  web_socket_new = λ _ handle _. handle;
  web_socket_is_writable = λ _. true;
  polling_new = λ _. 0;
  polling_is_writable = λ _. false;
  respond_with_packets = λ _ _ _. ok 200;
  handle_request = λ _ _ _. ok (action TransportEvent.drain);
}

abbrev context : RequestContext
context = record {
  query = [];
  headers = [];
  origin = none;
  secure = false;
  user_agent = "";
  content_type = "";
  transport_kind = TransportKind.polling;
  http_method = get';
  remote_address = "";
  request_url = "/";
  set_cookie = none;
}

abbrev hello : Packet
hello = record { packet_type = Packets.message; data' = Packets.text (b'h' ∷ []) }

abbrev connection : Transport adapter → Socket adapter
connection t = record {
  id = "a";
  remote_address = "";
  state = record {
    upgrade = initial;
    ready = opened;
    transport = some t;
    write_buffer = hello ∷ [];
    pending_callbacks = [];
    flushed_callbacks = [];
  };
  guard = free;
  trace = [];
}

abbrev by_web_socket : Socket adapter
by_web_socket = connection (Transport.web_socket 7)

abbrev by_polling : Socket adapter
by_polling = connection (Transport.polling 0)

outbox-perform_example : outbox (perform (sends hello none) by_web_socket) ≡ hello ∷ hello ∷ []
outbox-perform_example = outbox-perform (sends hello none) by_web_socket refl refl

abbrev life : List (Call adapter)
life = sends hello none ∷ opens (λ _ _. []) ∷ sends hello (some 3) ∷ hears TransportEvent.close ∷ []

performs-new-IsCalm_example :
    IsCalm (performs life (new {A = adapter} "a" context (TransportCreateData.web_socket true 7)))
performs-new-IsCalm_example =
    performs-new-IsCalm life "a" context (TransportCreateData.web_socket true 7)

handle_polling_request_drain_example :
    handle_polling_request context none by_polling ≡ returns (err bad_request, by_polling)
unfolding Transports.is_writable
handle_polling_request_drain_example =
    handle_polling_request_drain context none 0 by_polling refl refl refl refl

abbrev server : Server adapter
server = record {
  state = States.subscribed;
  clients = ("a", by_polling) ∷ [];
  options = default_options;
}

abbrev new_socket : Socket adapter
new_socket = fresh "b" context HandshakeData.polling server

handle_request_no_sid_example :
    Handshakes.handle_request (λ _ _. []) "b" context none server
    ≡ panics (
        with_client "b"
          (record new_socket { state = record new_socket.state { ready = opened } })
          (with_client "b" new_socket server))
unfolding get
handle_request_no_sid_example = handle_request_no_sid (λ _ _. []) "b" context none server refl

handle_upgrade_lem_example :
    Handshakes.handle_upgrade (λ _ _. []) "b" context 0 server
    ≡ panics (
        let socket : Socket adapter = fresh "b" context (HandshakeData.web_socket 0) server in
        with_client "b"
          (record socket { state = record socket.state { ready = opened } })
          (with_client "b" socket server))
unfolding get
handle_upgrade_lem_example = handle_upgrade_lem (λ _ _. []) "b" context 0 server

ledger-perform_example : ledger (perform (sends hello (some 3)) by_web_socket) ≡ 3 ∷ []
ledger-perform_example = ledger-perform (sends hello (some 3)) by_web_socket refl refl

-- A request without an identifier leaves a client behind, which has since been sent a packet.
abbrev asked : List (ServerCall adapter)
asked = ServerCalls.requests (λ _ _. []) "b" context none ∷ ServerCalls.sends_to "b" hello ∷ []

abbrev left_behind : Socket adapter
left_behind =
    let socket : Socket adapter =
      fresh "b" context HandshakeData.polling (Servers.new default_options) in
    perform (sends hello none) (record socket { state = record socket.state { ready = opened } })

performs_server-new_example : (left_behind.id ≡ "b") × IsCalm left_behind
unfolding perform_server Transports.is_writable perform
performs_server-new_example = performs_server-new asked default_options "b" left_behind refl
