-- ===== src/Tests/SocketServer.antt =====
-- socket_io_server: the theorems at concrete inputs, with stand-ins for `serde_json` and the storage.
use socket_io_server_rust.Prelude.{ℕ, false, ◌≡◌, refl, none, some, List, [], ◌∷◌, Str, ok}
use socket_io_server_rust.SocketParser.Json.{chars, JsonValue, JsonArray, JsonObject, Json}
use socket_io_server_rust.SocketParser.Packet.{
  Packet, BinaryPacketType, PacketDataValue, MultipartPacketHeader,
}
use socket_io_server_rust.SocketParser.Encoder.{make_placeholder}
use socket_io_server_rust.SocketParser.Decoder as Decoder
use socket_io_server_rust.Nom.{Combinators}
use socket_io_server_rust.Nom.Model.{model}
use socket_io_server_rust.EngineParser.Packet as Engine
use socket_io_server_rust.EngineServer.Util.{TransportKind, get', RequestContext}
use socket_io_server_rust.SocketServer.Server.State.{Shared}
use socket_io_server_rust.SocketServer.Server.Messages.{handle_new_message}
use socket_io_server_rust.SocketServer.Server.Connecting.{after, handle_new_message-connections}
use socket_io_server_rust.SocketServer.Storage.{Storage}
use socket_io_server_rust.SocketServer.Socket.{Handshake}
use socket_io_server_rust.SocketServer.Namespace.{SimpleNamespace}
use socket_io_server_rust.SocketServer.Connection.{
  added, done, in_progress, Connection, initialize, add_to_namespace, set_decoder, handle_packet,
  find, iter_socket_ids_mut,
}
use socket_io_server_rust.SocketServer.Attachments.{feed, assembled, feed-set_decoder}
use socket_io_server_rust.SocketServer.Server.Operations.{handle_engine_socket_close}
use socket_io_server_rust.SocketServer.Server.Closing.{handle_engine_socket_close-forgets}
use socket_io_server_rust.SocketServer.Joining.{joins, receives, performs, performs-initialize}

abbrev pub json : Json
json = record {
  Number = ℕ;
  as_u64 = λ n. some n;
  from_u64 = λ n. n;
  as_u64-from = λ n h. refl;
  to_string = λ _. [];
  from_str = λ _. some (JsonValue.object JsonObject.end);
}

-- `["a", {"_placeholder": true, "num": 0}, {"_placeholder": true, "num": 1}]`, two attachments
abbrev header : MultipartPacketHeader ℕ
header = record {
  packet_type = BinaryPacketType.binary_event;
  id = none;
  nsp = some (chars "/");
  data' = JsonValue.array (
      JsonArray.item (JsonValue.string (chars "a")) (
        JsonArray.item (make_placeholder json 0)
          (JsonArray.item (make_placeholder json 1) JsonArray.no_items)));
  attachments_count = 2;
}

abbrev idle : Connection json
idle = record { id = chars "a"; sockets = []; namespaces = []; decoder = none }

feed-set_decoder_example :
    feed ((1 ∷ []) ∷ (2 ∷ []) ∷ []) (set_decoder (Decoder.new json header) idle).1
    ≡ (ok in_progress ∷ ok (done (assembled json header ((1 ∷ []) ∷ (2 ∷ []) ∷ []))) ∷ [], idle)
feed-set_decoder_example = feed-set_decoder header ((1 ∷ []) ∷ []) (2 ∷ []) idle refl refl

abbrev pub storage : Storage ℕ
storage = record {
  State = List Str;
  new = [];
  add_all = λ socket_id rooms s. rooms;
  del = λ socket_id room s. [];
  broadcast = λ packet rooms flags s. (ok tt, s);
}

abbrev handshake : Handshake ℕ
handshake = record {
  headers = [];
  address = "";
  xdomain = false;
  secure = false;
  issued = 0;
  url = "/";
  query = [];
  auth = PacketDataValue.null;
}

abbrev pub main : SimpleNamespace storage
main = record { name = chars "/"; socket_ids = []; rooms = []; events = [] }

abbrev joined : Connection json
unfolding initialize
joined =
    performs json storage (joins (chars "t") handshake main ∷ receives (1 ∷ []) ∷ [])
      (initialize storage (chars "s") (chars "e") handshake main).2

performs-initialize_example :
    ((id : Str) (h : Handshake ℕ) (ns : SimpleNamespace storage)
      → (add_to_namespace storage id h ns joined).0 ≡ added id)
    × ((packet : Packet ℕ) → handle_packet packet joined ≡ ok tt)
unfolding joined
performs-initialize_example =
    performs-initialize json storage (chars "s") (chars "e") handshake main
      (joins (chars "t") handshake main ∷ receives (1 ∷ []) ∷ [])

abbrev context : RequestContext
context = record {
  query = [];
  headers = [];
  origin = none;
  secure = false;
  user_agent = "";
  content_type = "";
  transport_kind = TransportKind.polling;
  http_method = get';
  remote_address = "";
  request_url = "/";
  set_cookie = none;
}

abbrev server : Shared json storage
server = record {
  namespaces = (chars "/", main) ∷ [];
  connections = [];
  connection_lookup = [];
  dynamic_namespaces = [];
  events = [];
  closed_sockets = [];
  responses = [];
}

abbrev nom : Combinators Engine.Packet
nom = model

-- A connect packet for the main namespace.
handle_new_message-connections_example :
    (after (
      handle_new_message nom
        (chars "s")
        0
        context
        (chars "e")
        (Engine.PacketData.text (chars "0{}"))
        server)).connections
    ≡ []
handle_new_message-connections_example =
    handle_new_message-connections nom (chars "s") 0 context (chars "e")
      (Engine.PacketData.text (chars "0{}")) server refl

-- A connection with one socket.
abbrev client : Connection json
unfolding initialize
client = (initialize storage (chars "s") (chars "e") handshake main).2

abbrev busy : Shared json storage
busy = record server {
  connections = (chars "e", client) ∷ (chars "f", idle) ∷ [];
  connection_lookup = (chars "s", chars "e") ∷ [];
}

handle_engine_socket_close-forgets_example :
    (find (chars "e") (handle_engine_socket_close (chars "e") busy).connections ≡ none)
    × ((find (chars "s") (handle_engine_socket_close (chars "e") busy).connection_lookup ≡ none)
        × Unit {0})
    × (find (chars "f") (handle_engine_socket_close (chars "e") busy).connections ≡ some idle)
unfolding iter_socket_ids_mut client
handle_engine_socket_close-forgets_example =
    handle_engine_socket_close-forgets (chars "e") busy client (chars "f") refl refl
