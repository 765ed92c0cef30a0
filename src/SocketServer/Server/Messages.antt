-- ===== src/SocketServer/Server/Messages.antt =====
-- socket_io_server/src/server.rs: the messages of a client.
use socket_io_server_rust.Prelude.{
  ℕ, Bool, true, false, if◌then◌else◌, none, some, [], ◌∷◌, ◌++◌, Str, Outcome, ok, err, panic,
}
use socket_io_server_rust.Nom.{Combinators}
use socket_io_server_rust.EngineParser.Packet as Engine
use socket_io_server_rust.EngineServer.Util.{RequestContext}
use socket_io_server_rust.SocketParser.Json.{Json, chars}
use socket_io_server_rust.SocketParser.Packet.{
  PacketType, PacketDataValue, ValueObject, Packet, ProtoPacket, header_has_attachments,
}
use socket_io_server_rust.SocketParser.Encoder.{encode_packet, engine_packets}
use socket_io_server_rust.SocketParser.Decoder as Decoder
use socket_io_server_rust.SocketParser.Parsing as Parsing
use socket_io_server_rust.SocketParser.Parsing.{HandleEngineMessageError}
use socket_io_server_rust.SocketServer.Storage.{Storage}
use socket_io_server_rust.SocketServer.Namespace.{SimpleNamespace}
use socket_io_server_rust.SocketServer.Connection.{
  Connection, DecodeBinarySuccess, done, in_progress, DecodeError, find, insert, decode_binary_data,
  set_decoder, handle_packet,
}
use socket_io_server_rust.SocketServer.Server.State.{error, Shared, Run, returns, panics, ◌>>=◌}
use socket_io_server_rust.SocketServer.Server.Operations.{
  namespace_exists, get_matching_dynamic_namespace, connect_client,
}

abbrev pub connect_error : {N : Type 0} → Str → Packet N
connect_error namespace_name = record {
  packet_type = PacketType.connect_error;
  nsp = namespace_name;
  data' = PacketDataValue.object (
      ValueObject.entry (chars "message") (PacketDataValue.string (chars "Invalid namespace"))
        ValueObject.end);
  id = none;
}

abbrev pub connected : {N : Type 0} → Str → Str → Packet N
connected name socket_id = record {
  packet_type = PacketType.connect;
  id = none;
  nsp = name;
  data' =
      PacketDataValue.object
        (ValueObject.entry (chars "sid") (PacketDataValue.string socket_id) ValueObject.end);
}

abbrev pub is_connect : PacketType → Bool
is_connect PacketType.connect = true
is_connect _ = false

module _ {json : Json} {storage : Storage json.Number} where
  abbrev pub connect_answer :
      Run json storage (SimpleNamespace storage × Str) → Run json storage (Packet json.Number)
  connect_answer r = do ((ns, socket_id), s) ← r; returns (connected ns.name socket_id, s)

  unfoldable pub handle_client_connect :
      Str
      → ℕ
      → RequestContext
      → Str
      → Str
      → PacketDataValue json.Number
      → Shared json storage
      → Run json storage (Packet json.Number)
  unfolding namespace_exists get_matching_dynamic_namespace connect_client
  handle_client_connect new_id time context namespace_name engine_connection_id auth s =
      let (matched, s') = get_matching_dynamic_namespace namespace_name auth s in
      if namespace_exists namespace_name s
      then connect_answer
          (connect_client new_id time context namespace_name engine_connection_id auth s)
      else if matched
      then connect_answer
          (connect_client new_id time context namespace_name engine_connection_id auth s')
      else returns (connect_error namespace_name, s')

  -- What `connection.handle_packet(packet)` ends as.
  abbrev pub handled_run : Outcome {0} Unit Unit → Shared json storage → Run json storage Unit
  handled_run (ok _) s = returns (tt, s)
  handled_run (err _) s = returns (tt, s)
  handled_run panic s = panics s

  unfoldable pub respond : Packet json.Number → Shared json storage → Shared json storage
  unfolding encode_packet engine_packets
  respond packet s = record s {
    responses = s.responses ++ engine_packets (encode_packet json packet) ∷ [];
  }

  unfoldable pub handle_packet_from_client :
      Str
      → ℕ
      → RequestContext
      → Str
      → Packet json.Number
      → Shared json storage
      → Run json storage Unit
  unfolding handle_client_connect respond handle_packet
  handle_packet_from_client new_id time context engine_connection_id packet s =
      if is_connect packet.packet_type
      then (do
        (connect_packet, s) ←
            handle_client_connect new_id time context packet.nsp engine_connection_id packet.data' s
        returns (tt, respond connect_packet s))
      else elim (find engine_connection_id s.connections) [
        | some connection ↦ handled_run (handle_packet packet connection) s
        | none ↦ returns (tt, s)
      ]

  abbrev pub with_connection : Str → Connection json → Shared json storage → Shared json storage
  with_connection id connection s = record s { connections = insert id connection s.connections }

  abbrev pub send_error : Str → Shared json storage → Shared json storage
  send_error message s = record s { events = s.events ++ error message ∷ [] }

  -- A header with attachments, for a connection.
  abbrev pub wait_for :
      Str → Outcome DecodeError Unit × Connection json → Shared json storage → Run json storage Unit
  wait_for id (ok _, connection) s = returns (tt, with_connection id connection s)
  wait_for id (err _, connection) s =
      returns (tt, send_error (chars "sequence error") (with_connection id connection s))
  wait_for id (panic, connection) s = panics (with_connection id connection s)

  unfoldable pub on_proto_packet :
      Str
      → ℕ
      → RequestContext
      → Str
      → Outcome HandleEngineMessageError (ProtoPacket json.Number)
      → Shared json storage
      → Run json storage Unit
  unfolding handle_packet_from_client set_decoder header_has_attachments Decoder.new
  on_proto_packet new_id time context id (ok (ProtoPacket.multipart header)) s =
      if header_has_attachments header
      then elim (find id s.connections) [
        | some connection ↦ wait_for id (set_decoder (Decoder.new json header) connection) s
        | none ↦ returns (tt, s)
      ]
      else returns (tt, s)
  on_proto_packet new_id time context id (ok (ProtoPacket.plain packet)) s =
      handle_packet_from_client new_id time context id packet s
  on_proto_packet new_id time context id (err _) s = returns (tt, send_error (chars "Bad packet") s)
  on_proto_packet new_id time context id panic s = panics s

  -- What the connection answered to an attachment.
  unfoldable pub on_attachment :
      Str
      → ℕ
      → RequestContext
      → Str
      → Outcome DecodeError (DecodeBinarySuccess json.Number) × Connection json
      → Shared json storage
      → Run json storage Unit
  unfolding handle_packet_from_client
  on_attachment new_id time context id (ok (done packet), connection) s =
      handle_packet_from_client new_id time context id packet (with_connection id connection s)
  on_attachment new_id time context id (ok in_progress, connection) s =
      returns (tt, with_connection id connection s)
  on_attachment new_id time context id (err _, connection) s =
      returns (tt, with_connection id connection s)
  on_attachment new_id time context id (panic, connection) s =
      panics (with_connection id connection s)

  unfoldable pub handle_new_message :
      {O : Type 0}
      → Combinators O
      → Str
      → ℕ
      → RequestContext
      → Str
      → Engine.PacketData
      → Shared json storage
      → Run json storage Unit
  unfolding on_proto_packet on_attachment decode_binary_data Parsing.decode_proto_packet
  handle_new_message nom new_id time context id (Engine.PacketData.text t) s =
      on_proto_packet new_id time context id (Parsing.decode_proto_packet json nom t) s
  handle_new_message nom new_id time context id (Engine.PacketData.binary buffer) s =
      elim (find id s.connections) [
        | some connection ↦
            on_attachment new_id time context id (decode_binary_data buffer connection) s
        | none ↦ returns (tt, s)
      ]
  handle_new_message nom new_id time context id Engine.PacketData.empty s = returns (tt, s)
