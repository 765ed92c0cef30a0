-- ===== src/SocketServer/Connection.antt =====
-- socket_io_server/src/connection.rs: the sockets of one engine.io connection, and its decoder, with
-- the default one of the parser. A namespace that is shared is passed along; a map is an association
-- list; the identifier of a new socket is an argument.
use socket_io_server_rust.Prelude.{
  Bool, true, false, if◌then◌else◌, Option, none, some, List, [], ◌∷◌, map, Str, Bytes, Outcome, ok,
  err, panic,
}
use socket_io_server_rust.SocketParser.Json.{Json, same}
use socket_io_server_rust.SocketParser.Packet.{Packet}
use socket_io_server_rust.SocketParser.Decoder as Decoder
use socket_io_server_rust.SocketParser.Parsing.{HandleEngineMessageError}
use socket_io_server_rust.SocketParser.Decoder.{DefaultDecoder}
use socket_io_server_rust.SocketServer.Storage.{Storage}
use socket_io_server_rust.SocketServer.Socket as Sockets
use socket_io_server_rust.SocketServer.Socket.{Socket, Handshake}
use socket_io_server_rust.SocketServer.Namespace.{SimpleNamespace, add_socket}

pub data AddToNamespaceSuccess : Type 0 where
  added already_existing : Str → AddToNamespaceSuccess

pub data DecodeBinarySuccess (N : Type 0) : Type 0 where
  done : Packet N → DecodeBinarySuccess N
  in_progress : DecodeBinarySuccess N

pub data DecodeError : Type 0 where
  invalid_decoder_state : DecodeError
  decode_failed : HandleEngineMessageError → DecodeError

module _ {V : Type 0} where
  abbrev pub find : Str → List (Str × V) → Option V
  find k [] = none
  find k ((j, v) ∷ m) = if same j k then some v else find k m

  abbrev pub delete : Str → List (Str × V) → List (Str × V)
  delete k [] = []
  delete k ((j, v) ∷ m) = if same j k then delete k m else (j, v) ∷ delete k m

  abbrev pub insert : Str → V → List (Str × V) → List (Str × V)
  insert k v m = (k, v) ∷ delete k m

-- `namespaces` maps a name to the identifier of the socket in it; the namespace is the one of the
-- name.
pub record Connection (json : Json) : Type 0 where
  pub id : Str
  pub sockets : List (Str × Socket json.Number)
  pub namespaces : List (Str × Str)
  pub decoder : Option (DefaultDecoder json)

module _ {json : Json} (storage : Storage json.Number) where
  unfoldable pub create_socket :
      Str
      → Handshake json.Number
      → SimpleNamespace storage
      → Connection json
      → Str × SimpleNamespace storage × Connection json
  unfolding Sockets.new add_socket
  create_socket new_id handshake ns state =
      let socket = Sockets.new new_id handshake ns.name in
      let socket_id = socket.id in
      (
        socket_id,
        add_socket storage socket_id ns,
        record state { sockets = insert socket_id socket state.sockets },
      )

  unfoldable pub initialize :
      Str
      → Str
      → Handshake json.Number
      → SimpleNamespace storage
      → Str × SimpleNamespace storage × Connection json
  unfolding create_socket
  initialize new_id engine_connection_id handshake ns =
      create_socket new_id handshake ns
        (record { id = engine_connection_id; sockets = []; namespaces = []; decoder = none })

  unfoldable pub add_to_namespace :
      Str
      → Handshake json.Number
      → SimpleNamespace storage
      → Connection json
      → AddToNamespaceSuccess × SimpleNamespace storage × Connection json
  unfolding create_socket
  add_to_namespace new_id handshake ns state = elim (find ns.name state.namespaces) [
    | some socket_id ↦ (already_existing socket_id, ns, state)
    | none ↦
        (let (socket_id, ns, state) = create_socket new_id handshake ns state in
          (added socket_id, ns, state))
  ]

abbrev first : {V : Type 0} → Str × V → Str
first p = p.0

-- `collect_packet().unwrap()`
abbrev pub done_or_panic :
    {N : Type 0} → Option (Packet N) → Outcome DecodeError (DecodeBinarySuccess N)
done_or_panic (some packet) = ok (done packet)
done_or_panic none = panic

-- `socket.handle_packet(packet)` is `todo!()` on every branch.
abbrev pub handled : {N : Type 0} → Option (Socket N) → Outcome {0} Unit Unit
handled (some _) = panic
handled none = ok tt

module _ {json : Json} where
  unfoldable pub iter_socket_ids_mut : Connection json → List Str
  iter_socket_ids_mut c = map first c.sockets

  -- What `decode_binary_data` does with the answer of the decoder, which was taken out.
  unfoldable pub decoded :
      Outcome HandleEngineMessageError Bool × DefaultDecoder json
      → Connection json
      → Outcome DecodeError (DecodeBinarySuccess json.Number) × Connection json
  unfolding Decoder.collect_packet
  decoded (ok true, decoder) c = (done_or_panic (Decoder.collect_packet json decoder), c)
  decoded (ok false, decoder) c = (ok in_progress, record c { decoder = some decoder })
  decoded (err e, decoder) c = (err (decode_failed e), c)
  decoded (panic, decoder) c = (panic, c)

  unfoldable pub decode_binary_data :
      Bytes
      → Connection json
      → Outcome DecodeError (DecodeBinarySuccess json.Number) × Connection json
  unfolding Decoder.decode_binary_data decoded
  decode_binary_data buffer c = elim c.decoder [
    | some decoder ↦
        decoded (Decoder.decode_binary_data json decoder buffer) (record c { decoder = none })
    | none ↦ (err invalid_decoder_state, c)
  ]

  unfoldable pub set_decoder :
      DefaultDecoder json → Connection json → Outcome DecodeError Unit × Connection json
  set_decoder decoder c = elim c.decoder [
    | none ↦ (ok tt, record c { decoder = some decoder })
    | some _ ↦ (err invalid_decoder_state, c)
  ]

  unfoldable pub handle_packet : Packet json.Number → Connection json → Outcome {0} Unit Unit
  handle_packet packet c = elim (find packet.nsp c.namespaces) [
    | some socket_id ↦ handled (find socket_id c.sockets)
    | none ↦ ok tt
  ]
