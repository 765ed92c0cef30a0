-- ===== src/SocketServer/Joining.antt =====
-- socket_io_server/src/connection.rs: a connection that joins namespaces.
use socket_io_server_rust.Prelude.{
  Bool, true, false, Option, none, some, List, [], ◌∷◌, Str, Bytes, Outcome, ok, err, panic, ◌≡◌,
  refl, ◌∙◌,
}
use socket_io_server_rust.SocketParser.Json.{Json}
use socket_io_server_rust.SocketParser.Packet.{Packet}
use socket_io_server_rust.SocketParser.Decoder.{DefaultDecoder}
use socket_io_server_rust.SocketParser.Decoder as Decoder
use socket_io_server_rust.SocketParser.Parsing as Parsing
use socket_io_server_rust.SocketServer.Storage.{Storage}
use socket_io_server_rust.SocketServer.Socket.{Handshake}
use socket_io_server_rust.SocketServer.Socket as Sockets
use socket_io_server_rust.SocketServer.Namespace.{SimpleNamespace}
use socket_io_server_rust.SocketServer.Connection.{
  added, Connection, initialize, create_socket, add_to_namespace, decode_binary_data, decoded,
  set_decoder, handle_packet,
}

module _ (json : Json) (storage : Storage json.Number) where
  -- What reaches a connection between its making and its end.
  pub data Step : Type 0 where
    joins : Str → Handshake json.Number → SimpleNamespace storage → Step
    receives : Bytes → Step
    waits : DefaultDecoder json → Step

  pub perform : Step → Connection json → Connection json
  unfolding add_to_namespace decode_binary_data set_decoder
  perform (joins new_id handshake ns) c = (add_to_namespace storage new_id handshake ns c).2
  perform (receives buffer) c = (decode_binary_data buffer c).1
  perform (waits decoder) c = (set_decoder decoder c).1

  abbrev pub performs : List Step → Connection json → Connection json
  performs [] c = c
  performs (step ∷ steps) c = performs steps (perform step c)

  decoded-namespaces :
      (r : Outcome Parsing.HandleEngineMessageError Bool) (d : DefaultDecoder json)
      (c : Connection json)
      → (decoded (r, d) c).1.namespaces ≡ c.namespaces
  unfolding decoded
  decoded-namespaces (ok true) d c = refl
  decoded-namespaces (ok false) d c = refl
  decoded-namespaces (err e) d c = refl
  decoded-namespaces panic d c = refl

  receives-namespaces :
      (o : Option (DefaultDecoder json)) (buffer : Bytes) (c : Connection json)
      → c.decoder ≡ o
      → (decode_binary_data buffer c).1.namespaces ≡ c.namespaces
  unfolding decode_binary_data
  receives-namespaces (some d) buffer c e = rw (e) (
      decoded-namespaces (Decoder.decode_binary_data json d buffer).0
        (Decoder.decode_binary_data json d buffer).1 (record c { decoder = none }))
  receives-namespaces none buffer c e = rw (e) (refl)

  waits-namespaces :
      (o : Option (DefaultDecoder json)) (decoder : DefaultDecoder json) (c : Connection json)
      → c.decoder ≡ o
      → (set_decoder decoder c).1.namespaces ≡ c.namespaces
  unfolding set_decoder
  waits-namespaces (some d) decoder c e = rw (e) (refl)
  waits-namespaces none decoder c e = rw (e) (refl)

  perform-namespaces :
      (step : Step) (c : Connection json) → c.namespaces ≡ [] → (perform step c).namespaces ≡ []
  unfolding perform add_to_namespace create_socket decode_binary_data set_decoder
  perform-namespaces (joins new_id handshake ns) c e = rw (e) (refl)
  perform-namespaces (receives buffer) c e = receives-namespaces c.decoder buffer c refl ∙ e
  perform-namespaces (waits decoder) c e = waits-namespaces c.decoder decoder c refl ∙ e

  performs-namespaces :
      (steps : List Step) (c : Connection json)
      → c.namespaces ≡ []
      → (performs steps c).namespaces ≡ []
  performs-namespaces [] c e = e
  performs-namespaces (step ∷ steps) c e =
      performs-namespaces steps (perform step c) (perform-namespaces step c e)

  unrecorded :
      (c : Connection json)
      → c.namespaces ≡ []
      → ((id : Str) (h : Handshake json.Number) (ns : SimpleNamespace storage)
          → (add_to_namespace storage id h ns c).0 ≡ added id)
        × ((packet : Packet json.Number) → handle_packet packet c ≡ ok tt)
  unfolding add_to_namespace create_socket handle_packet Sockets.new
  unrecorded c e = ((λ id h ns. rw (e) (refl)), (λ packet. rw (e) (refl)))

  -- Whatever a connection has joined and received, it records no namespace: it answers each further
  -- call to join one, the same or another, with a new socket, and ignores every packet.
  pub performs-initialize :
      (new_id engine_connection_id : Str) (handshake : Handshake json.Number)
      (ns : SimpleNamespace storage) (steps : List Step)
      → (let c = performs steps (initialize storage new_id engine_connection_id handshake ns).2 in
          ((id : Str) (h : Handshake json.Number) (ns' : SimpleNamespace storage)
            → (add_to_namespace storage id h ns' c).0 ≡ added id)
          × ((packet : Packet json.Number) → handle_packet packet c ≡ ok tt))
  unfolding initialize create_socket
  performs-initialize new_id engine_connection_id handshake ns steps = unrecorded _ (
      performs-namespaces steps (initialize storage new_id engine_connection_id handshake ns).2
        refl)
