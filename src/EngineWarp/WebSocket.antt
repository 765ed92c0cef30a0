-- ===== src/EngineWarp/WebSocket.antt =====
-- engine_io_warp/src/websocket.rs: the WebSocket transport. A stream of messages is the list of what
-- it yields until it ends; the abort of a task by `Drop` is not modelled. A broadcast channel is what
-- is sent on it.
use socket_io_server_rust.Prelude.{
  ◌≡◌, Bool, true, if◌then◌else◌, List, [], ◌∷◌, ◌++◌, map, Str, Bytes, Outcome, ok, err, panic,
}
use socket_io_server_rust.Nom.{Combinators}
use socket_io_server_rust.EngineParser.Base64.{Base64}
use socket_io_server_rust.EngineParser.Packet.{Packet, ParsePacketError}
use socket_io_server_rust.EngineParser.Decoder
use socket_io_server_rust.EngineParser.Decoder.{Encoded}
use socket_io_server_rust.EngineParser.Binary
use socket_io_server_rust.EngineParser.StringFormat
use socket_io_server_rust.EngineServer.Util.{RequestContext}
use socket_io_server_rust.EngineServer.Transport.{WebsocketTransportOptions, TransportEvent}

-- `warp::ws::Message`; the others are pings and pongs.
pub data Message : Type 0 where
  binary : Bytes → Message
  text : Str → Message
  close other : Message

-- What the stream yields: `Ok(message)`, or an error.
pub data Frame : Type 0 where
  frame : Message → Frame
  failed : Frame

pub record WarpWebsocketTransport : Type 0 where
  pub options : WebsocketTransportOptions

-- `WarpWebsocketTransport::new`, less the tasks that it spawns.
unfoldable pub new : WebsocketTransportOptions → WarpWebsocketTransport
new options = record { options = options }

unfoldable pub is_writable : WarpWebsocketTransport → Bool
is_writable transport = true

-- What the rest of the loop sends comes behind what the message sends; a panic ends the task.
abbrev pub forward_packet :
    RequestContext → Outcome ParsePacketError Packet → List TransportEvent → List TransportEvent
forward_packet context (ok packet) rest = TransportEvent.packet context packet ∷ rest
forward_packet context (err _) rest = rest
forward_packet context panic rest = []

unfoldable pub subscribe_to_websocket_messages :
    Combinators Packet → RequestContext → List Frame → List TransportEvent
unfolding Decoder.decode_packet
subscribe_to_websocket_messages nom context [] = TransportEvent.close ∷ []
subscribe_to_websocket_messages nom context (failed ∷ frames) = TransportEvent.close ∷ []
subscribe_to_websocket_messages nom context (frame close ∷ frames) = TransportEvent.close ∷ []
subscribe_to_websocket_messages nom context (frame other ∷ frames) =
    subscribe_to_websocket_messages nom context frames
subscribe_to_websocket_messages nom context (frame (binary bytes) ∷ frames) =
    forward_packet context (Decoder.decode_packet nom (Encoded.binary bytes))
      (subscribe_to_websocket_messages nom context frames)
subscribe_to_websocket_messages nom context (frame (text str) ∷ frames) =
    forward_packet context (Decoder.decode_packet nom (Encoded.text str))
      (subscribe_to_websocket_messages nom context frames)

abbrev pub binary_message : Packet → Message
binary_message packet = binary (Binary.encode_packet packet)

abbrev pub text_message : Base64 → Packet → Message
text_message base64 packet = text (StringFormat.encode_packet base64 packet)

-- The sending half of the socket, of the crates `warp` and `futures`. `received` is what the other side
-- has got. As the documentation has it, `forward` sends the messages of a stream in order, and closes
-- the sink behind the last; a closed sink takes no message, and answers one with an error.
pub record Sink : Type 1 where
  pub State : Type 0
  pub Error : Type 0
  pub is_closed : State → Bool
  pub received : State → List Message
  pub forward : List Message → State → Outcome Error Unit × State
  pub forward_sends :
      (ms : List Message) (s : State)
      → (forward ms s).0 ≡ ok tt
      → received (forward ms s).1 ≡ received s ++ ms
  pub forward_closes :
      (ms : List Message) (s : State) → (forward ms s).0 ≡ ok tt → is_closed (forward ms s).1 ≡ true
  pub forward_closed :
      (m : Message) (ms : List Message) (s : State)
      → is_closed s ≡ true
      → ((e : Error) × ((forward (m ∷ ms) s).0 ≡ err e))
        × (is_closed (forward (m ∷ ms) s).1 ≡ true)
        × (received (forward (m ∷ ms) s).1 ≡ received s)

module _ (base64 : Base64) (sink : Sink) where
  unfoldable pub send_packets :
      List Packet → WebsocketTransportOptions → sink.State → Outcome sink.Error Unit × sink.State
  send_packets packets options sender =
      if options.supports_binary
      then sink.forward (map binary_message packets) sender
      else sink.forward (map (text_message base64) packets) sender

  -- The commands of the channel, one after the other; a failure is only printed. The answers of
  -- `send_packets` are the result.
  unfoldable pub subscribe_to_socket_commands :
      WebsocketTransportOptions
      → List (List Packet)
      → sink.State
      → List (Outcome sink.Error Unit) × sink.State
  unfolding send_packets
  subscribe_to_socket_commands options [] sender = ([], sender)
  subscribe_to_socket_commands options (packets ∷ commands) sender =
      let (sent, next) = send_packets packets options sender in
      let (others, last) = subscribe_to_socket_commands options commands next in
      (sent ∷ others, last)
