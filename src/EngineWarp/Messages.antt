-- ===== src/EngineWarp/Messages.antt =====
-- engine_io_warp/src/websocket.rs: what the reading task of a WebSocket makes of its messages.
use socket_io_server_rust.Prelude.{
  ◌≤◌, ◌≡◌, refl, ap, inl, inr, List, [], ◌∷◌, ◌++◌, map, length, All, NoDigitFirst, Outcome, arith,
}
use socket_io_server_rust.Nom.{Combinators}
use socket_io_server_rust.EngineParser.Base64.{Base64}
use socket_io_server_rust.EngineParser.Packet.{
  Packet, PacketData, PacketType, text, binary, empty, ParsePacketError,
}
use socket_io_server_rust.EngineParser.Decoder.{Encoded}
use socket_io_server_rust.EngineParser.Decoder
use socket_io_server_rust.EngineParser.Binary.Single.{packet_reply, decode_binary_packet-encode}
use socket_io_server_rust.EngineParser.StringFormat.{data_string}
use socket_io_server_rust.EngineParser.StringFormat.Single.{decode_string_packet-encode}
use socket_io_server_rust.EngineServer.Util.{RequestContext}
use socket_io_server_rust.EngineServer.Transport.{TransportEvent}
use socket_io_server_rust.EngineWarp.Polling.{packet_event}
use socket_io_server_rust.EngineWarp.WebSocket.{
  Message, Frame, frame, failed, forward_packet, subscribe_to_websocket_messages, binary_message,
  text_message,
}
use socket_io_server_rust.EngineParser.Answers.{Answers, decode_packet-Answers}

module _ (nom : Combinators Packet) where
  Ends : RequestContext → List Frame → List TransportEvent → Type 0
  Ends context frames events =
      (ps : List Packet) × (events ≡ map (packet_event context) ps ++ TransportEvent.close ∷ [])
      × (length ps ≤ length frames)

  forward_packet-Ends :
      (context : RequestContext) (m : Message) (frames : List Frame)
      (o : Outcome ParsePacketError Packet) (rest : List TransportEvent)
      → Answers o
      → Ends context frames rest
      → Ends context (frame m ∷ frames) (forward_packet context o rest)
  unfolding Ends
  forward_packet-Ends context m frames o rest (inl (p, e)) (ps, same, le) =
      rw e (p ∷ ps, ap (λ l. TransportEvent.packet context p ∷ l) same, omega (arith, le))
  forward_packet-Ends context m frames o rest (inr (p, e)) (ps, same, le) =
      rw e (ps, same, omega (arith, le))

  -- Whatever the messages of the socket are, the task ends, and it sends packets, no more of them
  -- than there are messages, and then `Close`, once and last: no message makes it panic.
  pub subscribe_to_websocket_messages-close :
      (context : RequestContext) (frames : List Frame)
      → (ps : List Packet) × (subscribe_to_websocket_messages nom context frames
          ≡ map (packet_event context) ps ++ TransportEvent.close ∷ [])
        × (length ps ≤ length frames)
  unfolding subscribe_to_websocket_messages Ends
  subscribe_to_websocket_messages-close context [] = ([], refl, omega arith)
  subscribe_to_websocket_messages-close context (failed ∷ frames) = ([], refl, omega arith)
  subscribe_to_websocket_messages-close context (frame Message.close ∷ frames) =
      ([], refl, omega arith)
  subscribe_to_websocket_messages-close context (frame Message.other ∷ frames) =
      let (ps, same, le) = subscribe_to_websocket_messages-close context frames in
      (ps, same, omega (arith, le))
  subscribe_to_websocket_messages-close context (frame (Message.binary b) ∷ frames) =
      forward_packet-Ends context (Message.binary b) frames _ _
        (decode_packet-Answers nom (Encoded.binary b))
        (subscribe_to_websocket_messages-close context frames)
  subscribe_to_websocket_messages-close context (frame (Message.text s) ∷ frames) =
      forward_packet-Ends context (Message.text s) frames _ _
        (decode_packet-Answers nom (Encoded.text s))
        (subscribe_to_websocket_messages-close context frames)

module _ (nom : Combinators Packet) (base64 : Base64) where
  abbrev as_text : Packet → Packet
  as_text p = record { packet_type = p.packet_type; data' = text (data_string base64 p.data') }

  -- Packets sent as text messages reach a peer that runs this transport in order, each with its type
  -- and, for its data, the text that was sent, if that text does not begin with a digit.
  pub subscribe_to_websocket_messages-text :
      (context : RequestContext) (ps : List Packet)
      → All (λ p. NoDigitFirst (data_string base64 p.data')) ps
      → subscribe_to_websocket_messages nom context (map frame (map (text_message base64) ps))
        ≡ map (packet_event context) (map as_text ps) ++ TransportEvent.close ∷ []
  unfolding subscribe_to_websocket_messages Decoder.decode_packet
  subscribe_to_websocket_messages-text context [] h = refl
  subscribe_to_websocket_messages-text context (p ∷ ps) (h, all) =
      rw (decode_string_packet-encode nom base64 p h) (
        ap (λ l. TransportEvent.packet context (as_text p) ∷ l)
          (subscribe_to_websocket_messages-text context ps all))

-- The packets with binary data.
abbrev keep_binary : PacketData → Packet → List Packet → List Packet
keep_binary (binary d) p ps = p ∷ ps
keep_binary (text s) p ps = ps
keep_binary empty p ps = ps

abbrev binary_packets : List Packet → List Packet
binary_packets [] = []
binary_packets (p ∷ ps) = keep_binary p.data' p (binary_packets ps)

module _ (nom : Combinators Packet) where
  forward_reply :
      (context : RequestContext) (t : PacketType) (d : PacketData) (ps : List Packet)
      → forward_packet context
          (packet_reply t d)
          (map (packet_event context) ps ++ TransportEvent.close ∷ [])
        ≡ map (packet_event context) (keep_binary d (record { packet_type = t; data' = d }) ps)
          ++ TransportEvent.close ∷ []
  forward_reply context t (binary d) ps = refl
  forward_reply context t (text s) ps = refl
  forward_reply context t empty ps = refl

  -- Of packets sent as binary messages, those with binary data reach a peer that runs this transport,
  -- in order and unchanged, and no other does.
  pub subscribe_to_websocket_messages-binary :
      (context : RequestContext) (ps : List Packet)
      → subscribe_to_websocket_messages nom context (map frame (map binary_message ps))
        ≡ map (packet_event context) (binary_packets ps) ++ TransportEvent.close ∷ []
  unfolding subscribe_to_websocket_messages Decoder.decode_packet
  subscribe_to_websocket_messages-binary context [] = refl
  subscribe_to_websocket_messages-binary context (p ∷ ps) = rw (decode_binary_packet-encode nom p) (
      rw (subscribe_to_websocket_messages-binary context ps)
        (forward_reply context p.packet_type p.data' (binary_packets ps)))
