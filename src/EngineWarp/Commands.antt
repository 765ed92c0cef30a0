-- ===== src/EngineWarp/Commands.antt =====
-- engine_io_warp/src/websocket.rs: what the writing task of a WebSocket makes of its commands.
use socket_io_server_rust.Prelude.{
  ◌≡◌, suc, ap, sym, refl, ◌∙◌, ◌++◌, Bool, true, false, length, Bool-cases, inl, inr, List, [],
  ◌∷◌, map, All, Outcome, ok, err,
}
use socket_io_server_rust.EngineParser.Base64.{Base64}
use socket_io_server_rust.EngineParser.Packet.{Packet}
use socket_io_server_rust.EngineServer.Transport.{WebsocketTransportOptions}
use socket_io_server_rust.EngineWarp.WebSocket.{
  Message, binary_message, text_message, Sink, send_packets, subscribe_to_socket_commands,
}

abbrev IsSome : List Packet → Type 0
IsSome [] = ⊥
IsSome (p ∷ ps) = Unit

module _ (base64 : Base64) (sink : Sink) where
  abbrev pub Refused : Outcome sink.Error Unit → Type 0
  Refused o = (e : sink.Error) × (o ≡ err e)

  -- The messages of packets, for a client that takes binary ones or for one that does not.
  abbrev pub messages : Bool → List Packet → List Message
  messages true packets = map binary_message packets
  messages false packets = map (text_message base64) packets

  send_packets_lem :
      (options : WebsocketTransportOptions) (packets : List Packet) (sender : sink.State)
      → send_packets base64 sink packets options sender
        ≡ sink.forward (messages options.supports_binary packets) sender
  unfolding send_packets
  send_packets_lem options packets sender = elim (Bool-cases options.supports_binary) [
    | inl b ↦ rw b refl
    | inr b ↦ rw b refl
  ]

  -- What a closed socket makes of packets: an error, and it is what it was.
  abbrev Rejects : Bool → List Packet → sink.State → Type 0
  Rejects binary packets sender =
      Refused (sink.forward (messages binary packets) sender).0
      × (sink.is_closed (sink.forward (messages binary packets) sender).1 ≡ true)
      × (sink.received (sink.forward (messages binary packets) sender).1 ≡ sink.received sender)

  forward-Rejects :
      (binary : Bool) (packets : List Packet) (sender : sink.State)
      → IsSome packets
      → sink.is_closed sender ≡ true
      → Rejects binary packets sender
  forward-Rejects binary [] sender h closed = absurd h
  forward-Rejects true (p ∷ ps) sender h closed =
      sink.forward_closed (binary_message p) (map binary_message ps) sender closed
  forward-Rejects false (p ∷ ps) sender h closed =
      sink.forward_closed (text_message base64 p) (map (text_message base64) ps) sender closed

  -- On a closed socket: every command has its answer, an error, and the other side gets nothing.
  all-Refused :
      (options : WebsocketTransportOptions) (commands : List (List Packet)) (sender : sink.State)
      → All IsSome commands
      → sink.is_closed sender ≡ true
      → All Refused (subscribe_to_socket_commands base64 sink options commands sender).0
        × (length (subscribe_to_socket_commands base64 sink options commands sender).0
            ≡ length commands)
        × (sink.received (subscribe_to_socket_commands base64 sink options commands sender).1
            ≡ sink.received sender)
  unfolding subscribe_to_socket_commands
  all-Refused options [] sender h closed = (tt, refl, refl)
  all-Refused options (packets ∷ commands) sender (h, all) closed =
      let next = sink.forward (messages options.supports_binary packets) sender in
      let (refused, still, same) =
        forward-Rejects options.supports_binary packets sender h closed in
      let (others, count, got) = all-Refused options commands next.1 all still in
      rw (send_packets_lem options packets sender)
        ((refused, others), ap (λ n. suc n) count, got ∙ same)

  -- After the first command whose packets are sent, every command with packets is answered by an error,
  -- and the other side gets the messages of the first command, in the format that it takes, and no
  -- other: sending a stream of messages by `forward` closes the socket behind them.
  pub subscribe_to_socket_commands_once :
      (options : WebsocketTransportOptions) (first : List Packet) (commands : List (List Packet))
      (sender : sink.State)
      → (send_packets base64 sink first options sender).0 ≡ ok tt
      → All IsSome commands
      → (rest : List (Outcome sink.Error Unit)) × ((subscribe_to_socket_commands base64 sink options
            (first ∷ commands)
            sender).0
          ≡ ok tt ∷ rest)
        × All Refused rest
        × (length rest ≡ length commands)
        × (sink.received
              (subscribe_to_socket_commands base64 sink options (first ∷ commands) sender).1
            ≡ sink.received sender ++ messages options.supports_binary first)
  unfolding subscribe_to_socket_commands
  subscribe_to_socket_commands_once options first commands sender sent all =
      let forwarded = messages options.supports_binary first in
      let good = ap (λ r. r.0) (sym (send_packets_lem options first sender)) ∙ sent in
      let next = (sink.forward forwarded sender).1 in
      let (refused, count, got) =
        all-Refused options commands next all (sink.forward_closes forwarded sender good) in
      (
        (subscribe_to_socket_commands base64 sink options commands next).0,
        rw (send_packets_lem options first sender)
            (ap (λ o. o ∷ (subscribe_to_socket_commands base64 sink options commands next).0) good),
        refused,
        count,
        rw (send_packets_lem options first sender) (got ∙ sink.forward_sends forwarded sender good),
      )
