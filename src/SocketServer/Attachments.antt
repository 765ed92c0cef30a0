-- ===== src/SocketServer/Attachments.antt =====
-- socket_io_server/src/connection.rs: a packet whose attachments arrive one after the other.
use socket_io_server_rust.Prelude.{
  ℕ, ◌+◌, ◌==◌, true, false, none, some, List, [], ◌∷◌, ◌++◌, map, length, length-append,
  append_assoc, Bytes, Outcome, ok, ◌≡◌, refl, sym, ap, ◌∙◌, arith,
}
use socket_io_server_rust.SocketParser.Json.{Json}
use socket_io_server_rust.SocketParser.Packet.{Packet, MultipartPacketHeader, from_binary}
use socket_io_server_rust.SocketParser.Decoder as Decoder
use socket_io_server_rust.SocketParser.Decoder.{
  DefaultDecoder, enumerate, reconstruct_packet_data, or_root,
}
use socket_io_server_rust.SocketServer.Connection.{
  DecodeError, DecodeBinarySuccess, done, in_progress, Connection, decode_binary_data, decoded,
  set_decoder,
}

-- The packet that a header and its attachments make.
abbrev pub assembled :
    (json : Json) → MultipartPacketHeader json.Number → List Bytes → Packet json.Number
unfolding from_binary reconstruct_packet_data
assembled json header buffer = record {
  packet_type = from_binary header.packet_type;
  id = header.id;
  nsp = or_root json header.nsp;
  data' = (reconstruct_packet_data json header.data' (enumerate 0 buffer)).0;
}

eq_refl : (n m : ℕ) → n ≡ m → (n == m) ≡ true
eq_refl n m e = ground arith

eq_less : (n m k : ℕ) → n ≡ m + (k + 1) → (n == m) ≡ false
eq_less n m k e = ground arith

module _ {json : Json} where
  -- The attachments in order, and what each is answered.
  abbrev pub feed :
      List Bytes
      → Connection json
      → List (Outcome DecodeError (DecodeBinarySuccess json.Number)) × Connection json
  feed [] c = ([], c)
  feed (b ∷ bs) c =
      let r = decode_binary_data b c in let rest = feed bs r.1 in (r.0 ∷ rest.0, rest.1)

  collect_packet_lem :
      (d : DefaultDecoder json)
      → d.header.attachments_count ≡ length d.buffer
      → Decoder.collect_packet json d ≡ some (assembled json d.header d.buffer)
  unfolding Decoder.collect_packet
  collect_packet_lem d e =
      rw (eq_refl d.header.attachments_count (length d.buffer) e, Decoder.can_collect) (refl)

  decode_last :
      (d : DefaultDecoder json) (b : Bytes) (c : Connection json)
      → d.header.attachments_count ≡ length d.buffer + 1
      → decode_binary_data b (record c { decoder = some d })
        ≡ (ok (done (assembled json d.header (d.buffer ++ b ∷ []))), record c { decoder = none })
  unfolding decode_binary_data decoded Decoder.decode_binary_data Decoder.can_collect
      Decoder.collect_packet from_binary
  decode_last d b c e =
      let l : length (d.buffer ++ b ∷ []) ≡ length d.buffer + 1 = length-append d.buffer (b ∷ []) in
      rw
        (
          eq_less d.header.attachments_count (length d.buffer) 0 e,
          eq_refl d.header.attachments_count (length (d.buffer ++ b ∷ [])) (e ∙ sym l),
          Decoder.decode_binary_data,
          Decoder.can_collect,
          decoded,
          collect_packet_lem (record d { buffer = d.buffer ++ b ∷ [] }) (e ∙ sym l),
        )
        (refl)

  decode_other :
      (d : DefaultDecoder json) (k : ℕ) (b : Bytes) (c : Connection json)
      → d.header.attachments_count ≡ length d.buffer + (k + 2)
      → decode_binary_data b (record c { decoder = some d })
        ≡ (ok in_progress, record c { decoder = some (record d { buffer = d.buffer ++ b ∷ [] }) })
  unfolding decode_binary_data decoded Decoder.decode_binary_data Decoder.can_collect
  decode_other d k b c e =
      let l : length (d.buffer ++ b ∷ []) ≡ length d.buffer + 1 = length-append d.buffer (b ∷ []) in
      rw
        (
          eq_less d.header.attachments_count (length d.buffer) (k + 1) (omega arith),
          eq_less d.header.attachments_count (length (d.buffer ++ b ∷ [])) k (omega arith),
          Decoder.decode_binary_data,
          Decoder.can_collect,
          decoded,
        )
        (refl)

  feed_lem :
      (bs : List Bytes) (b : Bytes) (d : DefaultDecoder json) (c : Connection json)
      → d.header.attachments_count ≡ length d.buffer + (length bs + 1)
      → feed (bs ++ b ∷ []) (record c { decoder = some d }) ≡ (
        map (λ _. ok in_progress) bs
            ++ ok (done (assembled json d.header (d.buffer ++ (bs ++ b ∷ [])))) ∷ [],
        record c { decoder = none },
      )
  feed_lem [] b d c e =
      ap
        (λ (r : Outcome DecodeError (DecodeBinarySuccess json.Number) × Connection json).
          (r.0 ∷ [], r.1))
        (decode_last d b c e)
  feed_lem (x ∷ bs) b d c e =
      let d' : DefaultDecoder json = record d { buffer = d.buffer ++ x ∷ [] } in
      let l : length (d.buffer ++ x ∷ []) ≡ length d.buffer + 1 = length-append d.buffer (x ∷ []) in
      rw
        (
          decode_other d (length bs) x c (omega arith),
          feed_lem bs b d' c (omega arith),
          append_assoc d.buffer (x ∷ []) (bs ++ b ∷ []),
        )
        (refl)

  set_decoder-none :
      (d : DefaultDecoder json) (c : Connection json)
      → c.decoder ≡ none
      → (set_decoder d c).1 ≡ record c { decoder = some d }
  unfolding set_decoder
  set_decoder-none d c e = rw (e) (refl)

  -- A connection that waits for no other packet answers each attachment but the last with
  -- `InProgress` and the last with the packet, whose data holds the attachments in order, and waits
  -- for none again, where the header announces as many attachments as arrive, at least one.
  pub feed-set_decoder :
      (header : MultipartPacketHeader json.Number) (bs : List Bytes) (b : Bytes)
      (c : Connection json)
      → c.decoder ≡ none
      → header.attachments_count ≡ length bs + 1
      → feed (bs ++ b ∷ []) (set_decoder (Decoder.new json header) c).1
        ≡ (map (λ _. ok in_progress) bs ++ ok (done (assembled json header (bs ++ b ∷ []))) ∷ [], c)
  unfolding set_decoder Decoder.new
  feed-set_decoder header bs b c e h =
      ap (λ x. feed (bs ++ b ∷ []) x) (set_decoder-none (Decoder.new json header) c e)
      ∙ feed_lem bs b (Decoder.new json header) c (omega (arith, h))
      ∙ ap
          (λ x. (
            map (λ _. ok in_progress) bs ++ ok (done (assembled json header (bs ++ b ∷ []))) ∷ [],
            x,
          ))
          (ap (λ o. record c { decoder = o }) (sym e))
