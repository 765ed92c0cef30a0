-- ===== src/EngineParser/Binary/Lost.antt =====
-- engine_io_parser/src/binary.rs: payloads that the decoder reads short.
use socket_io_server_rust.Prelude.{
  ℕ, ◌+◌, ◌<◌, ◌≡◌, refl, sym, ◌∙◌, Bytes, Str, as_bytes, char_utf8, is_digit, IsDigit,
  NoDigitFirst, digits_split, true, List, [], ◌∷◌, ◌++◌, map, All, length, length-append, u32_bound,
  ok, append-nil, append_assoc, arith,
}
use socket_io_server_rust.Nom.{Input, ErrorKind, eof, error, Combinators}
use socket_io_server_rust.EngineParser.Packet.{PacketType, text, Packet, as_u8}
use socket_io_server_rust.EngineParser.Binary.Length.{encode_packet_length}
use socket_io_server_rust.EngineParser.Binary.RoundTrip.{
  IsSendable, received, flat, encode_payload-flat, parse_type_zero, parse_packet_length-encode,
  fold-flat, sub_one, as_u8-IsDigit,
}
use socket_io_server_rust.EngineParser.Binary.{
  parse_string_data_packet, parse_binary_packet_in_payload, parse_binary_payload, decode_payload,
  serialize_packet_in_payload, encode_payload, push,
}

flat-append : (ps qs : List Packet) → flat (ps ++ qs) ≡ flat ps ++ flat qs
flat-append [] qs = refl
flat-append (p ∷ ps) qs =
    rw (flat-append ps qs)
      (sym (append_assoc (serialize_packet_in_payload p.packet_type p.data') (flat ps) (flat qs)))

as_bytes-digit : (c : ℕ) (cs : Str) → is_digit c ≡ true → as_bytes (c ∷ cs) ≡ c ∷ as_bytes cs
unfolding as_bytes char_utf8
as_bytes-digit c cs h = ground arith

module _ (nom : Combinators Packet) where
  -- Where the packet behind `ps` is refused by `Err::Error`, the decoder answers `ps` alone.
  stops_at :
      (ps : List Packet) (tail i : Input) (k : ErrorKind)
      → All (λ p. IsSendable p.data') ps
      → NoDigitFirst tail
      → parse_binary_packet_in_payload nom tail ≡ error i k
      → decode_payload nom (flat ps ++ tail) ≡ ok (map received ps)
  unfolding decode_payload parse_binary_payload
  stops_at ps tail i k h behind e =
      let f = parse_binary_packet_in_payload nom in
      let loop =
        fold-flat nom ps [] tail h behind
        ∙ nom.fold_many0-error f (map received ps) push tail i k e in
      rw (loop, decode_payload)

  -- The digits of the text join those of the type, and too few bytes are left behind them.
  parse_digit_run :
      (t : PacketType) (c : ℕ) (cs ds rest : Bytes)
      → is_digit c ≡ true
      → cs ≡ ds ++ rest
      → All IsDigit ds
      → NoDigitFirst rest
      → parse_string_data_packet nom ((as_u8 t + b'0') ∷ c ∷ cs) (length (c ∷ cs)) ≡ error rest eof
  unfolding parse_string_data_packet
  parse_digit_run t c cs ds rest h e all first =
      let run : Input = (as_u8 t + b'0') ∷ c ∷ ds in
      let read = nom.digit1-append run rest (λ q. cc) (as_u8-IsDigit t, (h, all)) first in
      let short : length rest < length (c ∷ (ds ++ rest)) = omega (arith, length-append ds rest) in
      rw e (rw read (rw (nom.take_eof (length (c ∷ (ds ++ rest))) rest short)))

  parse_digit_data :
      (t : PacketType) (c : ℕ) (cs : Bytes)
      → is_digit c ≡ true
      → (i : Input) × (parse_string_data_packet nom ((as_u8 t + b'0') ∷ c ∷ cs) (length (c ∷ cs))
          ≡ error i eof)
  parse_digit_data t c cs h =
      let (ds, rest, e, all, first) = digits_split cs in
      (rest, parse_digit_run t c cs ds rest h e all first)

  parse_digit_text :
      (t : PacketType) (c : ℕ) (cs : Str)
      → is_digit c ≡ true
      → length (as_bytes (c ∷ cs)) + 1 < u32_bound
      → (i : Input) × (parse_binary_packet_in_payload nom
            (serialize_packet_in_payload t (text (c ∷ cs)))
          ≡ error i eof)
  unfolding parse_binary_packet_in_payload serialize_packet_in_payload
  parse_digit_text t c cs h fits =
      let bytes = as_bytes (c ∷ cs) in
      let n = length bytes + 1 in
      let tail : Input = (as_u8 t + b'0') ∷ bytes in
      let (i, e) = parse_digit_data t c (as_bytes cs) h in
      let e' : parse_string_data_packet nom tail (length bytes) ≡ error i eof =
        rw (as_bytes-digit c cs h) e in
      (
        i,
        rw (parse_type_zero nom (encode_packet_length n ++ 255 ∷ tail)) (
            rw (parse_packet_length-encode nom n tail (omega arith) fits)
              (rw (nom.take-append (255 ∷ []) tail, sub_one (length bytes)) e')),
      )

  -- A text that begins with a digit, last in a payload, is lost: the decoder answers the packets in
  -- front of it, without an error.
  pub decode_binary_payload_digit_text :
      (ps : List Packet) (t : PacketType) (c : ℕ) (cs : Str)
      → All (λ p. IsSendable p.data') ps
      → is_digit c ≡ true
      → length (as_bytes (c ∷ cs)) + 1 < u32_bound
      → decode_payload nom
          (encode_payload (ps ++ record { packet_type = t; data' = text (c ∷ cs) } ∷ []))
        ≡ ok (map received ps)
  unfolding serialize_packet_in_payload
  decode_binary_payload_digit_text ps t c cs all h fits =
      let (i, e) = parse_digit_text t c cs h fits in
      rw (encode_payload-flat, flat-append ps, append-nil) (stops_at ps _ i eof all refl e)
