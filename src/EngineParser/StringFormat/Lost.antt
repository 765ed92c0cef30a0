-- ===== src/EngineParser/StringFormat/Lost.antt =====
-- engine_io_parser/src/string.rs: payloads that the decoder reads short.
use native.Mathlib.Decide.{dec_le}
use socket_io_server_rust.Prelude.{
  ℕ, ◌+◌, ◌<◌, ◌≡◌, refl, sym, ◌∙◌, Str, true, List, [], ◌∷◌, ◌++◌, length, All, NoDigitFirst,
  is_digit, digits_value, ltb, split_at, usize_bound, ok, append_assoc, arith,
}
use socket_io_server_rust.Nom.{Input, ErrorKind, digit, char, eof, parsed, error, Combinators}
use socket_io_server_rust.EngineParser.Base64.{Base64}
use socket_io_server_rust.EngineParser.Packet.{PacketType, text, Packet, as_u8}
use socket_io_server_rust.EngineParser.StringFormat.Numbers.{
  as_u8-IsDigit, parse_from_u8_above, take_u8-digits,
}
use socket_io_server_rust.EngineParser.StringFormat.RoundTrip.{
  StartsPlain, StartsPlain-append, IsCarried, delivered, flat, encode_payload-flat, parse_header,
  piece-text, stops_at,
}
use socket_io_server_rust.EngineParser.StringFormat.{
  parse_string_packet, parse_plaintext_string_packet, parse_base64_string_packet, decode_payload,
  piece, encode_packet, encode_payload,
}

module _ (base64 : Base64) where
  flat-append : (ps qs : List Packet) → flat base64 (ps ++ qs) ≡ flat base64 ps ++ flat base64 qs
  flat-append [] qs = refl
  flat-append (p ∷ ps) qs = rw (flat-append ps qs) (
      sym (
        append_assoc (piece base64 p.data' (encode_packet base64 p)) (flat base64 ps)
          (flat base64 qs)))

module _ (nom : Combinators Packet) (base64 : Base64) where
  -- The digit is read as a part of the type, which is refused.
  parse_two_digits :
      (t : PacketType) (c l : ℕ) (rest : Str)
      → 0 < as_u8 t
      → is_digit c ≡ true
      → NoDigitFirst rest
      → (i : Input) × (k : ErrorKind) × (parse_plaintext_string_packet nom l
            ((as_u8 t + b'0') ∷ c ∷ rest)
          ≡ error i k)
  unfolding parse_plaintext_string_packet parse_string_packet
  parse_two_digits t c l rest h d first =
      let run : Input = (as_u8 t + b'0') ∷ c ∷ [] in
      let n = digits_value 0 run in
      let read = take_u8-digits nom run rest (λ e. cc) (as_u8-IsDigit t, (d, tt)) first in
      let fits : ltb n 256 ≡ true = ground arith in
      elim (dec_le l (length rest)) [
        | yes p ↦
            let (ys, zs, e, len) = split_at l rest p in
            let taken : nom.take l rest ≡ parsed (zs, ys) = rw (e, ← len) (nom.take-append ys zs) in
            let big = parse_from_u8_above n zs (ground arith) in
            (zs, digit, rw read (rw fits (rw taken (rw big))))
        | no p ↦
            let short = nom.take_eof l rest (omega arith) in
            (rest, eof, rw read (rw fits (rw short)))
      ]

  not_base64 :
      (t : PacketType) (l : ℕ) (rest : Str)
      → parse_base64_string_packet nom base64 l ((as_u8 t + b'0') ∷ rest)
        ≡ error ((as_u8 t + b'0') ∷ rest) char
  unfolding parse_base64_string_packet
  not_base64 t l rest = rw (nom.one_char-ne b'b' (as_u8 t + b'0') rest (λ e. ground arith))

  -- A text that begins with exactly one digit, in a packet that is not an Open packet, ends the
  -- payload for the decoder: it answers the packets in front of it, and drops it and all that
  -- follow, without an error.
  pub decode_string_payload_digit_text :
      (ps qs : List Packet) (t : PacketType) (c : ℕ) (cs : Str)
      → All (λ p. IsCarried base64 p.data') ps
      → 0 < as_u8 t
      → is_digit c ≡ true
      → StartsPlain cs
      → length (c ∷ cs) + 1 < usize_bound
      → decode_payload nom base64
          (encode_payload base64 (ps ++ record { packet_type = t; data' = text (c ∷ cs) } ∷ qs))
        ≡ ok (delivered ps)
  decode_string_payload_digit_text ps qs t c cs all h d plain fits =
      let tail = flat base64 qs in
      let n = length (c ∷ cs) in
      let body : Str = (as_u8 t + b'0') ∷ c ∷ (cs ++ tail) in
      let (i, k, e) = parse_two_digits t c n (cs ++ tail) h d (StartsPlain-append cs tail plain) in
      let refused =
        parse_header nom base64 n body fits
        ∙ nom.alt_second (parse_plaintext_string_packet nom n)
            (parse_base64_string_packet nom base64 n) body i k e
        ∙ not_base64 t n (c ∷ (cs ++ tail)) in
      rw (encode_payload-flat base64, flat-append base64 ps)
        (stops_at nom base64 ps _ body char all
          (rw (piece-text nom base64 t (c ∷ cs) tail) refused))
