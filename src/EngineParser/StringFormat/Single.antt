-- ===== src/EngineParser/StringFormat/Single.antt =====
-- engine_io_parser/src/string.rs: a packet on its own, outside a payload.
use native.Mathlib.Nat.{le_trans}
use socket_io_server_rust.Prelude.{
  ℕ, ◌+◌, ◌*◌, ◌≤◌, ◌<◌, ◌≡◌, ap, ◌∙◌, Str, ltb, Bool-cases, inl, inr, true, none, List, [], ◌∷◌,
  ◌++◌, IsDigit, All, NoDigitFirst, is_digit, digit_value, digits_value, digits_split, ◌⊎◌, ok, err,
  arith,
}
use socket_io_server_rust.Nom.{Input, digit, parsed, error, failure, Combinators}
use socket_io_server_rust.EngineParser.Base64.{Base64}
use socket_io_server_rust.EngineParser.Packet.{PacketType, text, Packet, as_u8, parse_from_u8-as_u8}
use socket_io_server_rust.EngineParser.StringFormat.Numbers.{
  to_string-as_u8, as_u8-IsDigit, digits_value_grows, parse_from_u8_above, take_u8-digits,
  take_u8-as_u8,
}
use socket_io_server_rust.EngineParser.StringFormat.{
  parse_string_packet, decode_packet, data_string, encode_packet,
}

module _ (nom : Combinators Packet) (base64 : Base64) where
  pub encode_packet-cons :
      (p : Packet)
      → encode_packet base64 p ≡ (as_u8 p.packet_type + b'0') ∷ data_string base64 p.data'
  unfolding encode_packet
  encode_packet-cons p = rw (to_string-as_u8 p.packet_type)

  parse_whole :
      (t : PacketType) (s : Str)
      → NoDigitFirst s
      → parse_string_packet nom ((as_u8 t + b'0') ∷ s) none
        ≡ parsed ([], record { packet_type = t; data' = text s })
  unfolding parse_string_packet
  parse_whole t s h = rw (take_u8-as_u8 nom t s h) (rw (parse_from_u8-as_u8 t []))

  -- Decoding an encoded packet gives its type, and the text that was sent for its data, when that
  -- text does not begin with a digit: a text comes back whole, binary data as its base64 text, and
  -- an empty packet as one with the empty text.
  pub decode_string_packet-encode :
      (p : Packet)
      → NoDigitFirst (data_string base64 p.data')
      → decode_packet nom (encode_packet base64 p)
        ≡ ok (record { packet_type = p.packet_type; data' = text (data_string base64 p.data') })
  unfolding decode_packet
  decode_string_packet-encode p h = rw (
    encode_packet-cons p,
    parse_whole p.packet_type (data_string base64 p.data') h,
    decode_packet,
  )

  two_digits-le :
      (t : PacketType) (c : ℕ) (ds : List ℕ)
      → 0 < as_u8 t
      → 10 ≤ digits_value 0 ((as_u8 t + b'0') ∷ c ∷ ds)
  two_digits-le t c ds h =
      let first = (0 * 10 + digit_value (as_u8 t + b'0')) * 10 + digit_value c in
      le_trans (omega arith) (digits_value_grows first ds)

  -- The number in front is too large for a packet type, and perhaps for a byte.
  parse_digit_run :
      (t : PacketType) (c : ℕ) (ds rest : Str)
      → 0 < as_u8 t
      → is_digit c ≡ true
      → All IsDigit ds
      → NoDigitFirst rest
      → (i : Input) × ((parse_string_packet nom ((as_u8 t + b'0') ∷ c ∷ (ds ++ rest)) none
            ≡ error i digit)
          ⊎ (parse_string_packet nom ((as_u8 t + b'0') ∷ c ∷ (ds ++ rest)) none ≡ failure i digit))
  unfolding parse_string_packet
  parse_digit_run t c ds rest h d all first =
      let run : List ℕ = (as_u8 t + b'0') ∷ c ∷ ds in
      let n = digits_value 0 run in
      let read = take_u8-digits nom run rest (λ e. cc) (as_u8-IsDigit t, (d, all)) first in
      elim (Bool-cases (ltb n 256)) [
        | inl fits ↦
            let big = parse_from_u8_above n [] (omega (arith, two_digits-le t c ds h)) in
            ([], inl (rw read (rw fits (rw big))))
        | inr wide ↦ (rest, inr (rw read (rw wide)))
      ]

  -- A packet whose text begins with a digit cannot be decoded, unless it is an Open packet: the
  -- decoder takes the digit for a part of the type. Every message of socket.io begins with one.
  pub decode_string_packet_digit :
      (p : Packet) (c : ℕ) (cs : Str)
      → 0 < as_u8 p.packet_type
      → data_string base64 p.data' ≡ c ∷ cs
      → is_digit c ≡ true
      → decode_packet nom (encode_packet base64 p)
        ≡ err (record { message = "Unable to decode packet" })
  unfolding decode_packet
  decode_string_packet_digit p c cs h e d =
      let (ds, rest, split, all, first) = digits_split cs in
      let t = p.packet_type in
      let whole : encode_packet base64 p ≡ (as_u8 t + b'0') ∷ c ∷ (ds ++ rest) =
        encode_packet-cons p ∙ ap (λ s. (as_u8 t + b'0') ∷ s) (e ∙ ap (λ s. c ∷ s) split) in
      let (i, refused) = parse_digit_run t c ds rest h d all first in
      rw whole (elim refused [ inl q ↦ rw (q, decode_packet) | inr q ↦ rw (q, decode_packet) ])
