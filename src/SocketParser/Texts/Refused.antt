-- ===== src/SocketParser/Texts/Refused.antt =====
-- socket_io_parser/src/encoder.rs and decoder.rs: packets with attachments, and
-- packets with an identifier.
use socket_io_server_rust.Prelude.{
  ℕ, ◌+◌, ◌*◌, ◌≤◌, ◌<◌, ltb, ◌==◌, ◌≡◌, ◌≢◌, refl, ap, sym, ◌∙◌, true, false, Bool-cases,
  if◌then◌else◌, inl, inr, some, [], ◌∷◌, ◌++◌, append_assoc, length, All, IsDigit, NoDigitFirst,
  digit_value, digits_value, All-append, digits_value-to_string, to_string, to_string-IsDigit,
  to_string-ne-nil, Str, err, arith,
}
use socket_io_server_rust.Nom.{Input, parsed, error, failure, Combinators, char, digit}
use socket_io_server_rust.EngineParser.StringFormat.Numbers.{digits_value_grows}
use socket_io_server_rust.SocketParser.Json.{Json}
use socket_io_server_rust.SocketParser.Packet.{PacketType, Packet, as_u8, parse_from_u8}
use socket_io_server_rust.SocketParser.Encoder.{
  encode_packet, deconstruct_packet_data, is_binary, serialized, id_text,
}
use socket_io_server_rust.SocketParser.Parsing.{
  take_u8, parse_id, parse_proto_packet, decode_proto_packet, packet_parse_error,
}
use socket_io_server_rust.SocketParser.Texts.{
  StartsAsData, IsNamespace, StartsAsData-NoDigitFirst, parse_from_u8-as_u8, assoc_five, nsp_text,
  take_u8-as_u8, namespace_present, data_of, plain_type, plain_text,
}

append-ne-nil : (xs ys : Str) → xs ≢ [] → xs ++ ys ≢ []
append-ne-nil [] ys ne = absurd (ne refl)
append-ne-nil (x ∷ xs) ys ne = λ e. cc

parse_from_u8_above : (n : ℕ) (input : Input) → 6 < n → parse_from_u8 n input ≡ failure input digit
unfolding parse_from_u8
parse_from_u8_above n input h = ground arith

digits_value-append :
    (a : ℕ) (xs ys : Str) → digits_value a (xs ++ ys) ≡ digits_value (digits_value a xs) ys
digits_value-append a [] ys = refl
digits_value-append a (x ∷ xs) ys = digits_value-append (a * 10 + digit_value x) xs ys

digits_value-le : (a : ℕ) (ds : Str) → ds ≢ [] → a * 10 ≤ digits_value a ds
digits_value-le a [] ne = absurd (ne refl)
digits_value-le a (d ∷ ds) ne = omega (arith, digits_value_grows (a * 10 + digit_value d) ds)

-- The digits of a type, with those of a number behind them, are no type.
merged-large :
    (t : PacketType) (k : ℕ) → 0 < as_u8 t → 6 < digits_value 0 (to_string (as_u8 t) ++ to_string k)
merged-large t k h = rw (digits_value-append 0 (to_string (as_u8 t)) (to_string k)) (
    rw (digits_value-to_string (as_u8 t))
      (omega (arith, digits_value-le (as_u8 t) (to_string k) (to_string-ne-nil k))))

module _ {O : Type 0} (nom : Combinators O) where
  take_u8-run :
      (t : PacketType) (k : ℕ) (rest : Str)
      → NoDigitFirst rest
      → take_u8 nom ((to_string (as_u8 t) ++ to_string k) ++ rest) ≡ (
          if ltb (digits_value 0 (to_string (as_u8 t) ++ to_string k)) 256
          then parsed (rest, digits_value 0 (to_string (as_u8 t) ++ to_string k))
          else failure rest digit)
  unfolding take_u8
  take_u8-run t k rest h =
      let ts = to_string (as_u8 t) in
      let all =
        All-append IsDigit ts (to_string k) (to_string-IsDigit (as_u8 t)) (to_string-IsDigit k) in
      rw
        (nom.digit1-append (ts ++ to_string k) rest
          (append-ne-nil ts (to_string k) (to_string-ne-nil (as_u8 t))) all h)
        refl

  dash_refused : (s : Str) → StartsAsData s → (i : Input) × (nom.one_char b'-' s ≡ error i char)
  dash_refused [] h = ([], nom.one_char-nil b'-')
  dash_refused (c ∷ cs) h = (c ∷ cs, nom.one_char-ne b'-' c cs (λ e. h.2 (sym e)))

  -- An identifier without a dash behind it is refused.
  parse_id_refused :
      (id : ℕ) (s : Str)
      → StartsAsData s
      → (i : Input) × (parse_id nom (to_string id ++ s) ≡ error i char)
  unfolding parse_id
  parse_id_refused id s h =
      let (i, e) = dash_refused s h in
      (
        i,
        rw
            (nom.digit1-append (to_string id) s (to_string-ne-nil id) (to_string-IsDigit id)
              (StartsAsData-NoDigitFirst s h))
            (rw e refl),
      )

module _ (json : Json) {O : Type 0} (nom : Combinators O) where
  merged-failure :
      (t : PacketType) (k : ℕ) (rest : Str)
      → 0 < as_u8 t
      → NoDigitFirst rest
      → (i : Input) × (parse_proto_packet json nom (to_string (as_u8 t) ++ (to_string k ++ rest))
          ≡ failure i digit)
  unfolding parse_proto_packet
  merged-failure t k rest h first =
      let run = to_string (as_u8 t) ++ to_string k in
      let n = digits_value 0 run in
      let input : to_string (as_u8 t) ++ (to_string k ++ rest) ≡ run ++ rest =
        sym (append_assoc (to_string (as_u8 t)) (to_string k) rest) in
      let read = take_u8-run nom t k rest first in
      elim (Bool-cases (ltb n 256)) [
        | inl fits ↦ (
          rest,
          rw (input)
              (rw (read) (rw (fits) (rw (parse_from_u8_above n rest (merged-large t k h)) refl))),
        )
        | inr wide ↦ (rest, rw (input) (rw (read) (rw (wide) refl)))
      ]

  -- Where digits follow the type, the decoder takes them for a part of it, and refuses the packet.
  decode_merged :
      (t : PacketType) (k : ℕ) (rest : Str)
      → 0 < as_u8 t
      → NoDigitFirst rest
      → decode_proto_packet json nom (to_string (as_u8 t) ++ (to_string k ++ rest))
        ≡ err packet_parse_error
  unfolding decode_proto_packet
  decode_merged t k rest h first =
      let (i, e) = merged-failure t k rest h first in rw (e, decode_proto_packet) refl

  binary_type : (t : PacketType) → is_binary json t ≡ true → 0 < as_u8 t
  unfolding as_u8
  binary_type t h = ground arith

  -- No packet with binary attachments is ever decoded: the count of its attachments stands directly
  -- behind its type, and the decoder takes the digits of both for the type.
  pub decode_proto_packet_binary :
      (packet : Packet json.Number)
      → is_binary json packet.packet_type ≡ true
      → decode_proto_packet json nom (encode_packet json packet).packet ≡ err packet_parse_error
  unfolding encode_packet
  decode_proto_packet_binary packet h =
      let ts = to_string (as_u8 packet.packet_type) in
      let r = deconstruct_packet_data json packet.data' [] in
      let count = to_string (length r.1) in
      let ids = id_text json packet.id in
      let rest = nsp_text packet.nsp ++ (ids ++ serialized json r.0) in
      let split =
        assoc_five ts (count ++ b'-' ∷ []) (nsp_text packet.nsp) ids (serialized json r.0)
        ∙ ap (λ x. ts ++ x) (append_assoc count (b'-' ∷ []) rest) in
      rw h (
        rw split (
          decode_merged packet.packet_type (length r.1) (b'-' ∷ rest)
            (binary_type packet.packet_type h) refl))

  parse_named_id :
      (t : PacketType) (cs text : Str) (k : ℕ)
      → is_binary json t ≡ false
      → All (λ d. (d == b',') ≡ false) cs
      → StartsAsData text
      → (i : Input) × (parse_proto_packet json nom
            (to_string (as_u8 t) ++ ((b'/' ∷ cs) ++ b',' ∷ (to_string k ++ text)))
          ≡ error i char)
  unfolding parse_proto_packet
  parse_named_id t cs text k plain n starts =
      let behind = (b'/' ∷ cs) ++ b',' ∷ (to_string k ++ text) in
      let (i, e) = parse_id_refused nom k text starts in
      (
        i,
        rw (take_u8-as_u8 nom t behind refl) (
            rw (parse_from_u8-as_u8 t behind) (
              rw (plain_type json t plain)
                (rw (namespace_present nom cs (to_string k ++ text) n) (rw e refl)))),
      )

  named_id :
      (t : PacketType) (cs text : Str) (k : ℕ)
      → is_binary json t ≡ false
      → All (λ d. (d == b',') ≡ false) cs
      → StartsAsData text
      → decode_proto_packet json nom
          (to_string (as_u8 t) ++ ((b'/' ∷ cs) ++ b',' ∷ (to_string k ++ text)))
        ≡ err packet_parse_error
  unfolding decode_proto_packet
  named_id t cs text k plain n starts =
      let (i, e) = parse_named_id t cs text k plain n starts in rw (e, decode_proto_packet) refl

  text_with_id :
      (t : PacketType) (nsp text : Str) (k : ℕ)
      → is_binary json t ≡ false
      → 0 < as_u8 t
      → IsNamespace nsp
      → StartsAsData text
      → decode_proto_packet json nom
          (to_string (as_u8 t) ++ (nsp_text nsp ++ (to_string k ++ text)))
        ≡ err packet_parse_error
  text_with_id t [] text k plain h n starts = absurd n
  text_with_id t (c ∷ []) text k plain h (slash, n) starts =
      rw slash (decode_merged t k text h (StartsAsData-NoDigitFirst text starts))
  text_with_id t (c ∷ d ∷ ds) text k plain h (slash, n) starts = rw slash (
      ap (λ x. decode_proto_packet json nom (to_string (as_u8 t) ++ (b'/' ∷ x)))
        (append_assoc (d ∷ ds) (b',' ∷ []) (to_string k ++ text))
      ∙ named_id t (d ∷ ds) text k plain n starts)

  -- No packet with an identifier is ever decoded, an event that asks for an answer or the answer:
  -- the identifier is taken for a part of the type, or wants a dash that the encoder does not write.
  pub decode_proto_packet_id :
      (packet : Packet json.Number) (k : ℕ)
      → is_binary json packet.packet_type ≡ false
      → 0 < as_u8 packet.packet_type
      → packet.id ≡ some k
      → IsNamespace packet.nsp
      → StartsAsData (serialized json (data_of json packet))
      → decode_proto_packet json nom (encode_packet json packet).packet ≡ err packet_parse_error
  decode_proto_packet_id packet k plain h id n starts = rw (plain_text json packet plain) (
      rw id (
        text_with_id packet.packet_type packet.nsp (serialized json (data_of json packet)) k plain h
          n starts))
