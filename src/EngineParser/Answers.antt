-- ===== src/EngineParser/Answers.antt =====
-- engine_io_parser/src/decoder.rs: what the decoder of one packet answers.
use socket_io_server_rust.Prelude.{
  ℕ, ◌≡◌, refl, Bool-cases, inl, inr, ltb, [], ◌∷◌, ◌++◌, All, Str, Bytes, digits_split,
  digits_value, ◌⊎◌, none, NoDigitFirst, IsDigit, Outcome, ok, err,
}
use socket_io_server_rust.Nom.{
  Combinators, Input, IResult, parsed, error, failure, ErrorKind, ◌>>=◌,
}
use socket_io_server_rust.EngineParser.Packet.{
  Packet, PacketType, text, binary, parse_from_u8, parse_from_u8-cases, ParsePacketError,
}
use socket_io_server_rust.EngineParser.Decoder.{Encoded}
use socket_io_server_rust.EngineParser.Decoder
use socket_io_server_rust.EngineParser.Binary
use socket_io_server_rust.EngineParser.Binary.Single.{parse_whole_binary}
use socket_io_server_rust.EngineParser.StringFormat
use socket_io_server_rust.EngineParser.StringFormat.{data_string, parse_string_packet}

-- A packet, or an error.
abbrev pub Answers : Outcome ParsePacketError Packet → Type 0
Answers o = ((p : Packet) × (o ≡ ok p)) ⊎ ((e : ParsePacketError) × (o ≡ err e))

-- A parser's answer that is no panic.
abbrev IsCalm : IResult Packet → Type 0
IsCalm r =
    ((x : Input × Packet) × (r ≡ parsed x))
    ⊎ ((i : Input) × (k : ErrorKind) × (r ≡ error i k))
    ⊎ ((i : Input) × (k : ErrorKind) × (r ≡ failure i k))

then_type-IsCalm :
    (v : ℕ) (f : PacketType → Packet) → IsCalm (parse_from_u8 v [] >>= λ x. parsed ([], f x.1))
then_type-IsCalm v f = elim (parse_from_u8-cases v []) [
  | inl (t, e) ↦ rw e (inl (_, refl))
  | inr e ↦ rw e (inr (inl (_, _, refl)))
]

module _ (nom : Combinators Packet) where
  parse_binary-IsCalm : (b : Bytes) → IsCalm (Binary.parse_binary_data_packet nom b none)
  unfolding Binary.parse_binary_data_packet
  parse_binary-IsCalm [] = rw nom.le_u8-nil (inr (inl (_, _, refl)))
  parse_binary-IsCalm (b ∷ d) =
      rw (parse_whole_binary nom b d)
        (then_type-IsCalm b (λ t. record { packet_type = t; data' = binary d }))

  binary-Answers : (b : Bytes) → Answers (Binary.decode_packet nom b)
  unfolding Binary.decode_packet
  binary-Answers b = elim (parse_binary-IsCalm b) [
    | inl (x, e) ↦ rw (Binary.decode_packet, e) (inl (_, refl))
    | inr (inl (i, k, e)) ↦ rw (Binary.decode_packet, e) (inr (_, refl))
    | inr (inr (i, k, e)) ↦ rw (Binary.decode_packet, e) (inr (_, refl))
  ]

  parse_split-IsCalm :
      (ds rest : Str)
      → All IsDigit ds
      → NoDigitFirst rest
      → IsCalm (parse_string_packet nom (ds ++ rest) none)
  unfolding parse_string_packet StringFormat.take_u8
  parse_split-IsCalm [] rest all first = rw (nom.digit1_none rest first) (inr (inl (_, _, refl)))
  parse_split-IsCalm (c ∷ ds) rest all first =
      let n = digits_value 0 (c ∷ ds) in
      let read = nom.digit1-append (c ∷ ds) rest (λ e. cc) all first in
      elim (Bool-cases (ltb n 256)) [
        | inl fits ↦
            rw read
              (rw fits (then_type-IsCalm n (λ t. record { packet_type = t; data' = text rest })))
        | inr wide ↦ rw read (rw wide (inr (inr (_, _, refl))))
      ]

  parse_string-IsCalm : (s : Str) → IsCalm (parse_string_packet nom s none)
  parse_string-IsCalm s =
      let (ds, rest, split, all, first) = digits_split s in
      rw split (parse_split-IsCalm ds rest all first)

  string-Answers : (s : Str) → Answers (StringFormat.decode_packet nom s)
  unfolding StringFormat.decode_packet
  string-Answers s = elim (parse_string-IsCalm s) [
    | inl (x, e) ↦ rw (StringFormat.decode_packet, e) (inl (_, refl))
    | inr (inl (i, k, e)) ↦ rw (StringFormat.decode_packet, e) (inr (_, refl))
    | inr (inr (i, k, e)) ↦ rw (StringFormat.decode_packet, e) (inr (_, refl))
  ]

  -- One packet never makes the decoder panic.
  pub decode_packet-Answers : (e : Encoded) → Answers (Decoder.decode_packet nom e)
  unfolding Decoder.decode_packet
  decode_packet-Answers (Encoded.text s) = string-Answers s
  decode_packet-Answers (Encoded.binary b) = binary-Answers b
