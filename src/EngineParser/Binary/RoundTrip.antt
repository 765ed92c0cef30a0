-- ===== src/EngineParser/Binary/RoundTrip.antt =====
-- engine_io_parser/src/binary.rs: what the decoders make of what the encoders wrote.
use socket_io_server_rust.Prelude.{
  ℕ, ◌+◌, ◌<◌, ◌≡◌, refl, sym, ◌∙◌, Bytes, Str, as_bytes, IsChar, is_utf8-as_bytes,
  as_bytes-NoDigitFirst, ◌==◌, some, false, List, [], ◌∷◌, ◌++◌, map, All, length, u32_bound,
  checked_sub, ok, IsDigit, NoDigitFirst, append-nil, append_assoc, length-append, arith,
}
use socket_io_server_rust.Nom.{Input, eof, parsed, error, Combinators}
use socket_io_server_rust.EngineParser.Packet.{
  PacketType, PacketData, text, binary, empty, Packet, as_u8, parse_from_u8-as_u8,
}
use socket_io_server_rust.EngineParser.Binary.Length.{encode_packet_length}
use socket_io_server_rust.EngineParser.Binary.LengthLaws.{
  packet_length-encode, encode_packet_length_bytes,
}
use socket_io_server_rust.EngineParser.Binary.{
  parse_binary_data_packet, parse_string_data_packet, parse_packet_length,
  parse_packet_data_type_in_binary_payload, parse_binary_packet_in_payload, parse_binary_payload,
  decode_payload, serialize_packet_in_payload, serialize_onto, encode_payload, push,
}

-- Data that a payload carries: the length field fits 32 bits, and a text does not begin with a digit.
abbrev pub IsSendable : PacketData → Type 0
IsSendable (text s) = All IsChar s × NoDigitFirst s × (length (as_bytes s) + 1 < u32_bound)
IsSendable (binary d) = length d + 1 < u32_bound
IsSendable empty = ⊥

-- What the decoder makes of it: the bytes, of a text too.
abbrev pub received_data : PacketData → PacketData
received_data (text s) = binary (as_bytes s)
received_data d = d

abbrev pub received : Packet → Packet
received p = record { packet_type = p.packet_type; data' = received_data p.data' }

abbrev pub flat : List Packet → Bytes
flat [] = []
flat (p ∷ ps) = serialize_packet_in_payload p.packet_type p.data' ++ flat ps

serialize_onto-flat : (acc : Bytes) (ps : List Packet) → serialize_onto acc ps ≡ acc ++ flat ps
unfolding serialize_onto
serialize_onto-flat acc [] = sym (append-nil acc)
serialize_onto-flat acc (p ∷ ps) =
    let b = serialize_packet_in_payload p.packet_type p.data' in
    serialize_onto-flat (acc ++ b) ps ∙ append_assoc acc b (flat ps)

pub encode_payload-flat : (ps : List Packet) → encode_payload ps ≡ flat ps
unfolding encode_payload
encode_payload-flat ps = serialize_onto-flat [] ps

-- A packet begins with a 0 or a 1.
serialize-NoDigitFirst :
    (t : PacketType) (d : PacketData) (rest : Bytes)
    → NoDigitFirst (serialize_packet_in_payload t d ++ rest)
unfolding serialize_packet_in_payload
serialize-NoDigitFirst t (text s) rest = refl
serialize-NoDigitFirst t (binary b) rest = refl
serialize-NoDigitFirst t empty rest = refl

flat-NoDigitFirst :
    (ps : List Packet) (rest : Bytes) → NoDigitFirst rest → NoDigitFirst (flat ps ++ rest)
flat-NoDigitFirst [] rest h = h
flat-NoDigitFirst (p ∷ ps) rest h =
    rw (append_assoc (serialize_packet_in_payload p.packet_type p.data') (flat ps) rest)
      (serialize-NoDigitFirst p.packet_type p.data' (flat ps ++ rest))

all_not_separator : (ds : Bytes) → All (λ d. d < 10) ds → All (λ d. (d == 255) ≡ false) ds
all_not_separator [] h = tt
all_not_separator (d ∷ ds) h = (ground arith, all_not_separator ds h.1)

pub as_u8-IsDigit : (t : PacketType) → IsDigit (as_u8 t + b'0')
as_u8-IsDigit t = ground arith

ascii_digit : (t : PacketType) → checked_sub (as_u8 t + b'0') b'0' ≡ some (as_u8 t)
ascii_digit t = ground arith

pub sub_one : (n : ℕ) → checked_sub (n + 1) 1 ≡ some n
sub_one n = ground arith

serialize-ne-nil : (t : PacketType) (d : PacketData) → 0 < length (serialize_packet_in_payload t d)
unfolding serialize_packet_in_payload
serialize-ne-nil t (text s) = omega arith
serialize-ne-nil t (binary b) = omega arith
serialize-ne-nil t empty = omega arith

shorter :
    (t : PacketType) (d : PacketData) (rest : Bytes)
    → length rest < length (serialize_packet_in_payload t d ++ rest)
shorter t d rest =
    rw (length-append (serialize_packet_in_payload t d) rest) (omega (arith, serialize-ne-nil t d))

module _ (nom : Combinators Packet) where
  pub parse_type_zero :
      (rest : Input) → parse_packet_data_type_in_binary_payload nom (0 ∷ rest) ≡ parsed (rest, 0)
  unfolding parse_packet_data_type_in_binary_payload
  parse_type_zero rest = rw (nom.take-append (0 ∷ []) rest)

  pub parse_type_one :
      (rest : Input) → parse_packet_data_type_in_binary_payload nom (1 ∷ rest) ≡ parsed (rest, 1)
  unfolding parse_packet_data_type_in_binary_payload
  parse_type_one rest = rw (nom.take-append (1 ∷ []) rest)

  -- The length field in front of the separator is read as the number that was written.
  pub parse_packet_length-encode :
      (n : ℕ) (rest : Input)
      → 0 < n
      → n < u32_bound
      → parse_packet_length nom (encode_packet_length n ++ 255 ∷ rest) ≡ parsed (255 ∷ rest, n)
  unfolding parse_packet_length
  parse_packet_length-encode n rest pos h =
      let (small, ne) = encode_packet_length_bytes n pos in
      let field = encode_packet_length n in
      rw
        (nom.take_till1-append (λ c. c == 255) field 255 rest ne (all_not_separator field small)
          refl)
        (rw (packet_length-encode n h))

  parse_binary_data :
      (t : PacketType) (d rest : Bytes)
      → parse_binary_data_packet nom (as_u8 t ∷ (d ++ rest)) (some (length d))
        ≡ parsed (rest, record { packet_type = t; data' = binary d })
  unfolding parse_binary_data_packet
  parse_binary_data t d rest =
      rw (nom.le_u8-cons (as_u8 t) (d ++ rest))
        (rw (nom.take-append d rest) (rw (parse_from_u8-as_u8 t rest)))

  parse_string_data :
      (t : PacketType) (s : Str) (rest : Bytes)
      → All IsChar s
      → NoDigitFirst s
      → NoDigitFirst rest
      → parse_string_data_packet nom ((as_u8 t + b'0') ∷ (as_bytes s ++ rest)) (length (as_bytes s))
        ≡ parsed (rest, record { packet_type = t; data' = binary (as_bytes s) })
  unfolding parse_string_data_packet
  parse_string_data t s rest chars first behind =
      let one : Input = (as_u8 t + b'0') ∷ [] in
      let read =
        nom.digit1-append one (as_bytes s ++ rest) (λ e. cc) (as_u8-IsDigit t, tt)
          (as_bytes-NoDigitFirst s rest first behind) in
      rw read (
        rw (nom.take-append (as_bytes s) rest)
          (rw (ascii_digit t, parse_from_u8-as_u8 t rest, is_utf8-as_bytes s chars)))

  -- One packet is read off the front of a payload, and nothing behind it is touched.
  parse_packet :
      (t : PacketType) (d : PacketData) (rest : Bytes)
      → IsSendable d
      → NoDigitFirst rest
      → parse_binary_packet_in_payload nom (serialize_packet_in_payload t d ++ rest)
        ≡ parsed (rest, record { packet_type = t; data' = received_data d })
  unfolding parse_binary_packet_in_payload serialize_packet_in_payload
  parse_packet t (text s) rest h behind =
      let bytes = as_bytes s in
      let n = length bytes + 1 in
      let tail : Bytes = (as_u8 t + b'0') ∷ (bytes ++ rest) in
      rw (append_assoc (encode_packet_length n) (255 ∷ (as_u8 t + b'0') ∷ bytes) rest) (
        rw (parse_type_zero (encode_packet_length n ++ 255 ∷ tail)) (
          rw (parse_packet_length-encode n tail (omega arith) h.2) (
            rw (nom.take-append (255 ∷ []) tail, sub_one (length bytes))
              (parse_string_data t s rest h.0 h.1 behind))))
  parse_packet t (binary b) rest h behind =
      let n = length b + 1 in
      let tail : Bytes = as_u8 t ∷ (b ++ rest) in
      rw (append_assoc (encode_packet_length n) (255 ∷ as_u8 t ∷ b) rest) (
        rw (parse_type_one (encode_packet_length n ++ 255 ∷ tail)) (
          rw (parse_packet_length-encode n tail (omega arith) h) (
            rw (nom.take-append (255 ∷ []) tail, sub_one (length b)) (parse_binary_data t b rest))))
  parse_packet t empty rest h behind = absurd h

  -- The loop over a payload takes the packets off its front one by one.
  pub fold-flat :
      (ps acc : List Packet) (rest : Bytes)
      → All (λ p. IsSendable p.data') ps
      → NoDigitFirst rest
      → nom.fold_many0 (parse_binary_packet_in_payload nom) acc push (flat ps ++ rest)
        ≡ nom.fold_many0 (parse_binary_packet_in_payload nom) (acc ++ map received ps) push rest
  fold-flat [] acc rest h behind = rw (append-nil acc)
  fold-flat (p ∷ ps) acc rest h behind =
      let b = serialize_packet_in_payload p.packet_type p.data' in
      let tail = flat ps ++ rest in
      rw (append_assoc b (flat ps) rest) (
        nom.fold_many0_step (parse_binary_packet_in_payload nom) acc push (b ++ tail) tail
          (received p)
          (parse_packet p.packet_type p.data' tail h.0 (flat-NoDigitFirst ps rest behind))
          (shorter p.packet_type p.data' tail)
        ∙ fold-flat ps (acc ++ received p ∷ []) rest h.1 behind
        ∙ rw (append_assoc acc (received p ∷ []) (map received ps)))

  parse_nothing : parse_binary_packet_in_payload nom [] ≡ error [] eof
  unfolding parse_binary_packet_in_payload parse_packet_data_type_in_binary_payload
  parse_nothing = rw (nom.take_eof 1 [] (omega arith))

  -- Decoding an encoded payload gives the packets in order, each with the bytes of its data: binary
  -- data as it was sent, and a text as its UTF-8 bytes. It holds when no packet is empty, each length
  -- field fits 32 bits and no text begins with a digit.
  pub decode_binary_payload-encode :
      (ps : List Packet)
      → All (λ p. IsSendable p.data') ps
      → decode_payload nom (encode_payload ps) ≡ ok (map received ps)
  unfolding decode_payload parse_binary_payload
  decode_binary_payload-encode ps h =
      let whole : encode_payload ps ≡ flat ps ++ [] =
        encode_payload-flat ps ∙ sym (append-nil (flat ps)) in
      let f = parse_binary_packet_in_payload nom in
      let loop =
        fold-flat ps [] [] h tt
        ∙ nom.fold_many0-error f (map received ps) push [] [] eof parse_nothing in
      rw (whole, loop, decode_payload)
