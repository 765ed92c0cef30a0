-- ===== src/EngineParser/StringFormat/RoundTrip.antt =====
-- engine_io_parser/src/string.rs: what the decoder makes of an encoded payload.
use socket_io_server_rust.Prelude.{
  ℕ, suc, ◌+◌, ◌<◌, ◌≡◌, ◌≢◌, refl, sym, ◌∙◌, Str, List, [], ◌∷◌, ◌++◌, length, All, NoDigitFirst,
  to_string, to_string-ne-nil, usize_bound, ok, append-nil, append_assoc, length-append, arith,
}
use socket_io_server_rust.Nom.{Input, ErrorKind, digit, IResult, parsed, error, Combinators}
use socket_io_server_rust.EngineParser.Base64.{Base64}
use socket_io_server_rust.EngineParser.Packet.{
  PacketType, PacketData, text, binary, empty, Packet, as_u8, parse_from_u8-as_u8,
}
use socket_io_server_rust.EngineParser.StringFormat.Numbers.{take_u8-as_u8, take_usize-to_string}
use socket_io_server_rust.EngineParser.StringFormat.Single.{encode_packet-cons}
use socket_io_server_rust.EngineParser.StringFormat.{
  take_u8, take_usize, parse_string_packet, parse_plaintext_string_packet,
  parse_base64_string_packet, parse_string_packet_in_payload, parse_string_payload, decode_payload,
  encode_packet, piece, encode_payload, push,
}
use socket_io_server_rust.EngineParser.StringFormat.Flat.{sub_one, keep}
pub use socket_io_server_rust.EngineParser.StringFormat.Flat.{
  StartsPlain, StartsPlain-append, delivered, IsCarried, flat, encode_payload-flat,
}

module _ (nom : Combinators Packet) (base64 : Base64) where
  parse_plain :
      (t : PacketType) (s rest : Str)
      → NoDigitFirst (s ++ rest)
      → parse_plaintext_string_packet nom (length s) ((as_u8 t + b'0') ∷ (s ++ rest))
        ≡ parsed (rest, record { packet_type = t; data' = text s })
  unfolding parse_plaintext_string_packet parse_string_packet
  parse_plain t s rest h =
      rw (take_u8-as_u8 nom t (s ++ rest) h)
        (rw (nom.take-append s rest) (rw (parse_from_u8-as_u8 t rest)))

  parse_base64 :
      (t : PacketType) (d rest : Str)
      → NoDigitFirst (base64.encode d ++ rest)
      → parse_base64_string_packet nom base64
          (length (base64.encode d) + 1)
          (b'b' ∷ (as_u8 t + b'0') ∷ (base64.encode d ++ rest))
        ≡ parsed (rest, record { packet_type = t; data' = binary d })
  unfolding parse_base64_string_packet
  parse_base64 t d rest h =
      let s = base64.encode d in
      rw (nom.one_char-cons b'b' ((as_u8 t + b'0') ∷ (s ++ rest)), sub_one (length s))
        (rw (take_u8-as_u8 nom t (s ++ rest) h)
          (rw (nom.take-append s rest) (rw (parse_from_u8-as_u8 t rest, base64.decode-encode d))))

  not_plain :
      (l : ℕ) (rest : Str)
      → parse_plaintext_string_packet nom l (b'b' ∷ rest) ≡ error (b'b' ∷ rest) digit
  unfolding parse_plaintext_string_packet parse_string_packet take_u8
  not_plain l rest = rw (nom.digit1_none (b'b' ∷ rest) refl)

  -- The length, the colon, and then one of the two readers.
  pub parse_header :
      (n : ℕ) (body : Str)
      → n + 1 < usize_bound
      → parse_string_packet_in_payload nom base64 (to_string (n + 1) ++ (b':' ∷ body))
        ≡ nom.alt
            (parse_plaintext_string_packet nom n)
            (parse_base64_string_packet nom base64 n)
            body
  unfolding parse_string_packet_in_payload
  parse_header n body h =
      rw (take_usize-to_string nom (n + 1) (b':' ∷ body) h refl)
        (rw (nom.one_char-cons b':' body, sub_one n))

  parse_text :
      (t : PacketType) (s rest : Str)
      → StartsPlain s
      → length s + 1 < usize_bound
      → parse_string_packet_in_payload nom base64
          (to_string (length s + 1) ++ (b':' ∷ (as_u8 t + b'0') ∷ (s ++ rest)))
        ≡ parsed (rest, record { packet_type = t; data' = text s })
  parse_text t s rest h fits =
      let body : Str = (as_u8 t + b'0') ∷ (s ++ rest) in
      let read = parse_plain t s rest (StartsPlain-append s rest h) in
      parse_header (length s) body fits
      ∙ nom.alt_first (parse_plaintext_string_packet nom (length s))
          (parse_base64_string_packet nom base64 (length s)) body (λ i k e. cc (read, e))
      ∙ read

  parse_binary :
      (t : PacketType) (d rest : Str)
      → StartsPlain (base64.encode d)
      → length (base64.encode d) + 2 < usize_bound
      → parse_string_packet_in_payload nom base64 (
          to_string (length (base64.encode d) + 1 + 1)
          ++ (b':' ∷ b'b' ∷ (as_u8 t + b'0') ∷ (base64.encode d ++ rest)))
        ≡ parsed (rest, record { packet_type = t; data' = binary d })
  parse_binary t d rest h fits =
      let s = base64.encode d in
      let n = length s + 1 in
      let tail : Str = (as_u8 t + b'0') ∷ (s ++ rest) in
      parse_header n (b'b' ∷ tail) (omega arith)
      ∙ nom.alt_second (parse_plaintext_string_packet nom n)
          (parse_base64_string_packet nom base64 n) (b'b' ∷ tail) (b'b' ∷ tail) digit
          (not_plain n tail)
      ∙ parse_base64 t d rest (StartsPlain-append s rest h)

  -- What one packet puts in front of a payload.
  pub piece-text :
      (t : PacketType) (s rest : Str)
      → piece base64 (text s) (encode_packet base64 (record { packet_type = t; data' = text s }))
          ++ rest
        ≡ to_string (length s + 1) ++ (b':' ∷ (as_u8 t + b'0') ∷ (s ++ rest))
  piece-text t s rest =
      let n : suc (length s) ≡ length s + 1 = omega arith in
      rw (encode_packet-cons nom base64 (record { packet_type = t; data' = text s }), n)
        (append_assoc (to_string (length s + 1)) (b':' ∷ (as_u8 t + b'0') ∷ s) rest)

  piece-binary :
      (t : PacketType) (d rest : Str)
      → piece base64
            (binary d)
            (encode_packet base64 (record { packet_type = t; data' = binary d }))
          ++ rest
        ≡ to_string (length (base64.encode d) + 1 + 1)
          ++ (b':' ∷ b'b' ∷ (as_u8 t + b'0') ∷ (base64.encode d ++ rest))
  piece-binary t d rest =
      let s = base64.encode d in
      let n : suc (length s) ≡ length s + 1 = omega arith in
      rw (encode_packet-cons nom base64 (record { packet_type = t; data' = binary d }), n)
        (append_assoc (to_string (length s + 1 + 1)) (b':' ∷ b'b' ∷ (as_u8 t + b'0') ∷ s) rest)

  abbrev pub parse_one : Input → IResult Packet
  parse_one = parse_string_packet_in_payload nom base64

  behind-lt : (a b rest : Str) → a ≢ [] → length rest < length (a ++ (b ++ rest))
  behind-lt [] b rest ne = absurd (ne refl)
  behind-lt (x ∷ a) b rest ne = rw (length-append a (b ++ rest), length-append b rest) (omega arith)

  fold_cons :
      (t : PacketType) (d : PacketData) (ps acc : List Packet) (tail rest : Str)
      → IsCarried base64 d
      → ((acc' : List Packet)
          → nom.fold_many0 parse_one acc' push tail
            ≡ nom.fold_many0 parse_one (acc' ++ delivered ps) push rest)
      → nom.fold_many0 parse_one acc push
          (piece base64 d (encode_packet base64 (record { packet_type = t; data' = d })) ++ tail)
        ≡ nom.fold_many0 parse_one
            (acc ++ keep d (record { packet_type = t; data' = d }) (delivered ps))
            push
            rest
  fold_cons t (text s) ps acc tail rest h ih =
      let p : Packet = record { packet_type = t; data' = text s } in
      let n = to_string (length s + 1) in
      let all : Str = n ++ (b':' ∷ (as_u8 t + b'0') ∷ (s ++ tail)) in
      let short =
        behind-lt n (b':' ∷ (as_u8 t + b'0') ∷ s) tail (to_string-ne-nil (length s + 1)) in
      rw (piece-text t s tail) (
        nom.fold_many0_step parse_one acc push all tail p (parse_text t s tail h.0 h.1) short
        ∙ ih (acc ++ p ∷ [])
        ∙ rw (append_assoc acc (p ∷ []) (delivered ps)))
  fold_cons t (binary d) ps acc tail rest h ih =
      let p : Packet = record { packet_type = t; data' = binary d } in
      let s = base64.encode d in
      let n = to_string (length s + 1 + 1) in
      let all : Str = n ++ (b':' ∷ b'b' ∷ (as_u8 t + b'0') ∷ (s ++ tail)) in
      let short =
        behind-lt n (b':' ∷ b'b' ∷ (as_u8 t + b'0') ∷ s) tail
          (to_string-ne-nil (length s + 1 + 1)) in
      rw (piece-binary t d tail) (
        nom.fold_many0_step parse_one acc push all tail p (parse_binary t d tail h.0 h.1) short
        ∙ ih (acc ++ p ∷ [])
        ∙ rw (append_assoc acc (p ∷ []) (delivered ps)))
  fold_cons t empty ps acc tail rest h ih = ih acc

  -- The loop over a payload takes the packets off its front one by one.
  pub fold-flat :
      (ps acc : List Packet) (rest : Str)
      → All (λ p. IsCarried base64 p.data') ps
      → nom.fold_many0 parse_one acc push (flat base64 ps ++ rest)
        ≡ nom.fold_many0 parse_one (acc ++ delivered ps) push rest
  fold-flat [] acc rest h = rw (append-nil acc)
  fold-flat (p ∷ ps) acc rest h =
      rw (append_assoc (piece base64 p.data' (encode_packet base64 p)) (flat base64 ps) rest) (
        fold_cons p.packet_type p.data' ps acc (flat base64 ps ++ rest) rest h.0
          (λ acc'. fold-flat ps acc' rest h.1))

  parse_nothing : parse_one [] ≡ error [] digit
  unfolding parse_string_packet_in_payload take_usize
  parse_nothing = rw (nom.digit1_none [] tt)

  -- Where the packet behind `ps` is refused by `Err::Error`, the decoder answers `ps` alone.
  pub stops_at :
      (ps : List Packet) (tail i : Input) (k : ErrorKind)
      → All (λ p. IsCarried base64 p.data') ps
      → parse_one tail ≡ error i k
      → decode_payload nom base64 (flat base64 ps ++ tail) ≡ ok (delivered ps)
  unfolding decode_payload parse_string_payload
  stops_at ps tail i k h e =
      let loop =
        fold-flat ps [] tail h ∙ nom.fold_many0-error parse_one (delivered ps) push tail i k e in
      rw (loop, decode_payload)

  -- Decoding an encoded payload gives the packets that are not empty, in order and unchanged, texts
  -- and binary data alike. It holds when no text, and no base64 text, is empty or begins with a
  -- digit, and the lengths are `usize`.
  pub decode_string_payload-encode :
      (ps : List Packet)
      → All (λ p. IsCarried base64 p.data') ps
      → decode_payload nom base64 (encode_payload base64 ps) ≡ ok (delivered ps)
  decode_string_payload-encode ps h =
      let whole : encode_payload base64 ps ≡ flat base64 ps ++ [] =
        encode_payload-flat base64 ps ∙ sym (append-nil (flat base64 ps)) in
      rw whole (stops_at ps [] [] digit h parse_nothing)
