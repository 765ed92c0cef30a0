-- ===== src/EngineParser/StringFormat/Flat.antt =====
-- engine_io_parser/src/string.rs: what an encoded payload looks like, and which packets it carries.
use socket_io_server_rust.Prelude.{
  ℕ, ◌+◌, ◌<◌, ◌≡◌, sym, ◌∙◌, Str, some, false, List, [], ◌∷◌, ◌++◌, length, NoDigitFirst, is_digit,
  usize_bound, checked_sub, append-nil, append_assoc, arith,
}
use socket_io_server_rust.EngineParser.Base64.{Base64}
use socket_io_server_rust.EngineParser.Packet.{PacketData, text, binary, empty, Packet}
use socket_io_server_rust.EngineParser.StringFormat.{
  encode_packet, piece, serialize_onto, encode_payload,
}

-- A text with a first character that is no digit.
abbrev pub StartsPlain : Str → Type 0
StartsPlain [] = ⊥
StartsPlain (c ∷ cs) = is_digit c ≡ false

pub StartsPlain-append : (s rest : Str) → StartsPlain s → NoDigitFirst (s ++ rest)
StartsPlain-append [] rest h = absurd h
StartsPlain-append (c ∷ cs) rest h = h

pub sub_one : (n : ℕ) → checked_sub (n + 1) 1 ≡ some n
sub_one n = ground arith

abbrev pub keep : PacketData → Packet → List Packet → List Packet
keep empty p ps = ps
keep (text s) p ps = p ∷ ps
keep (binary d) p ps = p ∷ ps

-- The packets that reach the other side: `encode_payload` writes nothing for an empty one.
abbrev pub delivered : List Packet → List Packet
delivered [] = []
delivered (p ∷ ps) = keep p.data' p (delivered ps)

module _ (base64 : Base64) where
  -- Data that a payload carries: its text is not empty and does not begin with a digit, and its
  -- length is a `usize`.
  abbrev pub IsCarried : PacketData → Type 0
  IsCarried (text s) = StartsPlain s × (length s + 1 < usize_bound)
  IsCarried (binary d) =
      StartsPlain (base64.encode d) × (length (base64.encode d) + 2 < usize_bound)
  IsCarried empty = Unit

  abbrev pub flat : List Packet → Str
  flat [] = []
  flat (p ∷ ps) = piece base64 p.data' (encode_packet base64 p) ++ flat ps

  serialize_onto-flat :
      (acc : Str) (ps : List Packet) → serialize_onto base64 acc ps ≡ acc ++ flat ps
  unfolding serialize_onto
  serialize_onto-flat acc [] = sym (append-nil acc)
  serialize_onto-flat acc (p ∷ ps) =
      let b = piece base64 p.data' (encode_packet base64 p) in
      serialize_onto-flat (acc ++ b) ps ∙ append_assoc acc b (flat ps)

  pub encode_payload-flat : (ps : List Packet) → encode_payload base64 ps ≡ flat ps
  unfolding encode_payload
  encode_payload-flat ps = serialize_onto-flat [] ps
