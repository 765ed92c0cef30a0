-- ===== src/EngineParser/Binary/Length.antt =====
-- engine_io_parser/src/binary.rs: the length field of a packet in a binary payload, a decimal digit
-- to a byte, least significant first.
use socket_io_server_rust.Prelude.{
  ℕ, zero, suc, ◌+◌, ◌*◌, ◌/◌, ◌%◌, ◌^◌, Bytes, ltb, ◌==◌, if◌then◌else◌, Option, none, some, [],
  ◌∷◌, ◌++◌, length, get_elem?, fits_u32,
}

infixl 5 ◌>>=◌
abbrev ◌>>=◌ : {A B : Type 0} → Option A → (A → Option B) → Option B
none >>= f = none
some a >>= f = f a

-- `while i > 0 { packet_length += 10u32.pow(i - 1) * encoded[i - 1]; i -= 1; }`, checked.
unfoldable pub length_loop : Bytes → ℕ → ℕ → Option ℕ
length_loop encoded zero packet_length = some packet_length
length_loop encoded (suc i) packet_length = do
  power ← fits_u32 (10 ^ i)
  digit ← get_elem? encoded i
  term ← fits_u32 (power * digit)
  sum ← fits_u32 (packet_length + term)
  length_loop encoded i sum

-- What `parse_packet_length` computes from the bytes in front of the separator.
unfoldable pub packet_length : Bytes → Option ℕ
unfolding length_loop
packet_length encoded =
    if length encoded == 0 then get_elem? encoded 0 else length_loop encoded (length encoded) 0

-- `while val > 0 { digit = val % 10; val /= 10; digits.push(digit as u8) }`.
unfoldable pub encode_loop : ℕ → ℕ → Bytes → Bytes
encode_loop zero val digits = digits
encode_loop (suc fuel) val digits =
    let rest = encode_loop fuel (val / 10) (digits ++ val % 10 ∷ []) in
    if ltb 0 val then rest else digits

-- `input` rounds are enough: `val` falls in each.
unfoldable pub encode_packet_length : ℕ → Bytes
unfolding encode_loop
encode_packet_length input = if input == 0 then 0 ∷ [] else encode_loop input input []
