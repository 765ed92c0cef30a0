-- ===== src/EngineParser/Binary/LengthLaws.antt =====
-- The length field is read back as it was written, with no overflow of the 32-bit arithmetic.
use native.Mathlib.Nat.{pow-suc}
use native.Mathlib.Decide.{dec_le}
use socket_io_server_rust.Prelude.{
  ℕ, zero, suc, ◌+◌, ◌*◌, ◌/◌, ◌%◌, ◌^◌, ◌≤◌, ◌<◌, ◌≡◌, ◌≢◌, refl, sym, ap, ◌∙◌, Bytes, some, [],
  ◌∷◌, ◌++◌, All, length, get_elem?, take, take_all, u32_bound, le_digits, le_value,
  le_value-digits, le_digits-lt_ten, length-le_digits, le_digits-ne-nil, append-nil, append_assoc,
  arith,
}
use socket_io_server_rust.EngineParser.Binary.Length.{
  length_loop, packet_length, encode_loop, encode_packet_length,
}

pow_ten_mono : (k i : ℕ) → i ≤ k → 10 ^ i ≤ 10 ^ k
pow_ten_mono zero zero h = omega arith
pow_ten_mono zero (suc i) h = absurd (omega arith)
pow_ten_mono (suc k) i h = elim (dec_le i k) [
  | yes p ↦ omega (arith, pow_ten_mono k i p, pow-suc 10 k)
  | no p ↦ let e : i ≡ suc k = omega arith in rw e (omega arith)
]

pow_ten_fits : (i : ℕ) → i ≤ 9 → 10 ^ i < u32_bound
pow_ten_fits i h = omega (arith, pow_ten_mono 9 i h)

get_elem?_below : (xs : Bytes) (i : ℕ) → i < length xs → (d : ℕ) × (get_elem? xs i ≡ some d)
get_elem?_below [] i h = absurd (omega arith)
get_elem?_below (x ∷ xs) zero h = (x, refl)
get_elem?_below (x ∷ xs) (suc i) h = get_elem?_below xs i (omega arith)

le_value-take_suc :
    (xs : Bytes) (i d : ℕ)
    → get_elem? xs i ≡ some d
    → le_value (take (suc i) xs) ≡ le_value (take i xs) + 10 ^ i * d
le_value-take_suc [] i d e = cc
le_value-take_suc (x ∷ xs) zero d e = ground arith
le_value-take_suc (x ∷ xs) (suc i) d e =
    omega (arith, le_value-take_suc xs i d e, ap (λ (t : ℕ). t * d) (pow-suc 10 i))

-- What is still to be read at index `i`, and what has been added up, make the value.
length_loop-le_value :
    (xs : Bytes) (i acc : ℕ)
    → i ≤ length xs
    → i ≤ 10
    → acc + le_value (take i xs) < u32_bound
    → length_loop xs i acc ≡ some (acc + le_value (take i xs))
unfolding length_loop
length_loop-le_value xs zero acc hi ht h = ground arith
length_loop-le_value xs (suc i) acc hi ht h =
    let (d, e) = get_elem?_below xs i (omega arith) in
    ground (
      arith,
      e,
      le_value-take_suc xs i d e,
      pow_ten_fits i (omega arith),
      length_loop-le_value xs i (acc + 10 ^ i * d) (omega arith) (omega arith),
    )

encode_loop-le_digits :
    (fuel val : ℕ) (digits : Bytes) → encode_loop fuel val digits ≡ digits ++ le_digits fuel val
unfolding encode_loop
encode_loop-le_digits zero val digits = sym (append-nil digits)
encode_loop-le_digits (suc fuel) val digits = ground (
  arith,
  encode_loop-le_digits fuel (val / 10) (digits ++ val % 10 ∷ []),
  append_assoc digits (val % 10 ∷ []) (le_digits fuel (val / 10)),
  append-nil digits,
)

-- The field of a positive length: its decimal digits, least significant first.
pub encode_packet_length-le_digits : (n : ℕ) → 0 < n → encode_packet_length n ≡ le_digits n n
unfolding encode_packet_length
encode_packet_length-le_digits n h = ground (arith, encode_loop-le_digits n n [])

pub encode_packet_length_bytes :
    (n : ℕ) → 0 < n → All (λ d. d < 10) (encode_packet_length n) × (encode_packet_length n ≢ [])
encode_packet_length_bytes n h =
    rw (encode_packet_length-le_digits n h) (le_digits-lt_ten n n, le_digits-ne-nil n h)

packet_length-le_value :
    (xs : Bytes)
    → xs ≢ []
    → length xs ≤ 10
    → le_value xs < u32_bound
    → packet_length xs ≡ some (le_value xs)
unfolding packet_length
packet_length-le_value [] ne hl h = absurd (ne refl)
packet_length-le_value (x ∷ xs) ne hl h =
    let read = length_loop-le_value (x ∷ xs) (suc (length xs)) 0 (omega arith) hl in
    ground (arith, take_all (x ∷ xs), read)

-- Every length below 2^32 is read back, and no step of the reading overflows.
pub packet_length-encode : (n : ℕ) → n < u32_bound → packet_length (encode_packet_length n) ≡ some n
packet_length-encode zero h = unfold packet_length encode_packet_length in refl
packet_length-encode (suc n) h = rw (encode_packet_length-le_digits (suc n) (omega arith)) (
    packet_length-le_value (le_digits (suc n) (suc n)) (le_digits-ne-nil (suc n) (omega arith))
      (length-le_digits 10 (suc n) (suc n) (omega arith))
      (omega (arith, le_value-digits (suc n) (suc n) (omega arith)))
    ∙ ap some (le_value-digits (suc n) (suc n) (omega arith)))
