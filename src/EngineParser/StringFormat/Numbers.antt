-- ===== src/EngineParser/StringFormat/Numbers.antt =====
-- engine_io_parser/src/string.rs: the numbers in front of a packet, its length and its type.
use socket_io_server_rust.Prelude.{
  ℕ, ◌+◌, ◌*◌, ◌≤◌, ◌<◌, ◌≡◌, ◌≢◌, refl, ◌∙◌, ltb, if◌then◌else◌, List, [], ◌∷◌, ◌++◌, All, IsDigit,
  NoDigitFirst, digit_value, digits_value, digits_value-to_string, to_string, to_string-IsDigit,
  to_string-ne-nil, usize_bound, arith,
}
use socket_io_server_rust.Nom.{Input, digit, parsed, error, failure, Combinators}
use socket_io_server_rust.EngineParser.Packet.{
  PacketType, open', close, ping, pong, message, upgrade, noop, Packet, as_u8, parse_from_u8,
}
use socket_io_server_rust.EngineParser.StringFormat.{take_u8, take_usize}

-- A packet type is printed as one digit.
pub to_string-as_u8 : (t : PacketType) → to_string (as_u8 t) ≡ (as_u8 t + b'0') ∷ []
unfolding to_string
to_string-as_u8 open' = refl
to_string-as_u8 close = refl
to_string-as_u8 ping = refl
to_string-as_u8 pong = refl
to_string-as_u8 message = refl
to_string-as_u8 upgrade = refl
to_string-as_u8 noop = refl

pub as_u8-IsDigit : (t : PacketType) → IsDigit (as_u8 t + b'0')
as_u8-IsDigit t = ground arith

pub digits_value_grows : (acc : ℕ) (ds : List ℕ) → acc ≤ digits_value acc ds
digits_value_grows acc [] = omega arith
digits_value_grows acc (d ∷ ds) = omega (arith, digits_value_grows (acc * 10 + digit_value d) ds)

-- A number above 6 is no packet type.
pub parse_from_u8_above :
    (n : ℕ) (input : Input) → 6 < n → parse_from_u8 n input ≡ error input digit
unfolding parse_from_u8
parse_from_u8_above n input h = ground arith

module _ (nom : Combinators Packet) where
  pub take_u8-digits :
      (ds rest : Input)
      → ds ≢ []
      → All IsDigit ds
      → NoDigitFirst rest
      → take_u8 nom (ds ++ rest) ≡ (
          if ltb (digits_value 0 ds) 256
          then parsed (rest, digits_value 0 ds)
          else failure rest digit)
  unfolding take_u8
  take_u8-digits ds rest ne all first = rw (nom.digit1-append ds rest ne all first)

  -- The type is read as it was written where no digit follows it.
  pub take_u8-as_u8 :
      (t : PacketType) (rest : Input)
      → NoDigitFirst rest
      → take_u8 nom ((as_u8 t + b'0') ∷ rest) ≡ parsed (rest, as_u8 t)
  take_u8-as_u8 t rest first =
      take_u8-digits ((as_u8 t + b'0') ∷ []) rest (λ e. cc) (as_u8-IsDigit t, tt) first
      ∙ ground arith

  -- A length is read as it was written, up to the character behind it.
  pub take_usize-to_string :
      (n : ℕ) (rest : Input)
      → n < usize_bound
      → NoDigitFirst rest
      → take_usize nom (to_string n ++ rest) ≡ parsed (rest, n)
  unfolding take_usize
  take_usize-to_string n rest h first =
      rw (nom.digit1-append (to_string n) rest (to_string-ne-nil n) (to_string-IsDigit n) first)
        (rw (digits_value-to_string n) (ground arith))
