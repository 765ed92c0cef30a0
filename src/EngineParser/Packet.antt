-- ===== src/EngineParser/Packet.antt =====
-- engine_io_parser/src/packet.rs: packet types, packet data and packets.
use socket_io_server_rust.Prelude.{
  ◌⊎◌, inl, inr, panic, ℕ, ◌≡◌, refl, Bytes, Str, ◌==◌, if◌then◌else◌, Outcome, ok, err,
}
use Prim.Native.String.{String}
use socket_io_server_rust.Nom.{Input, digit, IResult, parsed, error}

pub data PacketType : Type 0 where
  open' close ping pong message upgrade noop : PacketType

pub data PacketData : Type 0 where
  text : Str → PacketData
  binary : Bytes → PacketData
  empty : PacketData

pub record Packet : Type 0 where
  pub packet_type : PacketType
  pub data' : PacketData

pub record ParsePacketError : Type 0 where
  pub message : String

-- `packet_type as u8`.
abbrev pub as_u8 : PacketType → ℕ
as_u8 open' = 0
as_u8 close = 1
as_u8 ping = 2
as_u8 pong = 3
as_u8 message = 4
as_u8 upgrade = 5
as_u8 noop = 6

unfoldable pub try_from : ℕ → Outcome ParsePacketError PacketType
try_from value =
    if value == 0
    then ok open'
    else if value == 1
    then ok close
    else if value == 2
    then ok ping
    else if value == 3
    then ok pong
    else if value == 4
    then ok message
    else if value == 5
    then ok upgrade
    else if value == 6
    then ok noop
    else err (record { message = "Invalid packet" })

abbrev or_digit_error : Input → Outcome ParsePacketError PacketType → IResult PacketType
or_digit_error original_input (ok packet_type) = parsed (original_input, packet_type)
or_digit_error original_input _ = error original_input digit

-- Takes no input: what is left is the `original_input`.
unfoldable pub parse_from_u8 : ℕ → Input → IResult PacketType
unfolding try_from
parse_from_u8 value original_input = or_digit_error original_input (try_from value)

or_digit_error-cases :
    (input : Input) (o : Outcome ParsePacketError PacketType)
    → ((t : PacketType) × (or_digit_error input o ≡ parsed (input, t)))
      ⊎ (or_digit_error input o ≡ error input digit)
or_digit_error-cases input (ok t) = inl (t, refl)
or_digit_error-cases input (err e) = inr refl
or_digit_error-cases input panic = inr refl

pub parse_from_u8-cases :
    (value : ℕ) (input : Input)
    → ((t : PacketType) × (parse_from_u8 value input ≡ parsed (input, t)))
      ⊎ (parse_from_u8 value input ≡ error input digit)
unfolding parse_from_u8
parse_from_u8-cases value input = or_digit_error-cases input (try_from value)

pub parse_from_u8-as_u8 :
    (t : PacketType) (input : Input) → parse_from_u8 (as_u8 t) input ≡ parsed (input, t)
unfolding parse_from_u8
parse_from_u8-as_u8 open' input = refl
parse_from_u8-as_u8 close input = refl
parse_from_u8-as_u8 ping input = refl
parse_from_u8-as_u8 pong input = refl
parse_from_u8-as_u8 message input = refl
parse_from_u8-as_u8 upgrade input = refl
parse_from_u8-as_u8 noop input = refl
