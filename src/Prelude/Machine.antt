-- ===== src/Prelude/Machine.antt =====
-- What a Rust function answers: `Ok`, `Err`, or a panic. Arithmetic on machine words is checked, as
-- in a build with overflow checks: an overflow is a panic.
use Prim.Native.Nat.{ℕ, ◌-◌, ◌^◌}
use mathlib.Core.Option.{Option, none, some}
use socket_io_server_rust.Prelude.Tests.{ltb, leb, if◌then◌else◌}

pub data Outcome {ℓ} (E A : Type ℓ) : Type ℓ where
  ok : A → Outcome E A
  err : E → Outcome E A
  panic : Outcome E A

abbrev pub u32_bound : ℕ
u32_bound = 2 ^ 32

abbrev pub usize_bound : ℕ
usize_bound = 2 ^ 64

-- `none` is the panic.
abbrev pub fits_u32 : ℕ → Option ℕ
fits_u32 n = if ltb n u32_bound then some n else none

abbrev pub checked_sub : ℕ → ℕ → Option ℕ
checked_sub a b = if leb b a then some (a - b) else none
