-- ===== src/Base/Word.antt =====
-- Machine words: `u32` arithmetic wraps modulo 2 ^ 32, and a `u32` read as an `int`.
use mac_fdisk.Base.Tests.{ltb, if◌then◌else◌}
use Prim.Native.Nat.{ℕ, ◌+◌, ◌-◌, ◌%◌, ◌^◌, ◌≤◌, ◌<◌}
use mathlib.Core.Path.{◌≡◌}
use mathlib.Core.Bool.{Bool}
use mathlib.Core.Option.{Option, none, some}
use native.Mathlib.Omega.{arith}

abbrev pub u32_mod : ℕ
u32_mod = 2 ^ 32

unfoldable pub add32 : ℕ → ℕ → ℕ
add32 a b = (a + b) % 2 ^ 32

-- `-` on ℕ stops at 0, so the modulus is added first.
unfoldable pub sub32 : ℕ → ℕ → ℕ
sub32 a b = (a + 2 ^ 32 - b) % 2 ^ 32

-- A 32-bit value stored in an `int` of which only the sign and, where it is not negative, the
-- value are read: `none` is any negative number.
unfoldable pub to_int : ℕ → Option ℕ
to_int x = if ltb x (2 ^ 31) then some x else none

-- The order of the signed 32-bit values with these bit patterns: the unsigned order with the sign bit
-- turned over, which `biased` does.
unfoldable pub biased : ℕ → ℕ
unfolding add32
biased x = add32 x (2 ^ 31)

unfoldable pub signed_ltb : ℕ → ℕ → Bool
unfolding biased
signed_ltb a b = ltb (biased a) (biased b)

pub add32_exact : (a b : ℕ) → a + b < 2 ^ 32 → add32 a b ≡ a + b
unfolding add32
add32_exact a b h = omega arith

pub sub32_exact : (a b : ℕ) → b ≤ a → a < 2 ^ 32 → sub32 a b ≡ a - b
unfolding sub32
sub32_exact a b h k = omega arith
