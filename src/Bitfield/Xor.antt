-- ===== src/Bitfield/Xor.antt =====
-- The exclusive or of two numbers, by its bits.
use Prim.Native.Nat.{bit_xor, bit_xor-bitwise, differ}
use mac_fdisk.Base.{ℕ, zero, suc, ◌+◌, ◌*◌, ◌/◌, ◌%◌, ◌≡◌, ◌<◌, refl, arith}
use mac_fdisk.Bitfield.Bits.{bit, lowest_digit}

differ-digits : (a b : ℕ) → a < 2 → b < 2 → differ a b ≡ (a + b) % 2
differ-digits zero b h k = omega arith
differ-digits (suc zero) zero h k = refl
differ-digits (suc zero) (suc zero) h k = refl
differ-digits (suc zero) (suc (suc b)) h k = absurd (omega arith)
differ-digits (suc (suc a)) b h k = absurd (omega arith)

bit_xor-halves : (x y : ℕ) → bit_xor x y ≡ bit_xor (x / 2) (y / 2) * 2 + (x % 2 + y % 2) % 2
bit_xor-halves zero y = simp bit_xor-bitwise (omega arith)
bit_xor-halves (suc x) y =
    let d = differ-digits (suc x % 2) (y % 2) (omega arith) (omega arith) in
    simp bit_xor-bitwise (omega (arith, lowest_digit (λ t. t) differ (suc x) y (omega arith), d))

pub bit-bit_xor : (i a b : ℕ) → bit i (bit_xor a b) ≡ (bit i a + bit i b) % 2
unfolding bit
bit-bit_xor zero a b = omega (arith, bit_xor-halves a b)
bit-bit_xor (suc i) a b = rw halve (bit-bit_xor i (a / 2) (b / 2))
  where
    halve : bit_xor a b / 2 ≡ bit_xor (a / 2) (b / 2)
    halve = omega (arith, bit_xor-halves a b)
