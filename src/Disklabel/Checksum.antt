-- ===== src/Disklabel/Checksum.antt =====
-- The exclusive or that `bsd_dkcksum` makes.
use Prim.Native.Nat.{bit_xor}
use native.Mathlib.Nat.{pow-suc}
use mac_fdisk.Base.{ℕ, zero, suc, ◌+◌, ◌%◌, ◌^◌, ◌≡◌, ◌<◌, ap, sym, ◌∙◌, arith, List, [], ◌∷◌, ◌++◌}
use mac_fdisk.Bitfield.Bits.{bit, bit-zero, bit-le-one, eq_of_bits}
use mac_fdisk.Bitfield.Xor.{bit-bit_xor}
use mac_fdisk.Disklabel.{xor_words}

-- How many of the words have bit `i`.
unfoldable ones : ℕ → List ℕ → ℕ
ones i [] = 0
ones i (w ∷ l) = bit i w + ones i l

bit-xor_words : (i sum : ℕ) (l : List ℕ) → bit i (xor_words sum l) ≡ (bit i sum + ones i l) % 2
unfolding xor_words ones
bit-xor_words i sum [] = omega (arith, bit-le-one i sum)
bit-xor_words i sum (w ∷ l) = omega (arith, bit-xor_words i (bit_xor sum w) l, bit-bit_xor i sum w)

ones-append : (i : ℕ) (l r : List ℕ) → ones i (l ++ r) ≡ ones i l + ones i r
unfolding ones
ones-append i [] r = omega arith
ones-append i (w ∷ l) r = omega (arith, ones-append i l r)

lt-two_pow : (x : ℕ) → x < 2 ^ x
lt-two_pow zero = omega arith
lt-two_pow (suc x) = omega (arith, lt-two_pow x, pow-suc 2 x)

zero_of_bits : (x : ℕ) → ((i : ℕ) → bit i x ≡ 0) → x ≡ 0
zero_of_bits x clear =
    eq_of_bits x x 0 (lt-two_pow x) (omega (arith, lt-two_pow x))
      (λ i h. clear i ∙ sym (bit-zero i))

-- A word that is the exclusive or of the others brings the whole to 0.
pub xor_words-balanced :
    (front back : List ℕ) (sum : ℕ)
    → sum ≡ xor_words 0 (front ++ (0 ∷ back))
    → xor_words 0 (front ++ (sum ∷ back)) ≡ 0
unfolding ones
xor_words-balanced front back sum e = zero_of_bits _ (λ i. balance i)
  where
    balance : (i : ℕ) → bit i (xor_words 0 (front ++ (sum ∷ back))) ≡ 0
    balance i = omega (
      arith,
      ap (bit i) e,
      bit-zero i,
      bit-xor_words i 0 (front ++ (0 ∷ back)),
      bit-xor_words i 0 (front ++ (sum ∷ back)),
      ones-append i front (0 ∷ back),
      ones-append i front (sum ∷ back),
    )
