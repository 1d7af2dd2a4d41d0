-- ===== src/Bitfield/Bits.antt =====
-- The bit of a number at a position, and what the bit operations do to it.
use Prim.Native.Nat.{bit_and, bit_or, digits, bitwise, bit_and-bitwise, bit_or-bitwise, max}
use native.Mathlib.Nat.{pow-suc, one-le-pow, div-div-eq-div-mul, mod_def, div-add-mod}
use mac_fdisk.Base.{
  ℕ, zero, suc, ◌+◌, ◌-◌, ◌*◌, ◌/◌, ◌%◌, ◌^◌, ◌≤◌, ◌<◌, min, ◌≡◌, refl, ap, ◌∙◌, subst, arith, ltb,
  if◌then◌else◌,
}

-- `digits` runs on fuel: fuel beyond the first number changes nothing, so `bitwise`, which starts
-- with that much, can be read off one digit at a time.
module _ (low : ℕ → ℕ) (op : ℕ → ℕ → ℕ) where
  spare : (fuel x y : ℕ) → x ≤ fuel → digits low op (suc fuel) x y ≡ digits low op fuel x y
  spare zero x y h = let e : x ≡ 0 = omega arith in rw e refl
  spare (suc fuel) zero y h = refl
  spare (suc fuel) (suc x) y h = rw (spare fuel (suc x / 2) (y / 2) (omega arith))

  spares :
      (extra fuel x y : ℕ) → x ≤ fuel → digits low op (extra + fuel) x y ≡ digits low op fuel x y
  spares zero fuel x y h = let e : 0 + fuel ≡ fuel = omega arith in rw e
  spares (suc extra) fuel x y h =
      let e : suc extra + fuel ≡ suc (extra + fuel) = omega arith in
      rw e (spare (extra + fuel) x y (omega arith) ∙ spares extra fuel x y h)

  pub lowest_digit :
      (x y : ℕ)
      → 0 < x
      → bitwise low op x y ≡ bitwise low op (x / 2) (y / 2) * 2 + op (x % 2) (y % 2)
  lowest_digit zero y h = absurd (omega arith)
  lowest_digit (suc x) y h =
      let half = suc x / 2 in
      let e : x - half + half ≡ x = omega arith in
      let cut : digits low op x half (y / 2) ≡ digits low op half half (y / 2) =
        subst (λ (t : ℕ). digits low op t half (y / 2) ≡ digits low op half half (y / 2)) e
          (spares (x - half) half half (y / 2) (omega arith)) in
      omega (arith, cut)

bit_and-halves : (x y : ℕ) → bit_and x y ≡ bit_and (x / 2) (y / 2) * 2 + min (x % 2) (y % 2)
bit_and-halves zero y = simp bit_and-bitwise (omega arith)
bit_and-halves (suc x) y = simp bit_and-bitwise (lowest_digit (λ t. 0) min (suc x) y (omega arith))

bit_or-halves : (x y : ℕ) → bit_or x y ≡ bit_or (x / 2) (y / 2) * 2 + max (x % 2) (y % 2)
bit_or-halves zero y = simp bit_or-bitwise (omega arith)
bit_or-halves (suc x) y = simp bit_or-bitwise (lowest_digit (λ t. t) max (suc x) y (omega arith))

-- Bit `i` of `x`, as 0 or 1.
unfoldable pub bit : ℕ → ℕ → ℕ
bit zero x = x % 2
bit (suc i) x = bit i (x / 2)

pub bit-bit_and : (i a b : ℕ) → bit i (bit_and a b) ≡ min (bit i a) (bit i b)
unfolding bit
bit-bit_and zero a b = omega (arith, bit_and-halves a b)
bit-bit_and (suc i) a b = rw halve (bit-bit_and i (a / 2) (b / 2))
  where
    halve : bit_and a b / 2 ≡ bit_and (a / 2) (b / 2)
    halve = omega (arith, bit_and-halves a b)

pub bit-bit_or : (i a b : ℕ) → bit i (bit_or a b) ≡ max (bit i a) (bit i b)
unfolding bit
bit-bit_or zero a b = omega (arith, bit_or-halves a b)
bit-bit_or (suc i) a b = rw halve (bit-bit_or i (a / 2) (b / 2))
  where
    halve : bit_or a b / 2 ≡ bit_or (a / 2) (b / 2)
    halve = omega (arith, bit_or-halves a b)

pub bit-le-one : (i x : ℕ) → bit i x ≤ 1
unfolding bit
bit-le-one zero x = omega arith
bit-le-one (suc i) x = bit-le-one i (x / 2)

pub bit-zero : (i : ℕ) → bit i 0 ≡ 0
unfolding bit
bit-zero zero = refl
bit-zero (suc i) = bit-zero i

div-two-pow : (x s : ℕ) → x / 2 ^ suc s ≡ x / 2 / 2 ^ s
div-two-pow x s =
    let e : 2 ^ suc s ≡ 2 * 2 ^ s = omega (arith, pow-suc 2 s) in
    rw (div-div-eq-div-mul x 2 (2 ^ s)) (ap (λ (t : ℕ). x / t) e)

-- `x >> s`
pub bit-shr : (i s x : ℕ) → bit i (x / 2 ^ s) ≡ bit (i + s) x
unfolding bit
bit-shr i zero x = let e : i + 0 ≡ i = omega arith in let f : x / 1 ≡ x = omega arith in rw (e, f)
bit-shr i (suc s) x =
    let e : i + suc s ≡ suc (i + s) = omega arith in
    let d : x / 2 ^ suc s ≡ x / 2 / 2 ^ s = div-two-pow x s in rw (e, d) (bit-shr i s (x / 2))

mul-two-pow : (q k : ℕ) → q * 2 ^ suc k ≡ 2 * (q * 2 ^ k)
mul-two-pow q k = omega (arith, ap (λ (t : ℕ). q * t) (pow-suc 2 k))

-- `x << s`, below and above the place shifted to.
pub bit-shl_low : (s i x : ℕ) → i < s → bit i (x * 2 ^ s) ≡ 0
unfolding bit
bit-shl_low zero i x h = elim h [ ]
bit-shl_low (suc s) zero x h = omega (arith, mul-two-pow x s)
bit-shl_low (suc s) (suc i) x h = rw halve (bit-shl_low s i x (omega arith))
  where
    halve : x * 2 ^ suc s / 2 ≡ x * 2 ^ s
    halve = omega (arith, mul-two-pow x s)

pub bit-shl : (s i x : ℕ) → bit (i + s) (x * 2 ^ s) ≡ bit i x
unfolding bit
bit-shl zero i x = let e : i + 0 ≡ i = omega arith in let f : x * 1 ≡ x = omega arith in rw (e, f)
bit-shl (suc s) i x =
    let e : i + suc s ≡ suc (i + s) = omega arith in
    let halve : x * 2 ^ suc s / 2 ≡ x * 2 ^ s = omega (arith, mul-two-pow x s) in
    ap (λ (t : ℕ). bit t (x * 2 ^ suc s)) e ∙ ap (bit (i + s)) halve ∙ bit-shl s i x

mod-two-pow : (x w : ℕ) → x % 2 ^ suc w ≡ 2 * (x / 2 % 2 ^ w) + x % 2
mod-two-pow x w =
    rw (mod_def x (2 ^ suc w), div-two-pow x w, pow-suc 2 w)
      (omega (arith, div-add-mod (x / 2) (2 ^ w)))

-- The low `w` bits.
pub bit-mod : (w i x : ℕ) → i < w → bit i (x % 2 ^ w) ≡ bit i x
unfolding bit
bit-mod zero i x h = elim h [ ]
bit-mod (suc w) zero x h = omega (arith, mod-two-pow x w)
bit-mod (suc w) (suc i) x h =
    let halve : x % 2 ^ suc w / 2 ≡ x / 2 % 2 ^ w = omega (arith, mod-two-pow x w) in
    rw halve (bit-mod w i (x / 2) (omega arith))

-- `~x` on `w` bits.
pub bit-not : (w i x : ℕ) → i < w → x < 2 ^ w → bit i (2 ^ w - 1 - x) ≡ 1 - bit i x
unfolding bit
bit-not zero i x h b = elim h [ ]
bit-not (suc w) zero x h b = omega (arith, pow-suc 2 w)
bit-not (suc w) (suc i) x h b =
    let halve : (2 ^ suc w - 1 - x) / 2 ≡ 2 ^ w - 1 - x / 2 = omega (arith, pow-suc 2 w) in
    rw halve (bit-not w i (x / 2) (omega arith) (omega (arith, pow-suc 2 w)))

-- Above the width every bit is 0.
pub bit-high : (w i x : ℕ) → w ≤ i → x < 2 ^ w → bit i x ≡ 0
unfolding bit
bit-high zero i x h b = let e : x ≡ 0 = omega arith in rw e (bit-zero i)
bit-high (suc w) zero x h b = absurd (omega arith)
bit-high (suc w) (suc i) x h b = bit-high w i (x / 2) (omega arith) (omega (arith, pow-suc 2 w))

-- The mask of `l` ones.
pub bit-mask : (l i : ℕ) → bit i (2 ^ l - 1) ≡ (if ltb i l then 1 else 0)
unfolding bit
bit-mask zero i = ground (arith, bit-zero i)
bit-mask (suc l) zero = ground (arith, pow-suc 2 l, one-le-pow l 2)
bit-mask (suc l) (suc i) =
    let halve : (2 ^ suc l - 1) / 2 ≡ 2 ^ l - 1 = omega (arith, pow-suc 2 l, one-le-pow l 2) in
    rw halve (ground (arith, bit-mask l i))

-- Two `w`-bit words with the same bits are equal.
pub eq_of_bits : (w x y : ℕ) → x < 2 ^ w → y < 2 ^ w → ((i : ℕ) → i < w → bit i x ≡ bit i y) → x ≡ y
unfolding bit
eq_of_bits zero x y hx hy same = omega arith
eq_of_bits (suc w) x y hx hy same =
    let halves : x / 2 ≡ y / 2 =
      eq_of_bits w (x / 2) (y / 2) (omega (arith, pow-suc 2 w)) (omega (arith, pow-suc 2 w))
        (λ i h. same (suc i) (omega arith)) in
    omega (arith, same 0 (omega arith), halves)

-- The operations stay within a width.
pub bit_or-lt : (w a b : ℕ) → a < 2 ^ w → b < 2 ^ w → bit_or a b < 2 ^ w
bit_or-lt zero a b h k =
    let e : a ≡ 0 = omega arith in let f : b ≡ 0 = omega arith in rw (e, f) (omega arith)
bit_or-lt (suc w) a b h k = omega (
  arith,
  pow-suc 2 w,
  bit_or-halves a b,
  bit_or-lt w (a / 2) (b / 2) (omega (arith, pow-suc 2 w)) (omega (arith, pow-suc 2 w)),
)

pub bit_and-lt : (w a b : ℕ) → a < 2 ^ w → bit_and a b < 2 ^ w
bit_and-lt zero a b h = let e : a ≡ 0 = omega arith in rw (e, bit_and-bitwise) (omega arith)
bit_and-lt (suc w) a b h = omega (
  arith,
  pow-suc 2 w,
  bit_and-halves a b,
  bit_and-lt w (a / 2) (b / 2) (omega (arith, pow-suc 2 w)),
)

bit_and-zero : (n x : ℕ) → x ≤ n → bit_and x 0 ≡ 0
bit_and-zero zero x h = let e : x ≡ 0 = omega arith in rw e refl
bit_and-zero (suc n) x h = omega (arith, bit_and-halves x 0, bit_and-zero n (x / 2) (omega arith))

-- A mask below `2 ^ w` looks at no bit above.
pub bit_and-mod : (w a m : ℕ) → m < 2 ^ w → bit_and a m ≡ bit_and (a % 2 ^ w) m
bit_and-mod zero a m h =
    let e : m ≡ 0 = omega arith in
    rw e (omega (arith, bit_and-zero a a (omega arith), bit_and-zero (a % 1) (a % 1) (omega arith)))
bit_and-mod (suc w) a m h =
    let halve : a % 2 ^ suc w / 2 ≡ a / 2 % 2 ^ w = omega (arith, mod-two-pow a w) in
    omega (
      arith,
      mod-two-pow a w,
      bit_and-halves a m,
      bit_and-halves (a % 2 ^ suc w) m,
      ap (λ (t : ℕ). bit_and t (m / 2)) halve,
      bit_and-mod w (a / 2) (m / 2) (omega (arith, pow-suc 2 w)),
    )
