-- ===== src/Bitfield/Laws.antt =====
-- What `bitfield_set` and `bitfield_get` do to each bit of the word.
use native.Mathlib.Nat.{div-le_self, mod-le, mod-lt, one-le-pow}
use mac_fdisk.Base.{
  ℕ, ◌+◌, ◌-◌, ◌*◌, ◌%◌, ◌^◌, ◌≤◌, ◌<◌, ◌≡◌, ◌⊎◌, inl, inr, refl, ◌∙◌, arith, true, ◌&&◌, ltb, leb,
  ◌==◌, if◌then◌else◌, holds_up_to, holds_up_to_lem, ==_iff, get_or, Bool-cases,
}
use mac_fdisk.Bitfield.{masks, shl32, not32, bitfield_set, bitfield_get}
use mac_fdisk.Bitfield.Bits.{
  bit, bit-bit_and, bit-bit_or, bit-le-one, bit-shr, bit-shl, bit-shl_low, bit-mod, bit-not,
  bit-high, bit-mask, eq_of_bits, bit_or-lt, bit_and-lt,
}

masks_table : holds_up_to (λ l. get_or masks l 0 == 2 ^ l - 1) 32 ≡ true
unfolding holds_up_to
masks_table = refl

-- The table's entry `l` has `l` ones.
masks_lem : (l : ℕ) → l ≤ 32 → get_or masks l 0 ≡ 2 ^ l - 1
masks_lem l h =
    (==_iff _ _).0 (holds_up_to_lem (λ l. get_or masks l 0 == 2 ^ l - 1) 32 l h masks_table)

bit-shl32 : (i s x : ℕ) → i < 32 → bit i (shl32 x s) ≡ (if ltb i s then 0 else bit (i - s) x)
unfolding shl32
bit-shl32 i s x h = elim (Bool-cases (ltb i s)) [
  | inl low ↦ rw (low, bit-mod 32 i (x * 2 ^ s) h) (bit-shl_low s i x (ground arith))
  | inr high ↦
      let e : i - s + s ≡ i = ground arith in
      rw high (bit-mod 32 i (x * 2 ^ s) h ∙ rw e at (bit-shl s (i - s) x))
]

shl32-lt : (x s : ℕ) → shl32 x s < 2 ^ 32
unfolding shl32
shl32-lt x s = omega arith

bit-not32 : (i x : ℕ) → i < 32 → x < 2 ^ 32 → bit i (not32 x) ≡ 1 - bit i x
unfolding not32
bit-not32 i x h b = bit-not 32 i x h b

-- The bits of the two routines, for a field of `length` bits that ends at bit `base`.
module _ (bf base length : ℕ) (fits : length ≤ base + 1) (top : base < 32)
    (small : bf < 2 ^ 32) where
  pub bit-bitfield_get :
      (i : ℕ)
      → bit i (bitfield_get bf base length)
        ≡ (if ltb i length then bit (i + (base + 1 - length)) bf else 0)
  unfolding bitfield_get
  bit-bitfield_get i =
      rw (masks_lem length (omega arith), bit-bit_and, bit-mask, bit-shr)
        (ground (arith, bit-le-one (i + (base + 1 - length)) bf))

  -- For a field within a word of 32 bits: every bit of the word after a write is the value's bit
  -- inside the field, and the old bit outside.
  pub bit-bitfield_set :
      (value i : ℕ)
      → i < 32
      → bit i (bitfield_set bf base length value) ≡ (
          if leb (base + 1 - length) i && leb i base
          then bit (i - (base + 1 - length)) value
          else bit i bf)
  unfolding bitfield_set
  bit-bitfield_set value i h =
      let s = base + 1 - length in
      let m = 2 ^ length - 1 in
      rw
        (
          masks_lem length (omega arith),
          bit-bit_or,
          bit-bit_and,
          bit-not32 i _ h (shl32-lt m s),
          bit-shl32 i s m h,
          bit-shl32 i s _ h,
          bit-mask,
          bit-bit_and,
          bit-mask,
        )
        (ground (arith, bit-le-one i bf, bit-le-one (i - s) value))

  pub bitfield_set-lt : (value : ℕ) → bitfield_set bf base length value < 2 ^ 32
  unfolding bitfield_set
  bitfield_set-lt value =
      bit_or-lt 32 _ _ (bit_and-lt 32 bf _ small) (shl32-lt _ (base + 1 - length))

  pub bitfield_get-lt : bitfield_get bf base length < 2 ^ 32
  unfolding bitfield_get
  bitfield_get-lt = bit_and-lt 32 _ _ (omega (arith, div-le_self bf (2 ^ (base + 1 - length))))

bit-mod_low : (w i x : ℕ) → bit i (x % 2 ^ w) ≡ (if ltb i w then bit i x else 0)
bit-mod_low w i x = elim (Bool-cases (ltb i w)) [
  | inl low ↦ rw low (bit-mod w i x (ground arith))
  | inr high ↦ rw high (bit-high w i _ (ground arith) (mod-lt x (one-le-pow w 2 (omega arith))))
]

-- In a word of 32 bits, with a value of 32 bits: reading a field just written gives the value, cut
-- to the field's width.
pub bitfield_get-set :
    (bf base length value : ℕ)
    → length ≤ base + 1
    → base < 32
    → bf < 2 ^ 32
    → value < 2 ^ 32
    → bitfield_get (bitfield_set bf base length value) base length ≡ value % 2 ^ length
bitfield_get-set bf base length value fits top small fit =
    eq_of_bits 32 _ _
      (bitfield_get-lt _ base length fits top (bitfield_set-lt bf base length fits top small value))
      (omega (arith, mod-le value (2 ^ length)))
      λ i h.
        rw
          (
            bit-bitfield_get _ base length fits top
                (bitfield_set-lt bf base length fits top small value),
            bit-mod_low length i value,
          )
          (ground
            (arith, bit-bitfield_set bf base length fits top small value (i + (base + 1 - length))))

-- In a word of 32 bits, writing a field leaves every field that lies above or below it as it was.
pub bitfield_get-set_ne :
    (bf base length value other width : ℕ)
    → length ≤ base + 1
    → base < 32
    → width ≤ other + 1
    → other < 32
    → bf < 2 ^ 32
    → (base + width ≤ other) ⊎ (other + length ≤ base)
    → bitfield_get (bitfield_set bf base length value) other width ≡ bitfield_get bf other width
bitfield_get-set_ne bf base length value other width fits top fits' top' small apart =
    eq_of_bits 32 _ _ (bitfield_get-lt _ other width fits' top' after)
      (bitfield_get-lt _ other width fits' top' small)
      λ i h.
        rw
          (
            bit-bitfield_get _ other width fits' top' after,
            bit-bitfield_get bf other width fits' top' small,
          )
          (ground
            (arith, bit-bitfield_set bf base length fits top small value (i + (other + 1 - width))))
  where
    after : bitfield_set bf base length value < 2 ^ 32
    after = bitfield_set-lt bf base length fits top small value
