-- ===== src/Fdisk/Sectors.antt =====
-- A sector number packed into the bytes of a partition's entry, and read back.
use Prim.Native.Nat.{bit_and, bit_or}
use native.Mathlib.Nat.{div-add-mod, mod-lt}
use mac_fdisk.Base.{
  ℕ, ◌+◌, ◌*◌, ◌/◌, ◌%◌, ◌^◌, ◌≡◌, ◌≤◌, ◌<◌, refl, ap, ap₂, ◌∙◌, arith, true, ◌==◌, ==_iff,
  holds_up_to, holds_up_to_lem,
}
use mac_fdisk.Fdisk.{Geometry, sector, cylinder, calculate, set_hsc}

-- The bit operations on the two bytes, by their tables.
high_bits_table : holds_up_to (λ k. bit_and k 0xc0 == k / 64 * 64) 255 ≡ true
unfolding holds_up_to
high_bits_table = refl

pub high_bits : (k : ℕ) → k ≤ 255 → bit_and k 0xc0 ≡ k / 64 * 64
high_bits k h =
    (==_iff _ _).0 (holds_up_to_lem (λ k. bit_and k 0xc0 == k / 64 * 64) 255 k h high_bits_table)

low_bits_table : holds_up_to (λ k. bit_and k 0x3f == k % 64) 255 ≡ true
unfolding holds_up_to
low_bits_table = refl

pub low_bits : (k : ℕ) → k ≤ 255 → bit_and k 0x3f ≡ k % 64
low_bits k h =
    (==_iff _ _).0 (holds_up_to_lem (λ k. bit_and k 0x3f == k % 64) 255 k h low_bits_table)

joined_byte_table : holds_up_to (λ k. bit_or (k % 64) (k / 64 * 64) == k) 255 ≡ true
unfolding holds_up_to
joined_byte_table = refl

joined_byte : (k : ℕ) → k ≤ 255 → bit_or (k % 64) (k / 64 * 64) ≡ k
joined_byte k h =
    (==_iff _ _).0
      (holds_up_to_lem (λ k. bit_or (k % 64) (k / 64 * 64) == k) 255 k h joined_byte_table)

low_byte_table : holds_up_to (λ k. bit_and k 0xff == k % 256) 1023 ≡ true
unfolding holds_up_to
low_byte_table = refl

pub low_byte : (q : ℕ) → q ≤ 1023 → bit_and q 0xff ≡ q % 256
low_byte q h =
    (==_iff _ _).0 (holds_up_to_lem (λ k. bit_and k 0xff == k % 256) 1023 q h low_byte_table)

joined_word_table : holds_up_to (λ k. bit_or (k % 256) (k / 256 * 256) == k) 1023 ≡ true
unfolding holds_up_to
joined_word_table = refl

joined_word : (q : ℕ) → q ≤ 1023 → bit_or (q % 256) (q / 256 * 256) ≡ q
joined_word q h =
    (==_iff _ _).0
      (holds_up_to_lem (λ k. bit_or (k % 256) (k / 256 * 256) == k) 1023 q h joined_word_table)

-- The sector byte for the sector `s` of cylinder `q`.
module _ (s q : ℕ) (few : s ≤ 63) (near : q ≤ 1023) where
  abbrev pub byte : ℕ
  byte = s + q / 256 * 64

  pub packed : bit_or s (bit_and (q / 4) 0xc0) ≡ byte
  packed =
      ap (bit_or s) (high_bits (q / 4) (omega arith))
      ∙ ap₂ bit_or (low_part) (high_part)
      ∙ joined_byte byte (omega arith)
    where
      low_part : s ≡ byte % 64
      low_part = omega arith

      high_part : q / 4 / 64 * 64 ≡ byte / 64 * 64
      high_part = omega arith

  pub sector_back : sector byte ≡ s
  unfolding sector
  sector_back = low_bits byte (omega arith) ∙ omega arith

  pub cylinder_back : cylinder byte (bit_and q 0xff) ≡ q
  unfolding cylinder
  cylinder_back =
      ap₂ bit_or (low_byte q near) (ap (λ (t : ℕ). t * 4) (high_bits byte (omega arith)) ∙ scaled)
      ∙ joined_word q near
    where
      scaled : byte / 64 * 64 * 4 ≡ q / 256 * 256
      scaled = omega arith

-- On a geometry whose heads fit a byte and with at most 63 sectors on a track, a 32-bit sector number
-- below cylinder 1024 is read back from the three bytes it was packed into.
pub calculate-set_hsc :
    (g : Geometry) (x : ℕ)
    → 0 < g.heads
    → g.heads ≤ 256
    → 0 < g.sectors
    → g.sectors ≤ 63
    → x / g.sectors / g.heads ≤ 1023
    → x < 2 ^ 32
    → calculate g (set_hsc g x) ≡ x
unfolding calculate set_hsc
calculate-set_hsc g x some_heads heads_fit some_sectors sectors_fit near small =
    let track = x / g.sectors in
    let q = track / g.heads in
    let s = x % g.sectors + 1 in
    let few : s ≤ 63 = omega (arith, mod-lt x some_sectors) in
    let head : track % g.heads % 256 ≡ track % g.heads = omega (arith, mod-lt track some_heads) in
    let short : (x % g.sectors + 1) % 256 ≡ s = omega (arith, few) in
    let in_track : track % g.heads + g.heads * q ≡ track =
      omega (arith, div-add-mod track g.heads) in
    rw
      (
        head,
        short,
        packed s q few near,
        sector_back s q few near,
        cylinder_back s q few near,
        in_track,
      )
      (omega (arith, div-add-mod x g.sectors))
