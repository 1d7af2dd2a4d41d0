-- ===== src/Fdisk/Entry/Packed.antt =====
-- What the three bytes of `set_hsc` say of a sector beyond cylinder 1023, and what they say to
-- `check_consistency`.
use Prim.Native.Nat.{bit_and}
use native.Mathlib.Nat.{div-add-mod, mod-lt}
use mac_fdisk.Base.{ℕ, ◌+◌, ◌*◌, ◌/◌, ◌%◌, ◌^◌, ◌≡◌, ◌≤◌, ◌<◌, refl, ap, ◌∙◌, arith}
use mac_fdisk.Fdisk.{Geometry, calculate, set_hsc}
use mac_fdisk.Bitfield.Bits.{bit_and-mod}
use mac_fdisk.Fdisk.Sectors.{packed, sector_back, cylinder_back}

-- A geometry that the entries of a table can describe.
pub record IsDescribed (g : Geometry) : Type 0 where
  pub some_heads : 0 < g.heads
  pub heads_fit : g.heads ≤ 256
  pub some_sectors : 0 < g.sectors
  pub sectors_fit : g.sectors ≤ 63

module _ (g : Geometry) (d : IsDescribed g) (x : ℕ) where
  abbrev pub track : ℕ
  track = x / g.sectors

  abbrev pub cyls : ℕ
  cyls = track / g.heads

  abbrev pub near : ℕ
  near = cyls % 1024

  -- Of the cylinder, the bytes keep the ten lowest bits.
  cyl_byte : bit_and cyls 0xff ≡ bit_and near 0xff
  cyl_byte = bit_and-mod 10 cyls 0xff (omega arith)

  sector_high : bit_and (cyls / 4) 0xc0 ≡ bit_and (near / 4) 0xc0
  sector_high =
      bit_and-mod 8 (cyls / 4) 0xc0 (omega arith) ∙ ap (λ (t : ℕ). bit_and t 0xc0) (omega arith)

  abbrev pub s : ℕ
  s = x % g.sectors + 1

  pub few : s ≤ 63
  few = omega (arith, mod-lt x d.some_sectors, d.sectors_fit)

  pub set_hsc_lem : set_hsc g x ≡ record {
    head = track % g.heads;
    sector_byte = s + near / 256 * 64;
    cyl = bit_and near 0xff;
  }
  unfolding set_hsc
  set_hsc_lem =
      let head : track % g.heads % 256 ≡ track % g.heads =
        omega (arith, mod-lt track d.some_heads, d.heads_fit) in
      let short : s % 256 ≡ s = omega (arith, few) in
      rw (head, short, cyl_byte, sector_high, packed s near few (omega arith)) refl

  -- The sector number that the bytes give is the number cut to the first 1024 cylinders.
  pub calculate_lem :
      x < 2 ^ 32 → calculate g (set_hsc g x) + cyls / 1024 * (1024 * g.heads * g.sectors) ≡ x
  unfolding calculate
  calculate_lem small =
      rw (set_hsc_lem, sector_back s near few (omega arith), cylinder_back s near few (omega arith))
        (omega (arith, whole, below))
    where
      split : cyls ≡ cyls / 1024 * 1024 + near
      split = omega arith

      tracks : track ≡ track % g.heads + g.heads * (cyls / 1024 * 1024 + near)
      tracks = omega (arith, div-add-mod track g.heads, ap (λ (t : ℕ). g.heads * t) split)

      product :
          g.sectors * (track % g.heads + g.heads * (cyls / 1024 * 1024 + near))
          ≡ g.sectors * (track % g.heads + g.heads * near)
            + cyls / 1024 * (1024 * g.heads * g.sectors)
      product = grind arith

      whole :
          g.sectors * (track % g.heads + g.heads * near)
            + cyls / 1024 * (1024 * g.heads * g.sectors)
            + x % g.sectors
          ≡ x
      whole = omega (arith, product, div-add-mod x g.sectors, ap (λ (t : ℕ). g.sectors * t) tracks)

      below : g.sectors * (track % g.heads + g.heads * near) + x % g.sectors < 2 ^ 32
      below = omega (arith, whole)
