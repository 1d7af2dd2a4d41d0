-- ===== src/Fdisk/Verify/Silent.antt =====
-- Where `check` has nothing to complain of.
use native.Mathlib.Nat.{div-add-mod, mod-lt}
use mac_fdisk.Base.{
  ℕ, suc, ◌+◌, ◌*◌, ◌/◌, ◌%◌, ◌^◌, ◌≡◌, ◌≤◌, ◌<◌, ap, refl, arith, true, false, ◌&&◌, some, [],
  ◌==◌, leb,
}
use mac_fdisk.Base.Word.{add32, sub32}
use mac_fdisk.Fdisk.{Geometry, set_hsc}
use mac_fdisk.Fdisk.Sectors.{sector_back, cylinder_back}
use mac_fdisk.Fdisk.Entry.{per_cylinder}
use mac_fdisk.Fdisk.Entry.Packed.{IsDescribed, track, cyls, near, s, few, set_hsc_lem}
use mac_fdisk.Fdisk.Entry.Bounds.{IsMeasured}
use mac_fdisk.Fdisk.Entry.Consistent.{head_of, full, next_zero, cylinder_of}
use mac_fdisk.Fdisk.Verify.{complaints, round_total, check}

module _ (g : Geometry) (d : IsDescribed g) (measured : IsMeasured g) (x : ℕ) (pos : 0 < x)
    (room : x + g.full_bits < 2 ^ 32) (ends : (x + 1) % per_cylinder g ≡ 0)
    (close : x / per_cylinder g ≤ 1023) (on_disk : x / per_cylinder g < g.cylinders) where
  last : (head_of g d x + 1 ≡ g.heads) × (x % g.sectors + 1 ≡ g.sectors)
  last = full g d x ((next_zero g d x).0 ends)

  some_bits : 0 < g.full_bits
  some_bits = grind (arith, d.some_heads, d.some_sectors, measured)

  abbrev q : ℕ
  q = cyls g d x

  low : near g d x ≡ q
  low = omega (arith, close, cylinder_of g d x)

  -- Both ways to count the sectors up to the end of a cylinder.
  total_lem : (q * g.sectors + x % g.sectors) * g.heads + head_of g d x ≡ x
  total_lem = omega (
    arith,
    counted,
    products,
    div-add-mod x g.sectors,
    ap (λ (t : ℕ). g.sectors * t) (div-add-mod (track g d x) g.heads),
    ap (λ (t : ℕ). t * g.heads) rows,
    last,
    shared,
    tracks,
  )
    where
      rows : q * g.sectors + x % g.sectors + 1 ≡ q * g.sectors + g.sectors
      rows = omega (arith, last)

      counted :
          (q * g.sectors + x % g.sectors + 1) * g.heads
          ≡ (q * g.sectors + x % g.sectors) * g.heads + g.heads
      counted = grind arith

      products : (q * g.sectors + g.sectors) * g.heads ≡ g.sectors * (g.heads * q + g.heads)
      products = grind arith

      tracks : g.sectors * (g.heads * q + head_of g d x + 1) ≡ g.sectors * (g.heads * q + g.heads)
      tracks = ap (λ (t : ℕ). g.sectors * t) (omega (arith, last))

      shared :
          g.sectors * (g.heads * q + head_of g d x + 1)
          ≡ g.sectors * (g.heads * q + head_of g d x) + g.sectors
      shared = grind arith

  abbrev c : ℕ
  c = near g d x

  real_s : sub32 (s g d x) 1 ≡ x % g.sectors
  unfolding sub32
  real_s = omega (arith, few g d x)

  real_total : ((c * g.sectors + x % g.sectors) * g.heads + head_of g d x) % 2 ^ 32 ≡ x
  real_total =
      let e = ap (λ (t : ℕ). (t * g.sectors + x % g.sectors) * g.heads) low in
      omega (arith, e, total_lem)

  no_round : round_total (suc (suc x)) g.full_bits x c x ≡ some (c, x)
  unfolding round_total add32
  no_round =
      let stops : leb ((x + g.full_bits) % 2 ^ 32) x ≡ false = ground (arith, some_bits) in
      rw (round_total, stops) refl

  silent : complaints g (head_of g d x) (x % g.sectors) x c x ≡ []
  unfolding complaints
  silent =
      let a : (x == 0) ≡ false = ground arith in
      let b : leb g.heads (head_of g d x) ≡ false =
        ground (arith, mod-lt (track g d x) d.some_heads) in
      let e : leb g.sectors (x % g.sectors) ≡ false = ground (arith, mod-lt x d.some_sectors) in
      let f : leb g.cylinders c ≡ false = ground (arith, low, on_disk, cylinder_of g d x) in
      let k : (x == x) ≡ true = ground arith in
      let h : (leb g.cylinders 1024 && false) ≡ false = ground arith in rw (a, b, e, f, k, h) refl

  -- On a geometry that the bytes can describe, with `full_bits` up to date: of a partition whose last
  -- sector ends a cylinder of the disk below cylinder 1024, and was packed by `set_hsc`, `check`
  -- says nothing.
  pub check-set_hsc : check g (set_hsc g x) x ≡ some []
  unfolding check
  check-set_hsc =
      let some_full : (g.full_bits == 0) ≡ false = ground (arith, some_bits) in
      rw
        (
          set_hsc_lem g d x,
          sector_back (s g d x) c (few g d x) (omega arith),
          cylinder_back (s g d x) c (few g d x) (omega arith),
          real_s,
          real_total,
          some_full,
          no_round,
          set_hsc_lem g d x,
          sector_back (s g d x) c (few g d x) (omega arith),
          real_s,
          silent,
        )
        refl
