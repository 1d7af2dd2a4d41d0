-- ===== src/Fdisk/Entry/Consistent.antt =====
-- What `check_consistency` says of an entry that `set_partition` filled in.
use Prim.Native.Nat.{bit_and, bit_or}
use native.Mathlib.Nat.{
  div-add-mod, mod-lt, div-div-eq-div-mul, mul-add-div, div-eq_of_lt, mul_comm, mul-le-mul,
  mul-add-mod_self_left, mod-mod, le_of_mul-le-mul_left, mod-eq_of_lt, mod_self, mul-pos,
  div-lt_iff_lt-mul,
}
use mac_fdisk.Base.{
  ℕ, ◌+◌, ◌*◌, ◌/◌, ◌%◌, ◌^◌, ◌≡◌, ◌↔◌, ◌≤◌, ◌<◌, refl, ap, ◌∙◌, sym, arith, Bool, true, false, not,
  ◌&&◌, ◌||◌, leb, ltb, inl, inr, Bool-cases, ◌==◌, ◌-◌, ==_iff, holds_up_to, holds_up_to_lem,
}
use mac_fdisk.Base.Word.{add32, sub32, sub32_exact}
use mac_fdisk.Fdisk.{Geometry, cylinder, set_hsc, long2chs}
use mac_fdisk.Fdisk.Sectors.{sector_back, cylinder_back}
use mac_fdisk.Fdisk.Entry.{
  Remark, remark, per_cylinder, clipped, same_place, filled, physical, check_consistency,
}
use mac_fdisk.Fdisk.Entry.Bounds.{clipped_lem}
use mac_fdisk.Fdisk.Entry.Packed.{IsDescribed, track, cyls, near, s, few, set_hsc_lem}

shifted_table : holds_up_to (λ k. bit_and (k * 4) 0x300 == bit_and k 0xc0 * 4) 255 ≡ true
unfolding holds_up_to
shifted_table = refl

shifted : (k : ℕ) → k ≤ 255 → bit_and (k * 4) 0x300 ≡ bit_and k 0xc0 * 4
shifted k h =
    (==_iff _ _).0
      (holds_up_to_lem (λ k. bit_and (k * 4) 0x300 == bit_and k 0xc0 * 4) 255 k h shifted_table)

masked_table : holds_up_to (λ k. bit_and (bit_and k 0xff) 0xff == bit_and k 0xff) 1023 ≡ true
unfolding holds_up_to
masked_table = refl

masked : (k : ℕ) → k ≤ 1023 → bit_and (bit_and k 0xff) 0xff ≡ bit_and k 0xff
masked k h =
    (==_iff _ _).0
      (holds_up_to_lem (λ k. bit_and (bit_and k 0xff) 0xff == bit_and k 0xff) 1023 k h masked_table)

times_suc : (a b : ℕ) → a * (b + 1) ≡ a * b + a
times_suc a b = grind arith

same_place_self : (a : ℕ × (ℕ × ℕ)) → same_place a a ≡ true
same_place_self a = ground arith

module _ (g : Geometry) (d : IsDescribed g) where
  pub per_cylinder_lem : per_cylinder g ≡ g.sectors * g.heads
  per_cylinder_lem =
      let small : g.sectors * g.heads ≤ 63 * 256 = mul-le-mul d.sectors_fit d.heads_fit in
      omega (arith, mul_comm g.heads g.sectors, small)

  module _ (x : ℕ) where
    abbrev pub head_of : ℕ
    head_of = track g d x % g.heads

    pub cylinder_of : x / per_cylinder g ≡ cyls g d x
    cylinder_of = rw per_cylinder_lem (sym (div-div-eq-div-mul x g.sectors g.heads))

    rest : x % per_cylinder g ≡ g.sectors * head_of + x % g.sectors
    rest = omega (
      arith,
      ap (λ (t : ℕ). t * (x / per_cylinder g)) per_cylinder_lem,
      ap (λ (t : ℕ). g.sectors * g.heads * t) cylinder_of,
      div-add-mod x (per_cylinder g),
      div-add-mod x g.sectors,
      ap (λ (t : ℕ). g.sectors * t) (div-add-mod (track g d x) g.heads),
      product,
    )
      where
        product :
            g.sectors * (g.heads * cyls g d x + head_of)
            ≡ g.sectors * g.heads * cyls g d x + g.sectors * head_of
        product = grind arith

    head_back : x % per_cylinder g / g.sectors ≡ head_of
    head_back = rw rest (
        omega (
          arith,
          mul-add-div d.some_sectors head_of (x % g.sectors),
          div-eq_of_lt (mod-lt x d.some_sectors),
        ))

    sector_rest : x % per_cylinder g % g.sectors ≡ x % g.sectors
    sector_rest =
        rw rest (mul-add-mod_self_left g.sectors head_of (x % g.sectors) ∙ mod-mod x g.sectors)

    long2chs_lem : long2chs g x ≡ (cyls g d x, (head_of, x % g.sectors + 1))
    unfolding long2chs
    long2chs_lem = rw (cylinder_of, head_back, sector_rest) refl

    abbrev sector_byte_of : ℕ
    sector_byte_of = s g d x + near g d x / 256 * 64

    -- Below cylinder 1024 both conversions agree.
    pub physical-set_hsc : x / per_cylinder g ≤ 1023 → physical (set_hsc g x) ≡ long2chs g x
    unfolding physical cylinder
    physical-set_hsc close =
        let low : near g d x ≡ cyls g d x = omega (arith, cylinder_of) in
        let high : bit_and (sector_byte_of * 4) 0x300 ≡ bit_and (sector_byte_of) 0xc0 * 4 =
          shifted _ (omega (arith, few g d x)) in
        rw
          (
            set_hsc_lem g d x,
            long2chs_lem,
            masked (near g d x) (omega arith),
            high,
            sector_back (s g d x) (near g d x) (few g d x) (omega arith),
          )
          (ap (λ (t : ℕ). (t, (head_of, s g d x))) joined)
      where
        joined : bit_or (bit_and (near g d x) 255) (bit_and sector_byte_of 192 * 4) ≡ cyls g d x
        joined =
            cylinder_back (s g d x) (near g d x) (few g d x) (omega arith)
            ∙ omega (arith, cylinder_of)

    pub full :
        x % per_cylinder g + 1 ≡ per_cylinder g
        → (head_of + 1 ≡ g.heads) × (x % g.sectors + 1 ≡ g.sectors)
    full e =
        let head_lt : head_of < g.heads = mod-lt (track g d x) d.some_heads in
        let sector_lt : x % g.sectors < g.sectors = mod-lt x d.some_sectors in
        let sum : g.sectors * head_of + (x % g.sectors + 1) ≡ g.sectors * g.heads =
          omega (arith, rest, e, per_cylinder_lem) in
        let more : g.sectors * g.heads ≤ g.sectors * (head_of + 1) =
          omega (arith, sum, sector_lt, times_suc g.sectors head_of) in
        let last : g.heads ≤ head_of + 1 = le_of_mul-le-mul_left more d.some_sectors in
        let head : head_of + 1 ≡ g.heads = omega (arith, last, head_lt) in
        (head, omega (arith, sum, ap (λ (t : ℕ). g.sectors * t) head))

    filled_up :
        head_of + 1 ≡ g.heads
        → x % g.sectors + 1 ≡ g.sectors
        → x % per_cylinder g + 1 ≡ per_cylinder g
    filled_up head sect =
        omega (arith, rest, per_cylinder_lem, sect, ap (λ (t : ℕ). g.sectors * t) head)

    pub next_zero : ((x + 1) % per_cylinder g ≡ 0) ↔ (x % per_cylinder g + 1 ≡ per_cylinder g)
    next_zero = (
      λ (e : (x + 1) % per_cylinder g ≡ 0).
          elim (Bool-cases (ltb (x % per_cylinder g + 1) (per_cylinder g))) [
            | inl less ↦ absurd (
                omega (
                  arith,
                  e,
                  shifts,
                  mod-eq_of_lt {n = x % per_cylinder g + 1} {m = per_cylinder g} (ground arith),
                ))
            | inr most ↦ ground (arith, mod-lt x some_in_cylinder)
          ],
      λ (e : x % per_cylinder g + 1 ≡ per_cylinder g).
          shifts ∙ ap (λ (t : ℕ). t % per_cylinder g) e ∙ mod_self (per_cylinder g),
    )
      where
        some_in_cylinder : 0 < per_cylinder g
        some_in_cylinder = rw per_cylinder_lem (mul-pos d.some_sectors d.some_heads)

        shifts : (x + 1) % per_cylinder g ≡ (x % per_cylinder g + 1) % per_cylinder g
        shifts =
            ap (λ (t : ℕ). t % per_cylinder g) (omega (arith, div-add-mod x (per_cylinder g)))
            ∙ mul-add-mod_self_left (per_cylinder g) (x / per_cylinder g) (x % per_cylinder g + 1)

    -- The last head and the last sector of a track are those of a cylinder's last sector.
    at_end :
        (not (head_of == sub32 g.heads 1) || not (x % g.sectors + 1 == g.sectors))
        ≡ not ((x + 1) % per_cylinder g == 0)
    at_end = ground (
      arith,
      next_zero,
      full,
      filled_up,
      sub32_exact g.heads 1 d.some_heads (omega (arith, d.heads_fit)),
    )

module _ (g : Geometry) (d : IsDescribed g) (dos : Bool) (start stop sys partition : ℕ)
    (ordered : start ≤ stop) (close : stop / per_cylinder g ≤ 1023) (small : stop < 2 ^ 32 - 1)
    (primary : partition < 4) where
  -- On a geometry that the bytes can describe: of a primary partition that `set_partition` filled in
  -- with a last sector below cylinder 1024, `check_consistency` remarks nothing but that it does not
  -- end with a cylinder, and that exactly where it does not.
  pub check_consistency-filled :
      check_consistency g (filled g dos start stop sys 0) partition
      ≡ remark (not ((stop + 1) % per_cylinder g == 0)) Remark.off_boundary
  unfolding check_consistency filled
  check_consistency-filled =
      rw
        (
          ground_heads,
          ground_sectors,
          ground_primary,
          start_kept,
          stop_kept,
          from_start,
          to_stop,
          physical-set_hsc g d start before,
          physical-set_hsc g d stop close,
          same_place_self (long2chs g start),
          same_place_self (long2chs g stop),
          quiet,
          long2chs_lem g d stop,
          at_end g d stop,
        )
        refl
    where
      before : start / per_cylinder g ≤ 1023
      before =
          let pos : 0 < per_cylinder g =
            rw (per_cylinder_lem g d) (mul-pos d.some_sectors d.some_heads) in
          let top : stop < 1024 * per_cylinder g =
            (div-lt_iff_lt-mul {k = per_cylinder g} {x = stop} {y = 1024} pos).0 (omega arith) in
          let below : start < 1024 * per_cylinder g = omega (arith, top) in
          let r : start / per_cylinder g < 1024 =
            (div-lt_iff_lt-mul {k = per_cylinder g} {x = start} {y = 1024} pos).1 below in
          omega (arith, r)

      quiet : (leb g.cylinders 1024 && not true) ≡ false
      quiet = ground arith

      ground_heads : (g.heads == 0) ≡ false
      ground_heads = ground (arith, d.some_heads)

      ground_sectors : (g.sectors == 0) ≡ false
      ground_sectors = ground (arith, d.some_sectors)

      ground_primary : leb 4 partition ≡ false
      ground_primary = ground arith

      start_kept : clipped g dos start ≡ start
      start_kept = clipped_lem g dos start (inr before)

      stop_kept : clipped g dos stop ≡ stop
      stop_kept = clipped_lem g dos stop (inr close)

      from_start : sub32 start 0 ≡ start
      from_start = unfold sub32 in omega arith

      to_stop : sub32 (add32 start (add32 (sub32 stop start) 1)) 1 ≡ stop
      to_stop = unfold add32 sub32 in omega arith
