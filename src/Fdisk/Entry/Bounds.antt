-- ===== src/Fdisk/Entry/Bounds.antt =====
-- The bounds that `check_bounds` finds for an entry that `set_partition` filled in.
use native.Mathlib.Nat.{div-eq_of_lt-le, mul-div_cancel}
use mac_fdisk.Base.{
  ℕ, ◌+◌, ◌*◌, ◌/◌, ◌%◌, ◌^◌, ◌≡◌, ◌≢◌, ◌≤◌, ◌<◌, ◌⊎◌, refl, ap, ◌∙◌, sym, arith, Bool, false,
  Option, some, ◌==◌, inl, inr, ◌||◌,
}
use mac_fdisk.Base.Word.{add32, sub32}
use mac_fdisk.Fdisk.{Geometry, calculate, set_hsc, rounded}
use mac_fdisk.Fdisk.Rounding.{Rounded, rounded-Rounded}
use mac_fdisk.Fdisk.Entry.{extended, per_cylinder, clipped, filled, bounds_of}
use mac_fdisk.Fdisk.Entry.Packed.{IsDescribed, calculate_lem}

-- No second multiple of `n` lies less than `n` above a first one.
same_multiple : (a b n : ℕ) → 0 < n → a * n ≤ b * n → b * n < a * n + n → a ≡ b
same_multiple a b n pos low high =
    sym (div-eq_of_lt-le n low (omega (arith, high))) ∙ mul-div_cancel b pos

-- `update_units` was called.
abbrev pub IsMeasured : Geometry → Type 0
IsMeasured g = g.full_bits ≡ 1024 * g.heads * g.sectors

-- The sector is packed as it is.
abbrev pub Unclipped : Geometry → Bool → ℕ → Type 0
Unclipped g dos x = (dos ≡ false) ⊎ (x / per_cylinder g ≤ 1023)

pub clipped_lem : (g : Geometry) (dos : Bool) (x : ℕ) → Unclipped g dos x → clipped g dos x ≡ x
unfolding clipped
clipped_lem g dos x u = ground arith

module _ (g : Geometry) (d : IsDescribed g) (measured : IsMeasured g) where
  full_pos : 0 < g.full_bits
  full_pos = grind (arith, d.some_heads, d.some_sectors)

  lands :
      (x : ℕ)
      → x < 2 ^ 32
      → (o : Option ℕ) → (r : Rounded g.full_bits (calculate g (set_hsc g x)) x o) → r.value ≡ x
  lands x small o r =
      let blocks = x / g.sectors / g.heads / 1024 in
      let whole : calculate g (set_hsc g x) + blocks * g.full_bits ≡ x =
        ap (λ (t : ℕ). calculate g (set_hsc g x) + blocks * t) measured
        ∙ calculate_lem g d x small in
      let low : r.value ≤ x = elim r.before [
        | inl below ↦ below
        | inr alone ↦ omega (arith, r.multiple, whole, ap (λ (t : ℕ). t * g.full_bits) alone)
      ] in
      let same : r.times ≡ blocks =
        same_multiple r.times blocks g.full_bits full_pos (omega (arith, whole, r.multiple, low))
          (omega (arith, whole, r.multiple, r.beyond)) in
      omega (arith, r.multiple, whole, ap (λ (t : ℕ). t * g.full_bits) same)

  -- The first 1024 cylinders are counted up to the number that was packed.
  rounded-set_hsc :
      (x : ℕ) → x + g.full_bits < 2 ^ 32 → rounded g (calculate g (set_hsc g x)) x ≡ some x
  rounded-set_hsc x room =
      r.returns ∙ ap some (lands x (omega arith) (rounded g (calculate g (set_hsc g x)) x) r)
    where
      r :
          Rounded g.full_bits
            (calculate g (set_hsc g x))
            x
            (rounded g (calculate g (set_hsc g x)) x)
      r =
          rounded-Rounded g (calculate g (set_hsc g x)) x full_pos room
            (omega (arith, calculate_lem g d x (omega arith)))

  module _ (dos : Bool) (start stop sys offset : ℕ) (packs : Unclipped g dos start)
      (after : offset ≤ start) (ordered : start ≤ stop) (room : stop + g.full_bits < 2 ^ 32)
      (known : sys < 256) (used : sys ≢ 0) (plain : sys ≢ extended) where
    -- On a geometry that the bytes can describe, with `full_bits` up to date and no sum at 2^32: for
    -- a partition that is not empty or extended, `check_bounds` finds the first and the last sector
    -- that were given to `set_partition`, also beyond cylinder 1023, unless DOS mode cut the first.
    pub bounds_of-filled :
        bounds_of g offset (filled g dos start stop sys offset) ≡ some (start, stop)
    unfolding bounds_of filled
    bounds_of-filled = rw (in_use, back, sector_of, first, back, last) refl
      where
        sector_of : clipped g dos start ≡ start
        sector_of = clipped_lem g dos start packs

        in_use : ((sys % 256 == 0) || (sys % 256 == extended)) ≡ false
        in_use = ground arith

        back : add32 (sub32 start offset) offset ≡ start
        back = unfold add32 sub32 in omega arith

        first : rounded g (calculate g (set_hsc g start)) start ≡ some start
        first = rounded-set_hsc start (omega arith)

        last : sub32 (add32 start (add32 (sub32 stop start) 1)) 1 ≡ stop
        last = unfold add32 sub32 in omega arith
