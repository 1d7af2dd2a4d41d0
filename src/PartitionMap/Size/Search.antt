-- ===== src/PartitionMap/Size/Search.antt =====
-- The two loops of `compute_device_size` on a device of `n` blocks.
use native.Mathlib.Nat.{pow-suc, one-le-pow}
use mac_fdisk.Base.{
  ℕ, zero, suc, ◌+◌, ◌-◌, ◌*◌, ◌/◌, ◌^◌, ◌≤◌, ◌<◌, ◌≡◌, refl, ap, subst, sym, ◌⊎◌, inl, inr, arith,
  Bool, true, false, Option, some, leb, ltb, min, Bool-cases,
}
use mac_fdisk.PartitionMap.Size.{probe_value, next_try, grow, bisect, compute_device_size}

module _ (readable : ℕ → Bool) where
  -- The search is over once its ends have passed each other.
  bisect_over : (f l r : ℕ) (last : ℕ × Bool) → r < l → bisect readable (suc f) l r last ≡ some last
  unfolding bisect
  bisect_over f l r last h = ground arith

  -- With the size `n` between the ends, every probe up to `r` telling whether it lies below `n`,
  -- and fuel for the halvings, the search ends at `n`.
  bisect_lem :
      (f l r n : ℕ) (last : ℕ × Bool)
      → ((i : ℕ) → i ≤ r → readable i ≡ ltb i n)
      → l ≤ n
      → n ≤ r + 1
      → (r < l → probe_value last ≡ n)
      → r + 1 - l < 2 ^ f
      → (out : ℕ × Bool) × (bisect readable (suc f) l r last ≡ some out) × (probe_value out ≡ n)
  unfolding bisect
  bisect_lem zero l r n last reads lo hi ends fuel =
      (last, bisect_over zero l r last (omega arith), ends (omega arith))
  bisect_lem (suc f) l r n last reads lo hi ends fuel =
      let mid = (l + r) / 2 in
      elim (Bool-cases (leb l r)) [
        | inr over ↦ (last, bisect_over (suc f) l r last (ground arith), ends (ground arith))
        | inl more ↦ elim (Bool-cases (ltb mid n)) [
          | inl below ↦
              rw (bisect, more, reads mid (ground arith), below)
                (bisect_lem f (mid + 1) r n (mid, true) reads (ground arith) hi (λ h. ground arith)
                  (ground (arith, pow-suc 2 f)))
          | inr above ↦ elim (Bool-cases (ltb 0 mid)) [
            | inl some_left ↦
                rw (bisect, more, reads mid (ground arith), above, some_left)
                  (bisect_lem f l (mid - 1) n (mid, false) (λ i h. reads i (ground arith)) lo
                    (ground arith) (λ h. ground arith) (ground (arith, pow-suc 2 f)))
            | inr none_left ↦ (
              (mid, false),
              rw (bisect, more, reads mid (ground arith), above, none_left),
              ground arith,
            )
          ]
        ]
      ]

-- What the doubling leaves: the last block read lies on the device, and the next to try does not,
-- unless it is the largest that is ever tried.
record Grown (n : ℕ) (result : Option (ℕ × ℕ)) : Type 0 where
  low : ℕ
  high : ℕ
  returns : result ≡ some (low, high)
  low_le : low ≤ n
  ordered : low ≤ high
  high_ge : (n ≤ high) ⊎ (high ≡ 1024 * 1024 * 1024)
  high_le : high ≤ 1024 * 1024 * 1024

le-mul : (a b : ℕ) → 1 ≤ b → a ≤ a * b
le-mul a b h = grind arith

module _ (readable : ℕ → Bool) (n : ℕ) (reads : (i : ℕ) → readable i ≡ ltb i n) where
  grow-Grown :
      (f l r : ℕ)
      → 1024 < r
      → r < 1024 * 1024 * 1024
      → r * 2 ^ f ≡ 1024 * 1024 * 1024
      → l ≤ n
      → l ≤ r
      → Grown n (grow readable f l r)
  unfolding grow
  grow-Grown zero l r big small fuel lo le = absurd (omega arith)
  grow-Grown (suc f) l r big small fuel lo le = elim (Bool-cases (ltb r n)) [
    | inr ends ↦ record {
      low = l;
      high = r;
      returns = rw (grow, reads r, ends);
      low_le = lo;
      ordered = le;
      high_ge = inl (ground arith);
      high_le = omega arith;
    }
    | inl more ↦
        let twice : r * 2 * 2 ^ f ≡ 1024 * 1024 * 1024 =
          omega (arith, fuel, ap (λ (t : ℕ). r * t) (pow-suc 2 f)) in
        let within : r * 2 ≤ 1024 * 1024 * 1024 =
          omega (arith, twice, le-mul (r * 2) (2 ^ f) (one-le-pow f 2 (omega arith))) in
        let next : next_try r ≡ r * 2 = unfold next_try in ground arith in
        elim (Bool-cases (leb (1024 * 1024 * 1024) (r * 2))) [
          | inl last ↦ record {
            low = r;
            high = r * 2;
            returns = rw (grow, reads r, more, next, last) (ap (λ (t : ℕ). some (r, t)) next);
            low_le = ground arith;
            ordered = omega arith;
            high_ge = inr (ground arith);
            high_le = within;
          }
          | inr again ↦
              rw (grow, reads r, more, next, again)
                (rw next (
                  grow-Grown f r (r * 2) (omega arith) (ground arith) twice (ground arith)
                    (omega arith)))
        ]
  ]

  grow_first :
      (f : ℕ) → 1024 < n → grow readable (suc f) 0 1024 ≡ grow readable f 1024 (1024 * 1024)
  unfolding grow next_try
  grow_first f h = let more : ltb 1024 n ≡ true = ground arith in rw (grow, reads 1024, more)

  -- The first block tried is number 1024, and the next one 1024 times further.
  grow_start : Grown n (grow readable 11 0 1024)
  grow_start = elim (Bool-cases (ltb 1024 n)) [
    | inr ends ↦ record {
      low = 0;
      high = 1024;
      returns = unfold grow in rw (grow, reads 1024, ends);
      low_le = omega arith;
      ordered = omega arith;
      high_ge = inl (ground arith);
      high_le = omega arith;
    }
    | inl more ↦ subst (Grown n) (sym (grow_first 10 (ground arith))) (
        grow-Grown 10 1024 (1024 * 1024) (omega arith) (omega arith) refl (ground arith)
          (omega arith))
  ]

  -- Where exactly the blocks below `n` can be read and the buffer is allocated, the search ends and
  -- returns `n`, or 2^30 + 1 if `n` is larger.
  pub compute_device_size-min :
      compute_device_size readable true ≡ some (min n (1024 * 1024 * 1024 + 1))
  unfolding compute_device_size
  compute_device_size-min =
      let g = grow_start in
      let cap = min n (g.high + 1) in
      let capped : cap ≡ min n (1024 * 1024 * 1024 + 1) = ground (arith, g.high_ge, g.high_le) in
      let (out, returns, value) =
        bisect_lem readable 31 g.low g.high cap (0, false) (λ i h. rw (reads i) (ground arith))
          (ground (arith, g.low_le, g.ordered)) (omega arith)
          (λ h. absurd (omega (arith, g.ordered))) (omega (arith, g.high_le)) in
      rw (compute_device_size, g.returns, returns, value) (ap some capped)
