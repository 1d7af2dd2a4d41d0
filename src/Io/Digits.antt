-- ===== src/Io/Digits.antt =====
-- io.c: `number_of_digits`, with which the columns of a listing are laid out.
use mac_fdisk.Base.{
  ℕ, zero, suc, ◌+◌, ◌-◌, ◌*◌, ◌/◌, ◌^◌, ◌≡◌, ◌≤◌, ◌<◌, ◌∙◌, ◌⊎◌, sym, subst, ap, arith, true,
  false, Option, none, some, ltb, Bool-cases, inl, inr,
}
use native.Mathlib.Nat.{pow-suc}

-- The loop, on fuel: one round for each digit behind the first.
unfoldable pub count_digits : ℕ → ℕ → ℕ → Option ℕ
count_digits zero j value = none
count_digits (suc fuel) j value = elim (ltb 9 value) [
  | true ↦ count_digits fuel (j + 1) (value / 10)
  | false ↦ some j
]

-- `number_of_digits(value)`: ten rounds are enough for 32 bits.
unfoldable pub number_of_digits : ℕ → Option ℕ
unfolding count_digits
number_of_digits value = count_digits 10 1 value

-- The loop's result for the value `v`, counting from `j`.
record Counted (v j : ℕ) (r : Option ℕ) : Type 0 where
  extra : ℕ
  returns : r ≡ some (j + extra)
  above : v < 10 ^ (extra + 1)
  below : 0 < extra → 10 ^ extra ≤ v

tens : (n : ℕ) → 10 ^ (n + 1) ≡ 10 * 10 ^ n
tens n = subst (λ (t : ℕ). 10 ^ t ≡ 10 * 10 ^ n) (step n) (omega (arith, pow-suc 10 n))
  where
    step : (k : ℕ) → suc k ≡ k + 1
    step k = omega arith

module _ (f v j : ℕ) where
  Counted-more :
      ltb 9 v ≡ true
      → Counted (v / 10) (j + 1) (count_digits f (j + 1) (v / 10))
      → Counted v j (count_digits (suc f) j v)
  unfolding count_digits
  Counted-more more r = record {
    extra = r.extra + 1;
    returns = rw (count_digits, more) (r.returns ∙ ap some (omega arith));
    above = omega (arith, r.above, tens (r.extra + 1));
    below = λ h. elim (Bool-cases (ltb 0 r.extra)) [
      | inl some_more ↦ omega (arith, r.below (ground arith), tens r.extra)
      | inr none_more ↦
          let zero_extra : r.extra ≡ 0 = ground arith in
          subst (λ (t : ℕ). 10 ^ (t + 1) ≤ v) (sym zero_extra) (ground arith)
    ];
  }

  Counted-last : ltb 9 v ≡ false → Counted v j (count_digits (suc f) j v)
  unfolding count_digits
  Counted-last last = record {
    extra = 0;
    returns = rw (count_digits, last) (ap some (omega arith));
    above = ground arith;
    below = λ h. absurd (omega arith);
  }

count_digits_lem : (f v j : ℕ) → v < 10 ^ suc f → Counted v j (count_digits (suc f) j v)
count_digits_lem zero v j small = Counted-last 0 v j (ground arith)
count_digits_lem (suc f) v j small =
    let rest = count_digits_lem f (v / 10) (j + 1) (omega (arith, small, pow-suc 10 (suc f))) in
    elim (Bool-cases (ltb 9 v)) [
      | inr last ↦ Counted-last (suc f) v j last
      | inl more ↦ Counted-more (suc f) v j more rest
    ]

-- For a value of 32 bits `number_of_digits` returns a `j` above 0 with `value` below 10 to the `j`,
-- and not below 10 to the `j - 1` unless `j` is 1.
pub number_of_digits-bounds :
    (value : ℕ)
    → value < 2 ^ 32
    → (j : ℕ) × (number_of_digits value ≡ some j)
      × (0 < j)
      × (value < 10 ^ j)
      × ((j ≡ 1) ⊎ (10 ^ (j - 1) ≤ value))
unfolding number_of_digits
number_of_digits-bounds value small =
    let r = count_digits_lem 9 value 1 (omega (arith, small)) in
    (
      1 + r.extra,
      r.returns,
      omega arith,
      subst (λ (t : ℕ). value < 10 ^ t) (omega arith) r.above,
      elim (Bool-cases (ltb 0 r.extra)) [
        | inl many ↦ inr (subst (λ (t : ℕ). 10 ^ t ≤ value) (omega arith) (r.below (ground arith)))
        | inr one ↦ inl (ground arith)
      ],
    )
