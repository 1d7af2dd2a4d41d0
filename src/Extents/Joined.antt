-- ===== src/Extents/Joined.antt =====
-- Carving blocks for a use out of a free extent leaves no two free neighbours behind.
use mac_fdisk.Base.{
  ℕ, ◌+◌, ◌-◌, ◌≡◌, arith, Bool, true, false, ◌&&◌, some, List, [], ◌∷◌, ◌++◌, ltb, Bool-cases,
  Option-cases, ap, ◌∙◌, subst, refl, inl, inr,
}
use mac_fdisk.Extents.{Kind, Extent, extent, is_free_kind, high_part, holds, pieces, carve}
use mac_fdisk.Extents.Release.{IsJoined, IsJoined-tail}

abbrev starts_free : List Extent → Bool
starts_free [] = false
starts_free (x ∷ l) = is_free_kind x.kind

IsJoined-cons :
    (x : Extent) (l : List Extent)
    → (is_free_kind x.kind && starts_free l) ≡ false
    → IsJoined l
    → IsJoined (x ∷ l)
IsJoined-cons x [] e h = tt
IsJoined-cons x (y ∷ l) e h = (e, h)

IsJoined-first :
    (x : Extent) (l : List Extent)
    → IsJoined (x ∷ l)
    → (is_free_kind x.kind && starts_free l) ≡ false
IsJoined-first x [] h = ground arith
IsJoined-first x (y ∷ l) h = h.0

high_part-IsJoined :
    (x : Extent) (end : ℕ) (l : List Extent)
    → starts_free l ≡ false
    → IsJoined l
    → IsJoined (high_part x end ++ l)
high_part-IsJoined x end l e h = elim (Bool-cases (ltb end (x.first + x.size))) [
  | inl more ↦ rw more (IsJoined-cons (extent end (x.first + x.size - end) Kind.free) l e h)
  | inr exact ↦ rw exact h
]

module _ (k : Kind) (base length : ℕ) (used : is_free_kind k ≡ false) where
  pieces-IsJoined :
      (x : Extent) (l : List Extent)
      → starts_free l ≡ false
      → IsJoined l
      → IsJoined (pieces k x base length l)
  pieces-IsJoined x l e h =
      let taken : IsJoined (extent base length k ∷ (high_part x (base + length) ++ l)) =
        IsJoined-cons (extent base length k) (high_part x (base + length) ++ l) (rw used refl)
          (high_part-IsJoined x (base + length) l e h) in
      elim (Bool-cases (ltb x.first base)) [
        | inl more ↦ rw more (rw used refl, taken)
        | inr exact ↦ rw exact taken
      ]

  -- A list with no two free neighbours stays so, and starts with a free extent only if it did.
  carve-starts :
      (l out : List Extent)
      → IsJoined l
      → carve k base length l ≡ some out
      → IsJoined out × (starts_free out ≡ true → starts_free l ≡ true)
  unfolding carve
  carve-starts [] out h e = cc
  carve-starts (x ∷ l) out h e = elim (Bool-cases (holds x base length)) [
    | inl inside ↦
        let free : is_free_kind x.kind ≡ true = ground arith in
        let same : pieces k x base length l ≡ out = ground arith in
        (
          subst IsJoined same
              (pieces-IsJoined x l (ground (arith, IsJoined-first x l h)) (IsJoined-tail x l h)),
          λ q. free,
        )
    | inr outside ↦ elim (Option-cases (carve k base length l)) [
      | inl fails ↦ ground arith
      | inr (r, works) ↦
          let (joined, starts) = carve-starts l r (IsJoined-tail x l h) works in
          let same : x ∷ r ≡ out = ground arith in
          let apart : (is_free_kind x.kind && starts_free r) ≡ false =
            ground (arith, IsJoined-first x l h, starts) in
          (subst IsJoined same (IsJoined-cons x r apart joined), λ q. ap starts_free same ∙ q)
    ]
  ]

  pub carve-IsJoined :
      (l out : List Extent) → IsJoined l → carve k base length l ≡ some out → IsJoined out
  carve-IsJoined l out h e = (carve-starts l out h e).0
