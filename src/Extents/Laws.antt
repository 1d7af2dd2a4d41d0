-- ===== src/Extents/Laws.antt =====
-- Carving keeps the tiling, and says where it succeeds.
use mac_fdisk.Base.{
  ℕ, ◌+◌, ◌≡◌, ◌≤◌, ◌<◌, arith, true, some, List, [], ◌∷◌, ◌++◌, ltb, Bool-cases, Option-cases,
  refl, subst, inl, inr,
}
use mac_fdisk.Extents.{Kind, Extent, Tiled, low_part, high_part, holds, pieces, carve}

pub Tiled-le : (lo hi : ℕ) (l : List Extent) → Tiled lo hi l → lo ≤ hi
Tiled-le lo hi [] h = omega arith
Tiled-le lo hi (x ∷ l) h = omega (arith, Tiled-le (lo + x.size) hi l h.2)

pub Tiled-append :
    (lo mid hi : ℕ) (xs ys : List Extent)
    → Tiled lo mid xs
    → Tiled mid hi ys
    → Tiled lo hi (xs ++ ys)
Tiled-append lo mid hi [] ys h k = rw h k
Tiled-append lo mid hi (x ∷ xs) ys h k = (h.0, h.1, Tiled-append (lo + x.size) mid hi xs ys h.2 k)

pub Tiled-start : {a b : ℕ} (hi : ℕ) (l : List Extent) → a ≡ b → Tiled a hi l → Tiled b hi l
Tiled-start hi l e h = subst (λ t. Tiled t hi l) e h

high_part-Tiled :
    (x : Extent) (end hi : ℕ) (l : List Extent)
    → end ≤ x.first + x.size
    → Tiled (x.first + x.size) hi l
    → Tiled end hi (high_part x end ++ l)
high_part-Tiled x end hi l inside h = elim (Bool-cases (ltb end (x.first + x.size))) [
  | inl more ↦ rw more (refl, ground arith, Tiled-start hi l (ground arith) h)
  | inr exact ↦ rw exact (Tiled-start hi l (ground arith) h)
]

low_part-Tiled :
    (x : Extent) (base hi : ℕ) (l : List Extent)
    → x.first ≤ base
    → Tiled base hi l
    → Tiled x.first hi (low_part x base ++ l)
low_part-Tiled x base hi l inside h = elim (Bool-cases (ltb x.first base)) [
  | inl more ↦ rw more (refl, ground arith, Tiled-start hi l (ground arith) h)
  | inr exact ↦ rw exact (Tiled-start hi l (ground arith) h)
]

-- The pieces cover what the extent covered.
pieces-Tiled :
    (k : Kind) (x : Extent) (base length hi : ℕ) (l : List Extent)
    → 0 < length
    → holds x base length ≡ true
    → Tiled (x.first + x.size) hi l
    → Tiled x.first hi (pieces k x base length l)
pieces-Tiled k x base length hi l pos inside h =
    low_part-Tiled x base hi _ (ground arith)
      (refl, pos, high_part-Tiled x (base + length) hi l (ground arith) h)

-- Where at least one block is carved out of extents that tile the disk, the resulting extents tile
-- the same blocks.
pub carve-Tiled :
    (k : Kind) (base length lo hi : ℕ) (l out : List Extent)
    → 0 < length
    → Tiled lo hi l
    → carve k base length l ≡ some out
    → Tiled lo hi out
unfolding carve
carve-Tiled k base length lo hi [] out pos tiled e = cc
carve-Tiled k base length lo hi (x ∷ l) out pos tiled e = elim (Bool-cases (holds x base length)) [
  | inl inside ↦
      let whole : Tiled lo hi (pieces k x base length l) =
        Tiled-start hi _ tiled.0 (
          pieces-Tiled k x base length hi l pos inside (Tiled-start hi l (ground arith) tiled.2)) in
      let same : pieces k x base length l ≡ out = ground arith in subst (Tiled lo hi) same whole
  | inr outside ↦ elim (Option-cases (carve k base length l)) [
    | inl fails ↦ ground arith
    | inr (r, works) ↦
        let rest = carve-Tiled k base length (lo + x.size) hi l r pos tiled.2 works in
        let same : x ∷ r ≡ out = ground arith in subst (Tiled lo hi) same (tiled.0, tiled.1, rest)
  ]
]
