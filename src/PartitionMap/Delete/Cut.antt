-- ===== src/PartitionMap/Delete/Cut.antt =====
-- A tiled map cut at one of its entries: where the parts lie, and that no name occurs twice.
use mac_fdisk.Base.{
  ℕ, ◌+◌, ◌≡◌, ◌≢◌, ◌<◌, arith, List, [], ◌∷◌, ◌++◌, sym, ap, subst, refl, All, All-mono,
}
use mac_fdisk.PartitionMap.State.{PartitionMap, start_of, size_of}
use mac_fdisk.PartitionMap.Orders.Frame.{extents-append}
use mac_fdisk.PartitionMap.Add.Find.{Tiled-below, Tiled-above}
use mac_fdisk.Extents.{Extent, extents, Tiled}
use mac_fdisk.Extents.Laws.{Tiled-start}

pub Tiled-cut :
    (lo hi : ℕ) (xs ys : List Extent)
    → Tiled lo hi (xs ++ ys)
    → (mid : ℕ) × Tiled lo mid xs × Tiled mid hi ys
Tiled-cut lo hi [] ys h = (lo, refl, h)
Tiled-cut lo hi (x ∷ xs) ys h =
    let (mid, below, above) = Tiled-cut (lo + x.size) hi xs ys h.2 in
    (mid, (h.0, h.1, below), above)

module _ (f : ℕ → PartitionMap) where
  -- The list `pre`, the entry `e` and the list `post` tile the blocks from `lo` to `hi`.
  pub record Cut (lo hi : ℕ) (pre : List ℕ) (e : ℕ) (post : List ℕ) : Type 0 where
    pub below : Tiled lo (start_of f e) (extents f pre)
    pub filled : 0 < size_of f e
    pub above : Tiled (start_of f e + size_of f e) hi (extents f post)
    pub apart_pre : All (λ j. j ≢ e) pre
    pub apart_post : All (λ j. j ≢ e) post
    pub apart : All (λ p. All (λ j. j ≢ p) pre) post

  differ_below :
      (e : ℕ) (l : List ℕ) → All (λ j. start_of f j < start_of f e) l → All (λ j. j ≢ e) l
  differ_below e l h =
      All-mono _ _ l
        (λ j below. λ (same : j ≡ e). absurd (omega (arith, below, ap (start_of f) same))) h

  differ_above :
      (e : ℕ) (l : List ℕ) → All (λ j. start_of f e < start_of f j) l → All (λ j. j ≢ e) l
  differ_above e l h =
      All-mono _ _ l
        (λ j above. λ (same : j ≡ e). absurd (omega (arith, above, ap (start_of f) same))) h

  pub cut_at :
      (lo hi : ℕ) (pre : List ℕ) (e : ℕ) (post : List ℕ)
      → Tiled lo hi (extents f (pre ++ e ∷ post))
      → Cut lo hi pre e post
  unfolding extents
  cut_at lo hi pre e post h =
      let (mid, below, rest) =
        Tiled-cut lo hi (extents f pre) (extents f (e ∷ post))
          (subst (Tiled lo hi) (extents-append f pre (e ∷ post)) h) in
      let under : Tiled lo (start_of f e) (extents f pre) =
        subst (λ t. Tiled lo t (extents f pre)) (sym rest.0) below in
      let over : Tiled (start_of f e + size_of f e) hi (extents f post) =
        Tiled-start hi (extents f post) (omega (arith, rest.0)) rest.2 in
      let starts_below = Tiled-below f lo (start_of f e) pre under in
      let starts_above = Tiled-above f (start_of f e + size_of f e) hi post over in
      record {
        below = under;
        filled = rest.1;
        above = over;
        apart_pre = differ_below e pre starts_below;
        apart_post =
            differ_above e post (All-mono _ _ post (λ j h. omega (arith, h, rest.1)) starts_above);
        apart =
            All-mono _ _ post
              (λ p h.
                differ_below p pre (All-mono _ _ pre (λ j k. omega (arith, h, k)) starts_below))
              starts_above;
      }
