-- ===== src/PartitionMap/Add/Find.antt =====
-- What the search for the entry that holds the requested blocks finds, in a tiled map.
use mac_fdisk.Base.{
  ℕ, ◌+◌, ◌^◌, ◌≡◌, ◌≤◌, ◌<◌, ◌⊎◌, inl, inr, arith, true, false, ◌&&◌, none, some, List, [], ◌∷◌,
  ◌++◌, leb, if◌then◌else◌, Bool-cases, refl, ap, subst, sym, All, All-mono,
}
use mac_fdisk.Base.Word.{add32, add32_exact}
use mac_fdisk.PartitionMap.State.{PartitionMap, start_of, size_of, type_of, is_free}
use mac_fdisk.PartitionMap.Orders.Insert.{Front}
use mac_fdisk.PartitionMap.Add.{find_holding}
use mac_fdisk.Extents.{Kind, extent_of, extents, Tiled, is_free_kind, holds, pieces, carve}
use mac_fdisk.Extents.Laws.{Tiled-le}

module _ (f : ℕ → PartitionMap) where
  -- In a tiled list the first blocks stand in order.
  pub Tiled-below :
      (lo hi : ℕ) (l : List ℕ) → Tiled lo hi (extents f l) → All (λ i. start_of f i < hi) l
  unfolding extents
  Tiled-below lo hi [] h = tt
  Tiled-below lo hi (x ∷ l) h =
      let rest = Tiled-le (lo + size_of f x) hi (extents f l) h.2 in
      (omega arith, Tiled-below (lo + size_of f x) hi l h.2)

  pub Tiled-Front :
      (k lo hi : ℕ) (l : List ℕ) → k ≤ lo → Tiled lo hi (extents f l) → Front (start_of f) k l
  unfolding extents
  Tiled-Front k lo hi [] h t = tt
  Tiled-Front k lo hi (x ∷ l) h t = omega arith

  pub Tiled-above :
      (lo hi : ℕ) (l : List ℕ) → Tiled lo hi (extents f l) → All (λ i. lo ≤ start_of f i) l
  unfolding extents
  Tiled-above lo hi [] h = tt
  Tiled-above lo hi (x ∷ l) h =
      (omega arith, All-mono _ _ l (λ i k. omega arith) (Tiled-above (lo + size_of f x) hi l h.2))

-- The search stops at `cur`, which splits the list, and carving does the same to the extents.
pub record Holding (f : ℕ → PartitionMap) (base length lo hi : ℕ) (l : List ℕ) : Type 0 where
  pub cur : ℕ
  pub pre : List ℕ
  pub post : List ℕ
  pub splits : l ≡ pre ++ (cur ∷ post)
  pub found : find_holding f base length l ≡ some cur
  pub carved :
      (k : Kind)
      → carve k base length (extents f l) ≡ (
          if is_free (type_of f cur)
          then some (extents f pre ++ pieces k (extent_of (f cur)) base length (extents f post))
          else none)
  pub first_le : start_of f cur ≤ base
  pub end_le : base + length ≤ start_of f cur + size_of f cur
  pub below : Tiled lo (start_of f cur) (extents f pre)
  pub above : Tiled (start_of f cur + size_of f cur) hi (extents f post)

module _ (f : ℕ → PartitionMap) (base length hi : ℕ) (fits : hi < 2 ^ 32)
    (exact : base + length < 2 ^ 32) where
  abbrev pub Outcome : ℕ → List ℕ → Type 0
  Outcome lo l =
      ((find_holding f base length l ≡ none)
        × ((k : Kind) → carve k base length (extents f l) ≡ none))
      ⊎ Holding f base length lo hi l

  end_exact :
      (lo x : ℕ) (l : List ℕ)
      → Tiled lo hi (extents f (x ∷ l))
      → start_of f x + size_of f x < 2 ^ 32
  unfolding extents
  end_exact lo x l t = omega (arith, Tiled-le (lo + size_of f x) hi (extents f l) t.2)

  -- The test of the search is the exact one: nothing wraps.
  test_exact :
      (lo x : ℕ) (l : List ℕ)
      → Tiled lo hi (extents f (x ∷ l))
      → (leb (start_of f x) base && leb (add32 base length) (add32 (start_of f x) (size_of f x)))
        ≡ holds (extent_of (f x)) base length
  test_exact lo x l t = rw (add32_exact base length exact, add32_exact _ _ (end_exact lo x l t))

  kind_test : (x : ℕ) → is_free_kind (extent_of (f x)).kind ≡ is_free (type_of f x)
  kind_test x = ground arith

  here :
      (lo x : ℕ) (l : List ℕ)
      → Tiled lo hi (extents f (x ∷ l))
      → holds (extent_of (f x)) base length ≡ true
      → Holding f base length lo hi (x ∷ l)
  unfolding find_holding carve extents
  here lo x l t inside = record {
    cur = x;
    pre = [];
    post = l;
    splits = refl;
    found = rw (find_holding, test_exact lo x l t, inside);
    carved = λ k. rw (carve, inside, kind_test x);
    first_le = ground arith;
    end_le = ground arith;
    below = omega arith;
    above = subst (λ a. Tiled (a + size_of f x) hi (extents f l)) (sym t.0) t.2;
  }

  there :
      (lo x : ℕ) (l : List ℕ)
      → Tiled lo hi (extents f (x ∷ l))
      → holds (extent_of (f x)) base length ≡ false
      → Outcome (lo + size_of f x) l
      → Outcome lo (x ∷ l)
  unfolding find_holding carve extents
  there lo x l t outside (inl (fails, alone)) =
      inl (rw (find_holding, test_exact lo x l t, outside) fails, λ k. rw (carve, outside, alone k))
  there lo x l t outside (inr h) = inr (record {
    cur = h.cur;
    pre = x ∷ h.pre;
    post = h.post;
    splits = ap (λ (r : List ℕ). x ∷ r) h.splits;
    found = rw (find_holding, test_exact lo x l t, outside) h.found;
    carved = λ k. rw (carve, outside, h.carved k) (ground arith);
    first_le = h.first_le;
    end_le = h.end_le;
    below = (t.0, t.1, h.below);
    above = h.above;
  })

  pub find_cases : (lo : ℕ) (l : List ℕ) → Tiled lo hi (extents f l) → Outcome lo l
  unfolding find_holding carve extents
  find_cases lo [] t = inl (refl, λ k. refl)
  find_cases lo (x ∷ l) t = elim (Bool-cases (holds (extent_of (f x)) base length)) [
    | inl inside ↦ inr (here lo x l t inside)
    | inr outside ↦ there lo x l t outside (find_cases (lo + size_of f x) l t.2)
  ]
