-- ===== src/PartitionMap/Orders/Insert.antt =====
-- Where the two insertions put an entry.
use mac_fdisk.Base.{ℕ, ◌≡◌, ◌≤◌, ◌<◌, arith, List, [], ◌∷◌, ◌++◌, refl, All}
use mac_fdisk.PartitionMap.Orders.{insert_behind, insert_by}

-- The key of the first entry of a list, if any, is at least `k`.
abbrev pub Front : (ℕ → ℕ) → ℕ → List ℕ → Type 0
Front key k [] = Unit
Front key k (x ∷ l) = k ≤ key x

module _ (key : ℕ → ℕ) (e : ℕ) where
  insert_behind_at :
      (x : ℕ) (pre post : List ℕ)
      → All (λ y. key y < key e) (x ∷ pre)
      → Front key (key e) post
      → insert_behind key e (x ∷ (pre ++ post)) ≡ x ∷ (pre ++ e ∷ post)
  unfolding insert_behind
  insert_behind_at x [] [] below front = ground arith
  insert_behind_at x [] (y ∷ post) below front = ground arith
  insert_behind_at x (y ∷ pre) post below front =
      ground (arith, insert_behind_at y pre post below.1 front)

  -- Behind all entries with a smaller key, before all others.
  pub insert_by_at :
      (pre post : List ℕ)
      → All (λ y. key y < key e) pre
      → Front key (key e) post
      → insert_by key e (pre ++ post) ≡ pre ++ e ∷ post
  unfolding insert_by
  insert_by_at [] [] below front = refl
  insert_by_at [] (y ∷ post) below front = ground arith
  insert_by_at (x ∷ pre) post below front = ground (arith, insert_behind_at x pre post below front)
