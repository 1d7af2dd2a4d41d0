-- ===== src/PartitionMap/Orders/Neighbours.antt =====
-- The neighbours of an entry, and its removal, in a list that is cut at the entry.
use mac_fdisk.Base.{ℕ, ◌≡◌, ◌≢◌, arith, none, some, List, [], ◌∷◌, ◌++◌, refl, All}
use mac_fdisk.PartitionMap.Orders.{unlink, next_in, prev_in}

module _ (e : ℕ) where
  pub unlink_at :
      (pre post : List ℕ) → All (λ j. j ≢ e) pre → unlink e (pre ++ e ∷ post) ≡ pre ++ post
  unfolding unlink
  unlink_at [] post h = ground arith
  unlink_at (x ∷ pre) post h = ground (arith, unlink_at pre post h.1)

  pub next_in_last : (pre : List ℕ) → All (λ j. j ≢ e) pre → next_in e (pre ++ e ∷ []) ≡ none
  unfolding next_in
  next_in_last [] h = refl
  next_in_last (x ∷ []) h = ground arith
  next_in_last (x ∷ y ∷ pre) h = ground (arith, next_in_last (y ∷ pre) h.1)

  pub next_in_at :
      (p : ℕ) (pre post : List ℕ) → All (λ j. j ≢ e) pre → next_in e (pre ++ e ∷ p ∷ post) ≡ some p
  unfolding next_in
  next_in_at p [] post h = ground arith
  next_in_at p (x ∷ []) post h = ground arith
  next_in_at p (x ∷ y ∷ pre) post h = ground (arith, next_in_at p (y ∷ pre) post h.1)

  prev_in_absent : (x : ℕ) (l : List ℕ) → All (λ j. j ≢ e) l → prev_in e (x ∷ l) ≡ none
  unfolding prev_in
  prev_in_absent x [] h = refl
  prev_in_absent x (y ∷ l) h = ground (arith, prev_in_absent y l h.1)

  pub prev_in_first : (post : List ℕ) → All (λ j. j ≢ e) post → prev_in e (e ∷ post) ≡ none
  prev_in_first post h = prev_in_absent e post h

  pub prev_in_at :
      (q : ℕ) (pre post : List ℕ)
      → All (λ j. j ≢ e) pre
      → q ≢ e
      → prev_in e (pre ++ q ∷ e ∷ post) ≡ some q
  unfolding prev_in
  prev_in_at q [] post h r = ground arith
  prev_in_at q (x ∷ []) post h r = ground arith
  prev_in_at q (x ∷ y ∷ pre) post h r = ground (arith, prev_in_at q (y ∷ pre) post h.1 r)
