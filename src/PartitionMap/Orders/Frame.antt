-- ===== src/PartitionMap/Orders/Frame.antt =====
-- What a write to one entry, and the renumbering of all, leave as they are.
use mac_fdisk.Base.{
  ℕ, ◌+◌, ◌≡◌, ◌≢◌, arith, List, [], ◌∷◌, ◌++◌, ◌==◌, refl, ap, ◌∙◌, Bool-cases, inl, inr, ap₂, All,
}
use mac_fdisk.PartitionMap.State.{PartitionMap, put}
use mac_fdisk.PartitionMap.Orders.{renumber, renumbered}
use mac_fdisk.Extents.{Extent, extent_of, extents}

pub put_self : (f : ℕ → PartitionMap) (i : ℕ) (e : PartitionMap) → put f i e i ≡ e
unfolding put
put_self f i e = ground arith

pub put_ne : (f : ℕ → PartitionMap) (i j : ℕ) (e : PartitionMap) → j ≢ i → put f i e j ≡ f j
unfolding put
put_ne f i j e h = ground arith

pub extents_cons :
    (f : ℕ → PartitionMap) (i : ℕ) (l : List ℕ) → extents f (i ∷ l) ≡ extent_of (f i) ∷ extents f l
unfolding extents
extents_cons f i l = refl

pub extents-append :
    (f : ℕ → PartitionMap) (xs ys : List ℕ) → extents f (xs ++ ys) ≡ extents f xs ++ extents f ys
unfolding extents
extents-append f [] ys = refl
extents-append f (x ∷ xs) ys =
    ap (λ (t : List Extent). extent_of (f x) ∷ t) (extents-append f xs ys)

-- Two heaps that agree on the extents of the entries in a list.
pub extents_same :
    (f g : ℕ → PartitionMap) (l : List ℕ)
    → All (λ i. extent_of (f i) ≡ extent_of (g i)) l
    → extents f l ≡ extents g l
unfolding extents
extents_same f g [] h = refl
extents_same f g (x ∷ l) h =
    ap₂ (λ (e : Extent) (t : List Extent). e ∷ t) h.0 (extents_same f g l h.1)

pub extents-put :
    (f : ℕ → PartitionMap) (i : ℕ) (e : PartitionMap) (l : List ℕ)
    → All (λ j. j ≢ i) l
    → extents (put f i e) l ≡ extents f l
unfolding extents
extents-put f i e [] h = refl
extents-put f i e (x ∷ l) h =
    rw (put_ne f i x e h.0)
      (ap (λ (t : List Extent). extent_of (f x) ∷ t) (extents-put f i e l h.1))

-- A write that keeps the extent of the entry keeps every extent.
pub put_extent :
    (f : ℕ → PartitionMap) (i : ℕ) (e : PartitionMap) (j : ℕ)
    → extent_of e ≡ extent_of (f i)
    → extent_of (put f i e j) ≡ extent_of (f j)
unfolding put
put_extent f i e j h = elim (Bool-cases (j == i)) [
  | inl here ↦ let same : j ≡ i = ground arith in rw (here, same) h
  | inr there ↦ rw there
]

pub extents-put_extent :
    (f : ℕ → PartitionMap) (i : ℕ) (e : PartitionMap) (l : List ℕ)
    → extent_of e ≡ extent_of (f i)
    → extents (put f i e) l ≡ extents f l
unfolding extents
extents-put_extent f i e [] h = refl
extents-put_extent f i e (x ∷ l) h =
    ap₂ (λ (x : Extent) (t : List Extent). x ∷ t) (put_extent f i e x h)
      (extents-put_extent f i e l h)

-- The renumbering changes no extent of any entry.
pub renumber_extent :
    (n index : ℕ) (l : List ℕ) (f : ℕ → PartitionMap) (i : ℕ)
    → extent_of (renumber n index l f i) ≡ extent_of (f i)
unfolding renumber
renumber_extent n index [] f i = refl
renumber_extent n index (x ∷ l) f i =
    renumber_extent n (index + 1) l _ i ∙ put_extent f x (renumbered n index (f x)) i refl

pub renumber-extents :
    (n index : ℕ) (l k : List ℕ) (f : ℕ → PartitionMap)
    → extents (renumber n index l f) k ≡ extents f k
unfolding extents
renumber-extents n index l [] f = refl
renumber-extents n index l (x ∷ k) f =
    ap₂ (λ (e : Extent) (t : List Extent). e ∷ t) (renumber_extent n index l f x)
      (renumber-extents n index l k f)
