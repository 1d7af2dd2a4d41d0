-- ===== src/PartitionMap/Session/Cleared.antt =====
-- What clearing the type of an entry, as `resize_map` does, keeps of the map.
use mac_fdisk.Base.{
  ℕ, ◌+◌, ◌≡◌, ◌∙◌, arith, false, List, [], ◌∷◌, ap, sym, subst, Bool-cases, inl, inr, refl, ◌==◌,
  set,
}
use mac_fdisk.PartitionMap.State.{
  PartitionMap, PartitionMapHeader, type_of, start_of, size_of, is_map, is_free, put,
}
use mac_fdisk.PartitionMap.Orders.Frame.{put_self, put_ne}
use mac_fdisk.PartitionMap.Add.Refines.{IsTiledMap}
use mac_fdisk.PartitionMap.Delete.{clear_type}
use mac_fdisk.Extents.{extents, extents_of, Tiled, is_free_kind, kind_of}
use mac_fdisk.Extents.Release.{IsJoined}

-- A type without its first letter is not that of free space.
pub is_free-set : (t : List ℕ) → is_free (set t 0 0) ≡ false
unfolding is_free
is_free-set [] = refl
is_free-set (c ∷ t) = refl

pub used_kind : (t : List ℕ) → is_free t ≡ false → is_free_kind (kind_of t) ≡ false
used_kind t e = elim (Bool-cases (is_map t)) [
  | inl own ↦ rw (e, own) refl
  | inr other ↦ rw (e, other) refl
]

-- The entries of `g` lie where those of `f` lie, and none is free that was not.
record Covers (f g : ℕ → PartitionMap) : Type 0 where
  starts : (j : ℕ) → start_of g j ≡ start_of f j
  sizes : (j : ℕ) → size_of g j ≡ size_of f j
  used :
      (j : ℕ)
      → is_free_kind (kind_of (type_of f j)) ≡ false
      → is_free_kind (kind_of (type_of g j)) ≡ false

Covers-Tiled :
    (f g : ℕ → PartitionMap)
    → Covers f g
    → (lo hi : ℕ) (l : List ℕ) → Tiled lo hi (extents f l)
    → Tiled lo hi (extents g l)
unfolding extents
Covers-Tiled f g c lo hi [] h = h
Covers-Tiled f g c lo hi (j ∷ l) h =
    rw (c.starts j, c.sizes j) (h.0, h.1, Covers-Tiled f g c (lo + size_of f j) hi l h.2)

Covers-IsJoined :
    (f g : ℕ → PartitionMap)
    → Covers f g
    → (l : List ℕ) → IsJoined (extents f l)
    → IsJoined (extents g l)
unfolding extents
Covers-IsJoined f g c [] h = tt
Covers-IsJoined f g c (j ∷ []) h = tt
Covers-IsJoined f g c (j ∷ k ∷ l) h =
    (ground (arith, c.used j, c.used k, h.0), Covers-IsJoined f g c (k ∷ l) h.1)

-- An entry other than the one that is written, and that one.
by_entry :
    (P : PartitionMap → Type 0) (f : ℕ → PartitionMap) (e : ℕ) (x : PartitionMap) (j : ℕ)
    → P (f j)
    → (j ≡ e → P x)
    → P (put f e x j)
by_entry P f e x j other own = elim (Bool-cases (j == e)) [
  | inl here ↦
      let same : j ≡ e = ground arith in
      subst P (sym (ap (put f e x) same ∙ put_self f e x)) (own same)
  | inr there ↦ subst P (sym (put_ne f e j x (ground arith))) other
]

clear_type-Covers : (e : ℕ) (m : PartitionMapHeader) → Covers m.entry (clear_type e m).entry
unfolding clear_type
clear_type-Covers e m = record {
  starts = λ j.
      by_entry (λ (x : PartitionMap). x.contents.pblock_start ≡ start_of m.entry j) m.entry e _ j
        refl (λ same. ap (start_of m.entry) (sym same));
  sizes = λ j.
      by_entry (λ (x : PartitionMap). x.contents.pblocks ≡ size_of m.entry j) m.entry e _ j refl
        (λ same. ap (size_of m.entry) (sym same));
  used = λ j u.
      by_entry (λ (x : PartitionMap). is_free_kind (kind_of x.contents.type_name) ≡ false) m.entry e
        _ j u (λ same. used_kind _ (is_free-set (type_of m.entry e)));
}

pub clear_type-IsTiledMap :
    (lo hi e : ℕ) (m : PartitionMapHeader) → IsTiledMap m lo hi → IsTiledMap (clear_type e m) lo hi
unfolding clear_type
clear_type-IsTiledMap lo hi e m w = record {
  tiled =
      Covers-Tiled m.entry (clear_type e m).entry (clear_type-Covers e m) lo hi m.base_order
        w.tiled;
  fits = w.fits;
  known = w.known;
}

pub clear_type-IsJoined :
    (e : ℕ) (m : PartitionMapHeader)
    → IsJoined (extents_of m)
    → IsJoined (extents_of (clear_type e m))
unfolding clear_type
clear_type-IsJoined e m j =
    Covers-IsJoined m.entry (clear_type e m).entry (clear_type-Covers e m) m.base_order j
