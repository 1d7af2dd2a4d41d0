-- ===== src/PartitionMap/Add/View.antt =====
-- A map whose list by first block is cut in two, with the extents of both parts, and what the
-- steps of an addition do to it.
use mac_fdisk.Base.{
  ℕ, ◌+◌, ◌≡◌, ◌≢◌, ◌≤◌, ◌<◌, ◌∙◌, arith, Bool, true, List, [], ◌∷◌, ◌++◌, sym, ap, ap₂, All,
  All-mono, All-append,
}
use mathlib.Core.List.{append_assoc}
use mac_fdisk.Dpme.{Dpme}
use mac_fdisk.PartitionMap.State.{PartitionMap, PartitionMapHeader, start_of, put}
use mac_fdisk.PartitionMap.Orders.Insert.{Front}
use mac_fdisk.PartitionMap.Orders.Frame.{put_self, extents_cons, extents-put, extents-append}
use mac_fdisk.PartitionMap.Add.{link_data, add_data_to_map, adjust, resized}
use mac_fdisk.PartitionMap.Add.Link.{
  entry_for, link_data-entry, link_data-allocs, link_data-base_order,
}
use mac_fdisk.Extents.{Extent, extent, extent_of, extents, extents_of}

pub record View (m : PartitionMapHeader) (pre post : List ℕ) (xs ys : List Extent) : Type 0 where
  pub splits : m.base_order ≡ pre ++ post
  pub before : extents m.entry pre ≡ xs
  pub after : extents m.entry post ≡ ys
  pub old_pre : All (λ j. j < m.allocs) pre
  pub old_post : All (λ j. j < m.allocs) post

-- The first extent of a list, if any, starts at `k` or above.
abbrev pub FrontExtent : ℕ → List Extent → Type 0
FrontExtent k [] = Unit
FrontExtent k (x ∷ l) = k ≤ x.first

pub View-extents_of :
    (m : PartitionMapHeader) (pre post : List ℕ) (xs ys : List Extent)
    → View m pre post xs ys
    → extents_of m ≡ xs ++ ys
View-extents_of m pre post xs ys v = rw (v.splits, extents-append, v.before, v.after)

module _ (f : ℕ → PartitionMap) where
  below_extents :
      (k : ℕ) (l : List ℕ) (xs : List Extent)
      → extents f l ≡ xs
      → All (λ (x : Extent). x.first < k) xs
      → All (λ j. start_of f j < k) l
  unfolding extents
  below_extents k [] xs e h = tt
  below_extents k (i ∷ l) [] e h = absurd (ground arith)
  below_extents k (i ∷ l) (x ∷ xs) e h = (ground arith, below_extents k l xs (ground arith) h.1)

  Front-extents :
      (k : ℕ) (l : List ℕ) (ys : List Extent)
      → extents f l ≡ ys
      → FrontExtent k ys
      → Front (start_of f) k l
  unfolding extents
  Front-extents k [] ys e h = tt
  Front-extents k (i ∷ l) [] e h = absurd (ground arith)
  Front-extents k (i ∷ l) (y ∷ ys) e h = ground arith

-- A new entry is linked in between the two parts.
View-link :
    (m : PartitionMapHeader) (d : Dpme) (index : ℕ) (pre post : List ℕ) (xs ys : List Extent)
    → View m pre post xs ys
    → All (λ (x : Extent). x.first < d.pblock_start) xs
    → FrontExtent d.pblock_start ys
    → View
        (link_data m.allocs d index (record m { allocs = m.allocs + 1 }))
        pre
        (m.allocs ∷ post)
        xs
        (extent_of (entry_for d index) ∷ ys)
View-link m d index pre post xs ys v below above = record {
  splits =
      link_data-base_order e d index n pre post v.splits new_pre new_post
        (below_extents m.entry d.pblock_start pre xs v.before below)
        (Front-extents m.entry d.pblock_start post ys v.after above);
  before = rw link_data-entry (extents-put m.entry e (entry_for d index) pre new_pre ∙ v.before);
  after =
      rw (extents_cons, link_data-entry, put_self m.entry e (entry_for d index))
        (ap (λ (t : List Extent). extent_of (entry_for d index) ∷ t)
          (extents-put m.entry e (entry_for d index) post new_post ∙ v.after));
  old_pre = All-mono _ _ pre (λ j h. omega (arith, grown)) v.old_pre;
  old_post = (omega (arith, grown), All-mono _ _ post (λ j h. omega (arith, grown)) v.old_post);
}
  where
    e : ℕ
    e = m.allocs

    n : PartitionMapHeader
    n = record m { allocs = m.allocs + 1 }

    grown : (link_data e d index n).allocs ≡ m.allocs + 1
    grown = link_data-allocs e d index n

    new_pre : All (λ j. j ≢ e) pre
    new_pre = All-mono _ _ pre (λ j h. omega arith) v.old_pre

    new_post : All (λ j. j ≢ e) post
    new_post = All-mono _ _ post (λ j h. omega arith) v.old_post

module _ (malloc : ℕ → Bool) (ok : (n : ℕ) → malloc n ≡ true) where
  pub add_data_to_map-ok :
      (d : Dpme) (index : ℕ) (m : PartitionMapHeader)
      → add_data_to_map malloc d index m
        ≡ (link_data m.allocs d index (record m { allocs = m.allocs + 1 }), true)
  unfolding add_data_to_map
  add_data_to_map-ok d index m = rw (add_data_to_map, ok m.allocs)

  pub View-add :
      (m : PartitionMapHeader) (d : Dpme) (index : ℕ) (pre post : List ℕ) (xs ys : List Extent)
      → View m pre post xs ys
      → All (λ (x : Extent). x.first < d.pblock_start) xs
      → FrontExtent d.pblock_start ys
      → View
          (add_data_to_map malloc d index m).0
          pre
          (m.allocs ∷ post)
          xs
          (extent_of (entry_for d index) ∷ ys)
  View-add m d index pre post xs ys v below above =
      rw (add_data_to_map-ok d index m) (View-link m d index pre post xs ys v below above)

-- The entry between the parts is adjusted.
pub View-adjust :
    (m : PartitionMapHeader) (cur a b : ℕ) (pre post : List ℕ) (x : Extent) (xs ys : List Extent)
    → All (λ j. j ≢ cur) pre
    → All (λ j. j ≢ cur) post
    → View m pre (cur ∷ post) xs (x ∷ ys)
    → View (adjust cur a b m) pre (cur ∷ post) xs (extent a b x.kind ∷ ys)
unfolding adjust extents
View-adjust m cur a b pre post x xs ys apart_pre apart_post v = record {
  splits = v.splits;
  before = extents-put m.entry cur small pre apart_pre ∙ v.before;
  after =
      extents_cons (put m.entry cur small) cur post
      ∙ ap₂ (λ (s : Extent) (t : List Extent). s ∷ t)
          (ap extent_of (put_self m.entry cur small) ∙ ap (λ (t : Extent). extent a b t.kind) head)
          (extents-put m.entry cur small post apart_post ∙ tail);
  old_pre = v.old_pre;
  old_post = v.old_post;
}
  where
    small : PartitionMap
    small = record (m.entry cur) { contents = resized a b (m.entry cur).contents }

    head : extent_of (m.entry cur) ≡ x
    head = ground (arith, v.after)

    tail : extents m.entry post ≡ ys
    tail = ground (arith, v.after)

-- The cut is moved behind the first entry of the second part.
pub View-shift :
    (m : PartitionMapHeader) (cur : ℕ) (pre post : List ℕ) (x : Extent) (xs ys : List Extent)
    → View m pre (cur ∷ post) xs (x ∷ ys)
    → View m (pre ++ (cur ∷ [])) post (xs ++ (x ∷ [])) ys
unfolding extents
View-shift m cur pre post x xs ys v = record {
  splits = v.splits ∙ sym (append_assoc pre (cur ∷ []) post);
  before =
      extents-append m.entry pre (cur ∷ [])
      ∙ ap₂ (λ (s t : List Extent). s ++ t) v.before (ground (arith, v.after));
  after = ground arith;
  old_pre = All-append _ pre (cur ∷ []) v.old_pre (omega arith);
  old_post = v.old_post.1;
}

-- An allocation in between changes neither part.
pub View-alloc :
    (m : PartitionMapHeader) (pre post : List ℕ) (xs ys : List Extent)
    → View m pre post xs ys
    → View (record m { allocs = m.allocs + 1 }) pre post xs ys
View-alloc m pre post xs ys v = record {
  splits = v.splits;
  before = v.before;
  after = v.after;
  old_pre = All-mono _ _ pre (λ j h. omega arith) v.old_pre;
  old_post = All-mono _ _ post (λ j h. omega arith) v.old_post;
}
