-- ===== src/PartitionMap/Session/Resize.antt =====
-- What resizing the map's own entry keeps: `resize_map` clears the entry's type, deletes the entry and
-- adds one of the new size.
use mac_fdisk.Base.{
  ℕ, ◌+◌, ◌^◌, ◌≡◌, ◌<◌, ◌∙◌, arith, Bool, true, false, some, none, List, [], ◌∷◌, ◌++◌, ap, sym,
  subst, Bool-cases, Option-cases, inl, inr, refl, Option,
}
use mac_fdisk.Base.Strings.{codes, strncpy}
use mac_fdisk.Dpme.{dpistrlen}
use mac_fdisk.PartitionMap.State.{
  PartitionMap, PartitionMapHeader, type_of, is_map, is_free, k_map_type,
}
use mac_fdisk.PartitionMap.Orders.{next_in}
use mac_fdisk.PartitionMap.Add.{add_partition_to_map}
use mac_fdisk.PartitionMap.Add.Refines.{IsTiledMap}
use mac_fdisk.PartitionMap.Delete.{
  DeleteResult, ResizeResult, clear_type, find_map, delete_partition_from_map, resize_check,
  resize_map,
}
use mac_fdisk.PartitionMap.Session.Calls.{
  add-IsTiledMap, add-IsJoined, delete-IsTiledMap, delete-IsJoined,
}
use mac_fdisk.Extents.{extents_of}
use mac_fdisk.Extents.Release.{IsJoined}
use mac_fdisk.PartitionMap.Session.Cleared.{clear_type-IsTiledMap, clear_type-IsJoined}

-- The entry that `find_map` finds is one of the list.
find_map-splits :
    (f : ℕ → PartitionMap) (l : List ℕ) (e : ℕ)
    → find_map f l ≡ some e
    → (pre : List ℕ) × (post : List ℕ) × (l ≡ pre ++ e ∷ post)
unfolding find_map
find_map-splits f [] e h = cc
find_map-splits f (cur ∷ l) e h = elim (Bool-cases (is_map (type_of f cur))) [
  | inl here ↦ let same : cur ≡ e = ground (arith, here) in ([], l, ap (λ (c : ℕ). c ∷ l) same)
  | inr there ↦
      let later : find_map f l ≡ some e = ground (arith, there) in
      let (pre, post, splits) = find_map-splits f l e later in
      (cur ∷ pre, post, ap (λ (t : List ℕ). cur ∷ t) splits)
]

map_type-used : is_free (strncpy dpistrlen k_map_type) ≡ false
unfolding is_free strncpy
map_type-used = refl

module _ (malloc : ℕ → Bool) (ok : (n : ℕ) → malloc n ≡ true) (lo hi : ℕ) where
  abbrev map_of :
      PartitionMapHeader → Option (PartitionMapHeader × ResizeResult) → PartitionMapHeader
  map_of m none = m
  map_of m (some x) = x.0

  -- What the calls keep: the tiling, and that no neighbours are both free.
  abbrev Sound : PartitionMapHeader → Type 0
  Sound m = IsTiledMap m lo hi

  abbrev Joins : PartitionMapHeader → PartitionMapHeader → Type 0
  Joins m n = IsJoined (extents_of m) → IsJoined (extents_of n)

  module _ (new_size : ℕ) where
    -- How `resize_map` ends behind its deletion, and behind its checks.
    abbrev pub resized_from :
        Option (PartitionMapHeader × DeleteResult) → Option (PartitionMapHeader × ResizeResult)
    resized_from o =
        let added : Option PartitionMapHeader = elim o [
          | none ↦ none
          | some (k, _) ↦
              some (add_partition_to_map malloc (codes "Apple") k_map_type 1 new_size k).0
        ] in
        elim added [ none ↦ none | some n ↦ some (n, ResizeResult.resized_map) ]

    abbrev pub outcome :
        ℕ → PartitionMapHeader → ResizeResult → Option (PartitionMapHeader × ResizeResult)
    outcome e m a = elim a [
      | ResizeResult.resized_map ↦
          resized_from (delete_partition_from_map malloc e (clear_type e m))
      | refused ↦ some (m, refused)
    ]

    pub resize_map-outcome :
        (m : PartitionMapHeader) (e : ℕ)
        → find_map m.entry m.base_order ≡ some e
        → resize_map malloc new_size m
          ≡ outcome e m (resize_check new_size e (next_in e m.base_order) m)
    unfolding resize_map
    resize_map-outcome m e found = rw (resize_map, found) refl

    resize_map-missing :
        (m : PartitionMapHeader)
        → find_map m.entry m.base_order ≡ none
        → resize_map malloc new_size m ≡ some (m, ResizeResult.no_map_entry)
    unfolding resize_map
    resize_map-missing m missing = rw (resize_map, missing) refl

    module _ (pos : 0 < new_size) (exact : 1 + new_size < 2 ^ 32) where
      replaced :
          (e : ℕ) (m n k : PartitionMapHeader) (r : DeleteResult) (pre post : List ℕ)
          → m.base_order ≡ pre ++ e ∷ post
          → Sound m
          → delete_partition_from_map malloc e (clear_type e m) ≡ some (k, r)
          → (add_partition_to_map malloc (codes "Apple") k_map_type 1 new_size k).0 ≡ n
          → Sound n × Joins m n
      unfolding clear_type
      replaced e m n k r pre post splits w done ends =
          let w1 = clear_type-IsTiledMap lo hi e m w in
          let w2 =
            delete-IsTiledMap malloc ok lo hi (clear_type e m) k r e pre post w1 splits done in
          (
            subst Sound ends (
                add-IsTiledMap malloc ok lo hi (codes "Apple") k_map_type 1 new_size k pos exact
                  w2),
            λ j.
                subst (λ (x : PartitionMapHeader). IsJoined (extents_of x)) ends
                  (add-IsJoined malloc ok lo hi (codes "Apple") k_map_type 1 new_size k pos exact w2
                    map_type-used
                    (delete-IsJoined malloc ok lo hi (clear_type e m) k r e pre post w1 splits done
                      (clear_type-IsJoined e m j))),
          )

      abbrev Keeps : PartitionMapHeader → Option (PartitionMapHeader × ResizeResult) → Type 0
      Keeps m o =
          (n : PartitionMapHeader) (r : ResizeResult) → o ≡ some (n, r) → Sound n × Joins m n

      Keeps-same : (m : PartitionMapHeader) (q : ResizeResult) → Sound m → Keeps m (some (m, q))
      Keeps-same m q w n r ends =
          let same : m ≡ n = ground arith in
          subst (λ (x : PartitionMapHeader). Sound x × Joins m x) same (w, λ j. j)

      Keeps-replaced :
          (e : ℕ) (m : PartitionMapHeader) (pre post : List ℕ)
          → m.base_order ≡ pre ++ e ∷ post
          → Sound m
          → (o : Option (PartitionMapHeader × DeleteResult))
          → delete_partition_from_map malloc e (clear_type e m) ≡ o
          → Keeps m (resized_from o)
      Keeps-replaced e m pre post splits w none fails n r ends = absurd (cc ends)
      Keeps-replaced e m pre post splits w (some (k, q)) done n r ends =
          replaced e m n k q pre post splits w done (ap (map_of m) ends)

      Keeps-outcome :
          (e : ℕ) (m : PartitionMapHeader) (pre post : List ℕ)
          → m.base_order ≡ pre ++ e ∷ post
          → Sound m
          → (a : ResizeResult) → Keeps m (outcome e m a)
      Keeps-outcome e m pre post splits w ResizeResult.resized_map =
          Keeps-replaced e m pre post splits w _ refl
      Keeps-outcome e m pre post splits w ResizeResult.no_map_entry = Keeps-same m _ w
      Keeps-outcome e m pre post splits w ResizeResult.same_size = Keeps-same m _ w
      Keeps-outcome e m pre post splits w ResizeResult.too_small = Keeps-same m _ w
      Keeps-outcome e m pre post splits w ResizeResult.no_space = Keeps-same m _ w
      Keeps-outcome e m pre post splits w ResizeResult.not_contiguous = Keeps-same m _ w
      Keeps-outcome e m pre post splits w ResizeResult.not_enough = Keeps-same m _ w

      -- Whatever it answers, `resize_map` keeps the tiling and that no neighbours are both free.
      pub resize-kept :
          (m n : PartitionMapHeader) (r : ResizeResult)
          → resize_map malloc new_size m ≡ some (n, r)
          → Sound m
          → Sound n × Joins m n
      resize-kept m n r ends w = elim (Option-cases (find_map m.entry m.base_order)) [
        | inl missing ↦ Keeps-same m _ w n r (sym (resize_map-missing m missing) ∙ ends)
        | inr (e, found) ↦
            let (pre, post, splits) = find_map-splits m.entry m.base_order e found in
            Keeps-outcome e m pre post splits w (resize_check new_size e (next_in e m.base_order) m)
              n r (sym (resize_map-outcome m e found) ∙ ends)
      ]
