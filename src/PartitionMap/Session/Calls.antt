-- ===== src/PartitionMap/Session/Calls.antt =====
-- What each call of an edit keeps.
use mac_fdisk.Base.{
  ℕ, ◌+◌, ◌^◌, ◌≡◌, ◌<◌, ◌∙◌, arith, Bool, true, false, some, none, List, ◌∷◌, ◌++◌, ap, sym, subst,
  Bool-cases, Option-cases, inl, inr, refl, ◌⊎◌, Option,
}
use mac_fdisk.Base.Strings.{strncpy}
use mac_fdisk.Dpme.{dpistrlen}
use mac_fdisk.PartitionMap.State.{PartitionMapHeader, type_of, is_map, is_free}
use mac_fdisk.PartitionMap.Add.{AddResult, add_partition_to_map}
use mac_fdisk.PartitionMap.Add.Names.{add_partition_to_map-Named}
use mac_fdisk.PartitionMap.Add.Refines.{
  IsTiledMap, Carved, carved, not_free, no_room, add_partition_to_map-Carved, carved, not_free,
  no_room, add_partition_to_map-Tiled,
}
use mac_fdisk.PartitionMap.Delete.{DeleteResult, contains_driver, delete_partition_from_map}
use mac_fdisk.PartitionMap.Delete.Releases.{delete_partition_from_map-release}
use mac_fdisk.PartitionMap.Move.{relink, moved_address, move_entry_in_map}
use mac_fdisk.PartitionMap.Orders.{
  find_entry_by_disk_address, renumber_disk_addresses, insert_in_disk_order, remove_from_disk_order,
}
use mac_fdisk.PartitionMap.Orders.Frame.{
  renumber-extents, extents-put_extent, extents-append, extents_cons,
}
use mac_fdisk.Extents.{extent_of, extents, extents_of, Tiled, kind_of}
use mac_fdisk.Extents.Release.{release, IsJoined, release-IsJoined}
use mac_fdisk.Extents.Joined.{carve-IsJoined}

first_of : PartitionMapHeader → Option (PartitionMapHeader × DeleteResult) → PartitionMapHeader
first_of m none = m
first_of m (some r) = r.0

-- The moved entry keeps its place on the disk, and so do all others.
relink-extents :
    (cur address : ℕ) (m : PartitionMapHeader) → extents_of (relink cur address m) ≡ extents_of m
unfolding relink insert_in_disk_order remove_from_disk_order
relink-extents cur address m =
    extents-put_extent m.entry cur (record (m.entry cur) { disk_address = address }) m.base_order
      refl

pub move-kept :
    (old_index index : ℕ) (m : PartitionMapHeader)
    → let n = (move_entry_in_map old_index index m).0 in
      (extents_of n ≡ extents_of m) × (n.base_order ≡ m.base_order) × (n.allocs ≡ m.allocs)
unfolding move_entry_in_map
move-kept old_index index m = elim (Option-cases (find_entry_by_disk_address old_index m)) [
  | inl missing ↦ rw (move_entry_in_map, missing) (refl, refl, refl)
  | inr (cur, found) ↦
      let n = relink cur (moved_address old_index index) m in
      rw (move_entry_in_map, found)
        (
          unfold renumber_disk_addresses in
              renumber-extents n.blocks_in_map 1 n.disk_order n.base_order n.entry
              ∙ relink-extents cur (moved_address old_index index) m,
          unfold renumber_disk_addresses relink insert_in_disk_order remove_from_disk_order in refl,
          unfold renumber_disk_addresses relink insert_in_disk_order remove_from_disk_order in refl,
        )
]

module _ (malloc : ℕ → Bool) (ok : (n : ℕ) → malloc n ≡ true) (lo hi : ℕ) where
  pub move-IsTiledMap :
      (old_index index : ℕ) (m : PartitionMapHeader)
      → IsTiledMap m lo hi
      → IsTiledMap (move_entry_in_map old_index index m).0 lo hi
  move-IsTiledMap old_index index m w =
      let (view, names, allocs) = move-kept old_index index m in
      record {
        tiled = subst (Tiled lo hi) (sym view) w.tiled;
        fits = w.fits;
        known = rw (names, allocs) w.known;
      }

  pub add-IsTiledMap :
      (name dptype : List ℕ) (base length : ℕ) (m : PartitionMapHeader)
      → 0 < length
      → base + length < 2 ^ 32
      → IsTiledMap m lo hi
      → IsTiledMap (add_partition_to_map malloc name dptype base length m).0 lo hi
  add-IsTiledMap name dptype base length m pos exact w = record {
    tiled = add_partition_to_map-Tiled malloc ok name dptype base length lo hi m w pos exact;
    fits = w.fits;
    known = add_partition_to_map-Named malloc name dptype base length m w.known;
  }

  module _ (m n : PartitionMapHeader) (r : DeleteResult) (e : ℕ) (pre post : List ℕ)
      (w : IsTiledMap m lo hi) (splits : m.base_order ≡ pre ++ e ∷ post)
      (ends : delete_partition_from_map malloc e m ≡ some (n, r)) where
    abbrev Answers : PartitionMapHeader → DeleteResult → Type 0
    Answers k q = delete_partition_from_map malloc e m ≡ some (k, q)

    same : (k : PartitionMapHeader) (q : DeleteResult) → Answers k q → k ≡ n
    unfolding first_of
    same k q other = ap (first_of m) (sym other ∙ ends)

    refuses_map : is_map (type_of m.entry e) ≡ true → Answers m DeleteResult.is_the_map
    unfolding delete_partition_from_map
    refuses_map own = rw own refl

    refuses_driver :
        is_map (type_of m.entry e) ≡ false
        → contains_driver e m ≡ some true
        → Answers m DeleteResult.has_driver
    unfolding delete_partition_from_map
    refuses_driver used driver = rw (used, driver) refl

    reads_on :
        is_map (type_of m.entry e) ≡ false
        → contains_driver e m ≡ none
        → delete_partition_from_map malloc e m ≡ none
    unfolding delete_partition_from_map
    reads_on used fails = rw (used, fails) refl

    -- Either a deletion is refused, or it releases the extent.
    delete_ends :
        (m ≡ n)
        ⊎ ((extents_of n
              ≡ release (extents m.entry pre) (extent_of (m.entry e)) (extents m.entry post))
            × IsTiledMap n lo hi)
    delete_ends = elim (Bool-cases (is_map (type_of m.entry e))) [
      | inl own ↦ inl (same m _ (refuses_map own))
      | inr used ↦ elim (Option-cases (contains_driver e m)) [
        | inl fails ↦ absurd (cc (sym (reads_on used fails) ∙ ends))
        | inr (true, driver) ↦ inl (same m _ (refuses_driver used driver))
        | inr (false, bare) ↦
            let (k, deleted, view, tiles) =
              delete_partition_from_map-release malloc ok m lo hi e w pre post splits used bare in
            inr (
              subst
                (λ x.
                  (extents_of x
                    ≡ release (extents m.entry pre) (extent_of (m.entry e)) (extents m.entry post))
                  × IsTiledMap x lo hi)
                (same k _ deleted) (view, tiles))
      ]
    ]

    pub delete-IsTiledMap : IsTiledMap n lo hi
    delete-IsTiledMap = elim delete_ends [
      | inl kept ↦ subst (λ x. IsTiledMap x lo hi) kept w
      | inr (view, tiles) ↦ tiles
    ]

    pub delete-IsJoined : IsJoined (extents_of m) → IsJoined (extents_of n)
    delete-IsJoined j = elim delete_ends [
      | inl kept ↦ subst (λ (x : PartitionMapHeader). IsJoined (extents_of x)) kept j
      | inr (view, tiles) ↦ subst IsJoined (sym view) (
          release-IsJoined (extents m.entry pre) (extent_of (m.entry e)) (extents m.entry post) (
            subst IsJoined
              (ap (extents m.entry) splits
                ∙ extents-append m.entry pre (e ∷ post)
                ∙ ap (λ l. extents m.entry pre ++ l) (extents_cons m.entry e post))
              j))
    ]

  pub add-IsJoined :
      (name dptype : List ℕ) (base length : ℕ) (m : PartitionMapHeader)
      → 0 < length
      → base + length < 2 ^ 32
      → IsTiledMap m lo hi
      → is_free (strncpy dpistrlen dptype) ≡ false
      → IsJoined (extents_of m)
      → IsJoined (extents_of (add_partition_to_map malloc name dptype base length m).0)
  add-IsJoined name dptype base length m pos exact w used j =
      go (add_partition_to_map malloc name dptype base length m)
        (add_partition_to_map-Carved malloc ok name dptype base length lo hi m w pos exact)
    where
      go :
          (r : PartitionMapHeader × AddResult)
          → Carved (kind_of (strncpy dpistrlen dptype)) base length m r
          → IsJoined (extents_of r.0)
      go r (carved _ out _) =
          carve-IsJoined (kind_of (strncpy dpistrlen dptype)) base length (ground arith)
            (extents_of m) (extents_of r.0) j out
      go r (not_free _ kept _) =
          subst (λ (n : PartitionMapHeader). IsJoined (extents_of n)) (sym kept) j
      go r (no_room _ kept _ _ _) =
          subst (λ (n : PartitionMapHeader). IsJoined (extents_of n)) (sym kept) j
