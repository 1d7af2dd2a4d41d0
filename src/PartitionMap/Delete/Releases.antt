-- ===== src/PartitionMap/Delete/Releases.antt =====
-- `delete_partition_from_map` against its abstract specification.
use mac_fdisk.Base.{
  ℕ, ◌+◌, ◌≡◌, ◌<◌, ◌∙◌, arith, Bool, true, false, some, List, ◌∷◌, ◌++◌, refl, sym, ap, subst, All,
  All-mono,
}
use mac_fdisk.PartitionMap.State.{
  PartitionMap, PartitionMapHeader, start_of, size_of, type_of, is_free, is_map, put_contents,
  create_data, created, k_free_name, k_free_type,
}
use mac_fdisk.PartitionMap.Orders.{renumber_disk_addresses}
use mac_fdisk.PartitionMap.Orders.Frame.{put_self, extents-put, renumber-extents}
use mac_fdisk.PartitionMap.Add.Carves.{free_extent}
use mac_fdisk.PartitionMap.Add.Refines.{IsTiledMap}
use mac_fdisk.PartitionMap.Delete.{
  DeleteResult, combine_entry, free_entry, contains_driver, delete_partition_from_map,
}
use mac_fdisk.Dpme.{Dpme}
use mac_fdisk.PartitionMap.Delete.Join.{combine_entry_lem}
use mac_fdisk.PartitionMap.Delete.Cut.{Cut, cut_at}
use mac_fdisk.Extents.{Extent, extent_of, extents, extents_of, Tiled}
use mac_fdisk.Extents.Release.{release, freed, release-Tiled}

-- The old data of the entry makes way for that of a free one.
module _ (malloc : ℕ → Bool) (ok : (n : ℕ) → malloc n ≡ true) (m : PartitionMapHeader) (lo hi e : ℕ)
    (w : IsTiledMap m lo hi) (pre post : List ℕ) (splits : m.base_order ≡ pre ++ (e ∷ post)) where
  c : Cut m.entry lo hi pre e post
  c = cut_at m.entry lo hi pre e post (subst (λ l. Tiled lo hi (extents m.entry l)) splits w.tiled)

  abbrev blank : Dpme
  blank = created k_free_name k_free_type (start_of m.entry e) (size_of m.entry e)

  abbrev emptied : PartitionMapHeader
  emptied = record m { allocs = m.allocs + 1; entry = put_contents m.entry e blank }

  blank_entry : emptied.entry e ≡ record (m.entry e) { contents = blank }
  blank_entry = put_self m.entry e (record (m.entry e) { contents = blank })

  blank_extent : extent_of (emptied.entry e) ≡ freed (extent_of (m.entry e))
  blank_extent =
      ap extent_of blank_entry
      ∙ free_extent (start_of m.entry e) (size_of m.entry e) (m.entry e).disk_address

  kept_pre : extents emptied.entry pre ≡ extents m.entry pre
  kept_pre = extents-put m.entry e (record (m.entry e) { contents = blank }) pre c.apart_pre

  kept_post : extents emptied.entry post ≡ extents m.entry post
  kept_post = extents-put m.entry e (record (m.entry e) { contents = blank }) post c.apart_post

  same_start : start_of emptied.entry e ≡ start_of m.entry e
  same_start = ap (λ (x : Extent). x.first) blank_extent

  same_size : size_of emptied.entry e ≡ size_of m.entry e
  same_size = ap (λ (x : Extent). x.size) blank_extent

  cut : Cut emptied.entry lo hi pre e post
  cut = record {
    below = rw (same_start, kept_pre) c.below;
    filled = rw same_size c.filled;
    above = rw (same_start, same_size, kept_post) c.above;
    apart_pre = c.apart_pre;
    apart_post = c.apart_post;
    apart = c.apart;
  }

  is_blank : is_free (type_of emptied.entry e) ≡ true
  unfolding is_free created
  is_blank = ap (λ (p : PartitionMap). is_free p.contents.type_name) blank_entry

  abbrev joined : PartitionMapHeader
  joined = combine_entry e emptied

  abbrev out : List Extent
  out = release (extents m.entry pre) (extent_of (m.entry e)) (extents m.entry post)

  joins : (extents_of joined ≡ out) × All (λ j. j < joined.allocs) joined.base_order
  unfolding release
  joins =
      let r =
        combine_entry_lem emptied lo hi e w.fits pre post cut splits
          (All-mono _ _ m.base_order (λ j h. omega arith) w.known) is_blank in
      (r.0 ∙ rw (kept_pre, kept_post, blank_extent) refl, r.1)

  abbrev result : PartitionMapHeader
  result = record (renumber_disk_addresses joined) { changed = true }

  result_extents : extents_of result ≡ out
  result_extents =
      unfold renumber_disk_addresses in
      renumber-extents joined.blocks_in_map 1 joined.disk_order joined.base_order joined.entry
      ∙ joins.0

  tiles : IsTiledMap result lo hi
  tiles = record {
    tiled = subst (Tiled lo hi) (sym result_extents) (
        release-Tiled lo (start_of m.entry e) hi (extents m.entry pre) (extent_of (m.entry e))
          (extents m.entry post) c.below (refl, c.filled, c.above));
    fits = w.fits;
    known = unfold renumber_disk_addresses in joins.1;
  }

  module _ (used : is_map (type_of m.entry e) ≡ false)
      (bare : contains_driver e m ≡ some false) where
    deletes : delete_partition_from_map malloc e m ≡ some (result, DeleteResult.deleted)
    deletes =
        unfold delete_partition_from_map free_entry create_data in
        rw (used, bare, free_entry, create_data, ok m.allocs)

    -- On a map whose entries tile the blocks from `lo` to `hi`, with every allocation granted,
    -- deleting an entry that is not the map's own and holds no driver succeeds. The extent of the
    -- entry becomes free and is joined with its free neighbours, all others stay as they were, and
    -- the entries of the new map tile the same blocks.
    pub delete_partition_from_map-release :
        (n : PartitionMapHeader) × (delete_partition_from_map malloc e m
          ≡ some (n, DeleteResult.deleted))
        × (extents_of n
            ≡ release (extents m.entry pre) (extent_of (m.entry e)) (extents m.entry post))
        × IsTiledMap n lo hi
    delete_partition_from_map-release = (result, deletes, result_extents, tiles)
