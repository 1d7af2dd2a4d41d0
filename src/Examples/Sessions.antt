-- ===== src/Examples/Sessions.antt =====
-- Deletions, and sequences of edits.
use mac_fdisk.Base.{
  ℕ, ◌≡◌, refl, arith, true, false, Option, none, some, [], ◌∷◌, ◌==◌, if◌then◌else◌,
}
use mac_fdisk.PartitionMap.State.{
  PartitionMapHeader, type_of, is_map, is_free, put, k_map_type, k_unix_type, k_free_type,
}
use mac_fdisk.PartitionMap.Orders.{next_in}
use mac_fdisk.PartitionMap.Add.{add_partition_to_map}
use mac_fdisk.PartitionMap.Add.Refines.{IsTiledMap}
use mac_fdisk.PartitionMap.Delete.{
  DeleteResult, ResizeResult, delete_partition_from_map, contains_driver, holds_driver, clear_type,
  resize_check, resize_map,
}
use mac_fdisk.PartitionMap.Delete.Releases.{delete_partition_from_map-release}
use mac_fdisk.PartitionMap.Move.{move_entry_in_map}
use mac_fdisk.PartitionMap.Session.{Edits, adds, moves, resizes, begins, goes_on}
use mac_fdisk.PartitionMap.Session.Refused.{resize_map-refused}
use mac_fdisk.PartitionMap.Session.Invariant.{Edits-IsTiledMap, Edits-IsJoined}
use mac_fdisk.Base.Strings.{strncpy}
use mac_fdisk.Base.Word.{add32}
use mac_fdisk.Dpme.{block0_signature}
use mac_fdisk.Extents.{extents, extent_of, extents_of}
use mac_fdisk.Extents.Release.{IsJoined, release}
use mac_fdisk.Examples.Maps.{entry_at, two_entries, two_entries_tiled}

-- A partition of 100 blocks between the map's own and free space.
abbrev three_entries : PartitionMapHeader
three_entries = record two_entries {
  disk_order = 0 ∷ 1 ∷ 2 ∷ [];
  base_order = 0 ∷ 1 ∷ 2 ∷ [];
  entry = λ (i : ℕ).
      if i == 0
      then entry_at 1 1 63 k_map_type
      else if i == 1
      then entry_at 2 64 100 k_unix_type
      else entry_at 3 164 836 k_free_type;
  blocks_in_map = 3;
  allocs = 3;
}

three_entries_tiled : IsTiledMap three_entries 1 1000
unfolding extents entry_at
three_entries_tiled = record {
  tiled = (refl, omega arith, (refl, omega arith, (refl, omega arith, refl)));
  fits = omega arith;
  known = (omega arith, (omega arith, (omega arith, tt)));
}

not_the_map : is_map (entry_at 2 64 100 k_unix_type).contents.type_name ≡ false
unfolding entry_at is_map
not_the_map = refl

no_driver : contains_driver 1 three_entries ≡ some false
unfolding contains_driver
no_driver = refl

delete_partition_from_map-release_example :
    (n : PartitionMapHeader) × (delete_partition_from_map (λ k. true) 1 three_entries
      ≡ some (n, DeleteResult.deleted))
    × (extents_of n
        ≡ release
            (extents three_entries.entry (0 ∷ []))
            (extent_of (three_entries.entry 1))
            (extents three_entries.entry (2 ∷ [])))
    × IsTiledMap n 1 1000
delete_partition_from_map-release_example =
    delete_partition_from_map-release (λ k. true) (λ k. refl) three_entries 1 1000 1
      three_entries_tiled (0 ∷ []) (2 ∷ []) refl not_the_map no_driver

abbrev or_else :
    PartitionMapHeader → Option (PartitionMapHeader × ResizeResult) → PartitionMapHeader
or_else m none = m
or_else m (some r) = r.0

-- The map's own entry shrunk from 63 blocks to 40.
abbrev shrunk : PartitionMapHeader
shrunk = or_else two_entries (resize_map (λ k. true) 40 two_entries)

shrinks : resize_map (λ k. true) 40 two_entries ≡ some (shrunk, ResizeResult.resized_map)
unfolding resize_map entry_at is_map is_free add_partition_to_map put next_in
shrinks = refl

abbrev added : PartitionMapHeader
added = (add_partition_to_map (λ k. true) k_unix_type k_unix_type 100 50 shrunk).0

abbrev moved : PartitionMapHeader
moved = (move_entry_in_map 2 3 added).0

edited : Edits (λ k. true) two_entries moved
edited =
    goes_on two_entries added moved
      (goes_on two_entries shrunk added
        (goes_on two_entries two_entries shrunk (begins two_entries) (
          resizes two_entries shrunk ResizeResult.resized_map 40 (omega arith) (omega arith)
            shrinks))
        (adds shrunk k_unix_type k_unix_type 100 50 (omega arith) (omega arith)))
      (moves added 2 3)

Edits-IsTiledMap_example : IsTiledMap moved 1 1000
Edits-IsTiledMap_example =
    Edits-IsTiledMap (λ k. true) (λ k. refl) 1 1000 two_entries moved edited two_entries_tiled

two_entries_joined : IsJoined (extents_of two_entries)
unfolding extents entry_at is_free is_map
two_entries_joined = (refl, tt)

Edits-IsJoined_example : IsJoined (extents_of moved)
unfolding edited is_free strncpy
Edits-IsJoined_example =
    Edits-IsJoined (λ k. true) (λ k. refl) 1 1000 two_entries moved edited (((tt, tt), refl), tt)
      two_entries_tiled two_entries_joined

-- The first map again, with a driver in the blocks of the map's own entry.
abbrev driven : PartitionMapHeader
driven = record two_entries {
  misc = some (record {
    sb_sig = block0_signature;
    sb_blk_size = 512;
    sb_blk_count = 1000;
    sb_dev_type = 0;
    sb_dev_id = 0;
    sb_data = 0;
    sb_drvr_count = 1;
    sb_map = record { dd_block = 40; dd_size = 10; dd_type = 1 } ∷ [];
    sb_tail = [];
  });
}

driven_tiled : IsTiledMap driven 1 1000
driven_tiled = record {
  tiled = two_entries_tiled.tiled;
  fits = two_entries_tiled.fits;
  known = two_entries_tiled.known;
}

its_own : is_map (entry_at 1 1 63 k_map_type).contents.type_name ≡ true
unfolding entry_at is_map
its_own = refl

its_driver : contains_driver 0 driven ≡ some true
unfolding contains_driver entry_at holds_driver add32
its_driver = refl

passes : resize_check 40 0 (next_in 0 driven.base_order) driven ≡ ResizeResult.resized_map
unfolding resize_check entry_at is_free next_in
passes = refl

resize_map-refused_example :
    (resize_map (λ k. true) 40 driven ≡ some (clear_type 0 driven, ResizeResult.resized_map))
    × (is_map (type_of (clear_type 0 driven).entry 0) ≡ false)
resize_map-refused_example =
    resize_map-refused (λ k. true) (λ k. refl) 40 1000 0 (1 ∷ []) driven driven_tiled refl its_own
      its_driver passes (omega arith) (omega arith)
