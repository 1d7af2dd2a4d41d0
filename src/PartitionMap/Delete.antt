-- ===== src/PartitionMap/Delete.antt =====
-- `delete_partition_from_map`, with `contains_driver` and `combine_entry`, and `resize_map`.
pub mod Combine
pub mod Cut
pub mod CombineBack
pub mod Join
pub mod Releases
use mac_fdisk.Base.{
  ℕ, zero, suc, ◌+◌, Bool, true, false, ◌&&◌, not, Option, none, some, List, [], ◌∷◌, ◌==◌, leb,
  ltb, if◌then◌else◌, set,
}
use mac_fdisk.Base.Word.{add32, signed_ltb}
use mac_fdisk.Base.Strings.{codes}
use mac_fdisk.Dpme.{DdMap, block0_signature}
use mac_fdisk.PartitionMap.State.{
  PartitionMap, PartitionMapHeader, start_of, size_of, type_of, is_free, is_map, put_contents,
  k_free_name, k_free_type, k_map_type, create_data,
}
use mac_fdisk.PartitionMap.Orders.{delete_entry, next_in, prev_in, renumber_disk_addresses}
use mac_fdisk.PartitionMap.Add.{resized, add_partition_to_map}

-- The driver lies within the `size` blocks from `start`.
unfoldable pub holds_driver : ℕ → ℕ → DdMap → Bool
holds_driver start size d =
    leb start d.dd_block && leb (add32 d.dd_block d.dd_size) (add32 start size)

-- The loop over the first `n` drivers. `none` is a read behind the descriptor table.
unfoldable pub any_driver : ℕ → ℕ → ℕ → List DdMap → Option Bool
any_driver start size zero ms = some false
any_driver start size (suc n) [] = none
any_driver start size (suc n) (d ∷ ms) = elim (holds_driver start size d) [
  | true ↦ some true
  | false ↦ any_driver start size n ms
]

unfoldable pub contains_driver : ℕ → PartitionMapHeader → Option Bool
unfolding any_driver
contains_driver e m = elim m.misc [
  | none ↦ some false
  | some p ↦
      if p.sb_sig == block0_signature
      then any_driver (start_of m.entry e) (size_of m.entry e) p.sb_drvr_count p.sb_map
      else some false
]

-- Entry `e` takes over the blocks of its free neighbour `p` behind it.
unfoldable pub absorb_next : ℕ → Option ℕ → PartitionMapHeader → PartitionMapHeader
absorb_next e none m = m
absorb_next e (some p) m =
    if is_free (type_of m.entry p)
      && add32 (start_of m.entry e) (size_of m.entry e) == start_of m.entry p
    then delete_entry p (record m {
      entry = put_contents m.entry e (
          resized (start_of m.entry e) (add32 (size_of m.entry e) (size_of m.entry p))
            (m.entry e).contents);
    })
    else m

-- The same for the neighbour in front.
unfoldable pub absorb_prev : ℕ → Option ℕ → PartitionMapHeader → PartitionMapHeader
absorb_prev e none m = m
absorb_prev e (some p) m =
    if is_free (type_of m.entry p)
      && add32 (start_of m.entry p) (size_of m.entry p) == start_of m.entry e
    then delete_entry p (record m {
      entry = put_contents m.entry e (
          resized (start_of m.entry p) (add32 (size_of m.entry e) (size_of m.entry p))
            (m.entry e).contents);
    })
    else m

unfoldable pub combine_entry : ℕ → PartitionMapHeader → PartitionMapHeader
unfolding absorb_next absorb_prev
combine_entry e m =
    if is_free (type_of m.entry e)
    then (let n = absorb_next e (next_in e m.base_order) m in
        absorb_prev e (prev_in e n.base_order) n)
    else m

-- How `delete_partition_from_map` ends: the first two print a message.
pub data DeleteResult : Type 0 where
  is_the_map has_driver no_memory deleted : DeleteResult

module _ (malloc : ℕ → Bool) where
  -- The part behind the checks.
  unfoldable pub free_entry : ℕ → PartitionMapHeader → PartitionMapHeader × DeleteResult
  unfolding combine_entry create_data
  free_entry e m =
      let (n, made) =
        create_data malloc k_free_name k_free_type (start_of m.entry e) (size_of m.entry e) m in
      elim made [
        | none ↦ (n, DeleteResult.no_memory)
        | some d ↦
            let merged = combine_entry e (record n { entry = put_contents n.entry e d }) in
            (record (renumber_disk_addresses merged) { changed = true }, DeleteResult.deleted)
      ]

  -- `none` is the read behind the descriptor table.
  unfoldable pub delete_partition_from_map :
      ℕ → PartitionMapHeader → Option (PartitionMapHeader × DeleteResult)
  unfolding free_entry contains_driver
  delete_partition_from_map e m =
      if is_map (type_of m.entry e)
      then some (m, DeleteResult.is_the_map)
      else elim (contains_driver e m) [
        | none ↦ none
        | some true ↦ some (m, DeleteResult.has_driver)
        | some false ↦ some (free_entry e m)
      ]

-- The search for the map's own entry.
unfoldable pub find_map : (ℕ → PartitionMap) → List ℕ → Option ℕ
find_map f [] = none
find_map f (cur ∷ l) = if is_map (type_of f cur) then some cur else find_map f l

-- How `resize_map` ends: all but the last two print a message and change nothing. The code looks
-- at neither result of the two calls behind `resized_map`.
pub data ResizeResult : Type 0 where
  no_map_entry same_size too_small no_space not_contiguous not_enough resized_map : ResizeResult

-- `next` is a free entry.
unfoldable pub is_free_entry : Option ℕ → PartitionMapHeader → Bool
is_free_entry none m = false
is_free_entry (some p) m = is_free (type_of m.entry p)

-- `entry->data->dpme_type[0] = 0`
unfoldable pub clear_type : ℕ → PartitionMapHeader → PartitionMapHeader
clear_type e m = record m {
  entry =
      put_contents m.entry e
        (record (m.entry e).contents { type_name = set (type_of m.entry e) 0 0 });
}

-- The checks of `resize_map`, in their order. The size is compared with an entry's as an unsigned
-- number, and with the blocks of the map as a signed one.
unfoldable pub resize_check : ℕ → ℕ → Option ℕ → PartitionMapHeader → ResizeResult
unfolding is_free_entry signed_ltb add32
resize_check new_size e next m =
    if new_size == size_of m.entry e
    then ResizeResult.same_size
    else if ltb new_size (size_of m.entry e)
    then (if signed_ltb new_size (add32 m.blocks_in_map (if is_free_entry next m then 0 else 1))
        then ResizeResult.too_small
        else ResizeResult.resized_map)
    else elim next [
      | none ↦ ResizeResult.no_space
      | some p ↦
          if not (is_free (type_of m.entry p))
          then ResizeResult.no_space
          else if not (add32 (start_of m.entry e) (size_of m.entry e) == start_of m.entry p)
          then ResizeResult.not_contiguous
          else if ltb (add32 (size_of m.entry e) (size_of m.entry p)) new_size
          then ResizeResult.not_enough
          else ResizeResult.resized_map
    ]

module _ (malloc : ℕ → Bool) where
  -- The work: the old entry is given back, and a new one is asked for at block 1.
  unfoldable pub replace_map_entry : ℕ → ℕ → PartitionMapHeader → Option PartitionMapHeader
  unfolding clear_type delete_partition_from_map
  replace_map_entry new_size e m = elim (delete_partition_from_map malloc e (clear_type e m)) [
    | none ↦ none
    | some (n, _) ↦ some (add_partition_to_map malloc (codes "Apple") k_map_type 1 new_size n).0
  ]

  unfoldable pub resize_map : ℕ → PartitionMapHeader → Option (PartitionMapHeader × ResizeResult)
  unfolding find_map resize_check replace_map_entry
  resize_map new_size m = elim (find_map m.entry m.base_order) [
    | none ↦ some (m, ResizeResult.no_map_entry)
    | some e ↦ elim (resize_check new_size e (next_in e m.base_order) m) [
      | ResizeResult.resized_map ↦ elim (replace_map_entry new_size e m) [
        | none ↦ none
        | some n ↦ some (n, ResizeResult.resized_map)
      ]
      | refused ↦ some (m, refused)
    ]
  ]
