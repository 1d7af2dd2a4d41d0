-- ===== src/PartitionMap/Add.antt =====
-- `add_data_to_map` and `add_partition_to_map`.
pub mod Find
pub mod Link
pub mod View
pub mod Carves
pub mod Names
pub mod Refines
use mac_fdisk.Base.{
  ℕ, zero, suc, ◌+◌, ◌-◌, Bool, true, false, ◌&&◌, not, Option, none, some, List, [], ◌∷◌, ◌==◌,
  leb, ltb, if◌then◌else◌,
}
use mac_fdisk.Base.Word.{add32, sub32, to_int}
use mac_fdisk.Dpme.{Dpme}
use mac_fdisk.PartitionMap.State.{
  PartitionMap, PartitionMapHeader, start_of, size_of, type_of, address_of, is_free, is_map, put,
  put_contents, k_free_name, k_free_type, create_data,
}
use mac_fdisk.PartitionMap.Orders.{
  insert_in_disk_order, insert_in_base_order, renumber_disk_addresses,
}

-- The part of `add_data_to_map` behind the allocation of entry `e`.
unfoldable pub link_data : ℕ → Dpme → ℕ → PartitionMapHeader → PartitionMapHeader
link_data e d index m =
    let linked = insert_in_base_order e (
      insert_in_disk_order e
        (record m { entry = put m.entry e (record { disk_address = index; contents = d }) })) in
    let grown = record linked { blocks_in_map = linked.blocks_in_map + 1 } in
    elim grown.maximum_in_map [
      | none ↦
          if is_map d.type_name then record grown { maximum_in_map = to_int d.pblocks } else grown
      | some n ↦ grown
    ]

-- The loop that looks for the entry holding `base` and `length`.
unfoldable pub find_holding : (ℕ → PartitionMap) → ℕ → ℕ → List ℕ → Option ℕ
find_holding f base length [] = none
find_holding f base length (cur ∷ l) =
    if leb (start_of f cur) base && leb (add32 base length) (add32 (start_of f cur) (size_of f cur))
    then some cur
    else find_holding f base length l

-- `enum add_action`, with the sizes worked out for each action.
pub data AddAction : Type 0 where
  replace : AddAction
  add : (adjusted_base adjusted_length : ℕ) → AddAction
  split : (adjusted_base adjusted_length new_base new_length : ℕ) → AddAction

-- The number of entries that an action adds: its value in the `enum`.
unfoldable pub act_value : AddAction → ℕ
act_value AddAction.replace = 0
act_value (AddAction.add _ _) = 1
act_value (AddAction.split _ _ _ _) = 2

-- What to do with the free entry `d`, and the sizes.
unfoldable pub choose_action : Dpme → ℕ → ℕ → AddAction
choose_action d base length =
    if d.pblock_start == base
    then (if d.pblocks == length
        then AddAction.replace
        else AddAction.add (add32 base length) (sub32 d.pblocks length))
    else (if add32 d.pblock_start d.pblocks == add32 base length
        then AddAction.add d.pblock_start (sub32 base d.pblock_start)
        else let new_length = sub32 base d.pblock_start in
          AddAction.split (add32 base length) (sub32 d.pblocks (add32 length new_length))
            d.pblock_start new_length)

-- `limit`, an `int`.
unfoldable pub limit_of : PartitionMapHeader → Option ℕ
unfolding to_int
limit_of m = elim m.maximum_in_map [ none ↦ to_int m.media_size | some n ↦ some n ]

-- `map->blocks_in_map + act > limit`; a negative limit is always exceeded.
unfoldable pub overflows : PartitionMapHeader → AddAction → Bool
unfolding limit_of act_value
overflows m act = elim (limit_of m) [
  | none ↦ true
  | some n ↦ ltb n (m.blocks_in_map + act_value act)
]

-- The adjustment of the free block that loses some of its blocks.
abbrev pub resized : ℕ → ℕ → Dpme → Dpme
resized base length d = record d { pblock_start = base; pblocks = length; lblocks = length }

unfoldable pub adjust : ℕ → ℕ → ℕ → PartitionMapHeader → PartitionMapHeader
adjust cur base length m = record m {
  entry = put_contents m.entry cur (resized base length (m.entry cur).contents);
}

-- What `add_partition_to_map` reports: the first three print a message and return 0.
pub data AddResult : Type 0 where
  not_free map_full no_memory added : AddResult

module _ (malloc : ℕ → Bool) where
  unfoldable pub add_data_to_map : Dpme → ℕ → PartitionMapHeader → PartitionMapHeader × Bool
  add_data_to_map d index m =
      let e = m.allocs in
      let counted = record m { allocs = e + 1 } in
      if malloc e then (link_data e d index counted, true) else (counted, false)

  -- The low part of a split, behind the new entry's insertion.
  unfoldable pub add_low_part : ℕ → ℕ → ℕ → PartitionMapHeader → PartitionMapHeader
  add_low_part cur base length m =
      let (n, low) = create_data malloc k_free_name k_free_type base length m in
      elim low [ none ↦ n | some d ↦ (add_data_to_map d (address_of n.entry cur) n).0 ]

  -- The work on the map, once the new entry's data `d` is allocated.
  unfoldable pub carry_out : ℕ → Dpme → AddAction → PartitionMapHeader → PartitionMapHeader
  carry_out cur d AddAction.replace m = record m { entry = put_contents m.entry cur d }
  carry_out cur d (AddAction.add base length) m =
      (add_data_to_map d (address_of m.entry cur) (adjust cur base length m)).0
  carry_out cur d (AddAction.split base length new_base new_length) m =
      let (n, done) = add_data_to_map d (address_of m.entry cur) (adjust cur base length m) in
      if done then add_low_part cur new_base new_length n else n

  -- `add_partition_to_map`
  unfoldable pub add_partition_to_map :
      List ℕ → List ℕ → ℕ → ℕ → PartitionMapHeader → PartitionMapHeader × AddResult
  add_partition_to_map name dptype base length m =
      elim (find_holding m.entry base length m.base_order) [
        | none ↦ (m, AddResult.not_free)
        | some cur ↦
            if not (is_free (type_of m.entry cur))
            then (m, AddResult.not_free)
            else let act = choose_action (m.entry cur).contents base length in
              if overflows m act
              then (m, AddResult.map_full)
              else let (n, made) = create_data malloc name dptype base length m in
                elim made [
                  | none ↦ (n, AddResult.no_memory)
                  | some d ↦
                      let done = renumber_disk_addresses (carry_out cur d act n) in
                      (record done { changed = true }, AddResult.added)
                ]
      ]
