-- ===== src/PartitionMap/Move.antt =====
-- `move_entry_in_map`
use mac_fdisk.Base.{ℕ, Bool, true, false, none, some, if◌then◌else◌}
use mac_fdisk.Base.Word.{add32, signed_ltb}
use mac_fdisk.PartitionMap.State.{PartitionMapHeader, put}
use mac_fdisk.PartitionMap.Orders.{
  find_entry_by_disk_address, remove_from_disk_order, insert_in_disk_order, renumber_disk_addresses,
}

-- The address under which the entry is linked in again, until all are renumbered. Both are signed
-- numbers, given as their 32 bits.
unfoldable pub moved_address : ℕ → ℕ → ℕ
unfolding signed_ltb add32
moved_address old_index index = if signed_ltb old_index index then add32 index 1 else index

unfoldable pub relink : ℕ → ℕ → PartitionMapHeader → PartitionMapHeader
unfolding insert_in_disk_order remove_from_disk_order put
relink cur address m =
    let n = remove_from_disk_order cur m in
    insert_in_disk_order cur
      (record n { entry = put n.entry cur (record (n.entry cur) { disk_address = address }) })

-- The result says whether there was such an entry.
unfoldable pub move_entry_in_map : ℕ → ℕ → PartitionMapHeader → PartitionMapHeader × Bool
unfolding find_entry_by_disk_address relink moved_address renumber_disk_addresses
move_entry_in_map old_index index m = elim (find_entry_by_disk_address old_index m) [
  | none ↦ (m, false)
  | some cur ↦ (
    record (renumber_disk_addresses (relink cur (moved_address old_index index) m)) {
      changed = true;
    },
    true,
  )
]
