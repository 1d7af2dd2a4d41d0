-- ===== src/PartitionMap/Session.antt =====
-- What the editor does to a map between reading and writing it: additions, deletions, moves and
-- changes of the size of the map's own entry, in any order (pdisk.c calls them one after the other from
-- its loops of commands).
pub mod Calls
pub mod Invariant
pub mod Cleared
pub mod Resize
pub mod Refused
use mac_fdisk.Base.{ℕ, ◌+◌, ◌^◌, ◌≡◌, ◌<◌, Bool, false, some, List, ◌∷◌, ◌++◌}
use mac_fdisk.Base.Strings.{strncpy}
use mac_fdisk.Dpme.{dpistrlen}
use mac_fdisk.PartitionMap.State.{PartitionMapHeader, is_free}
use mac_fdisk.PartitionMap.Add.{add_partition_to_map}
use mac_fdisk.PartitionMap.Delete.{
  DeleteResult, ResizeResult, delete_partition_from_map, resize_map,
}
use mac_fdisk.PartitionMap.Move.{move_entry_in_map}

-- One call. The entry that is deleted is one of the map's.
pub data Edit (malloc : ℕ → Bool) : PartitionMapHeader → PartitionMapHeader → Type 0 where
  adds :
      (m : PartitionMapHeader) (name dptype : List ℕ) (base length : ℕ)
      → 0 < length
      → base + length < 2 ^ 32
      → Edit malloc m (add_partition_to_map malloc name dptype base length m).0
  deletes :
      (m n : PartitionMapHeader) (r : DeleteResult) (e : ℕ) (pre post : List ℕ)
      → m.base_order ≡ pre ++ e ∷ post
      → delete_partition_from_map malloc e m ≡ some (n, r)
      → Edit malloc m n
  moves :
      (m : PartitionMapHeader) (old_index index : ℕ)
      → Edit malloc m (move_entry_in_map old_index index m).0
  resizes :
      (m n : PartitionMapHeader) (r : ResizeResult) (new_size : ℕ)
      → 0 < new_size
      → 1 + new_size < 2 ^ 32
      → resize_map malloc new_size m ≡ some (n, r)
      → Edit malloc m n

-- Any number of calls.
pub data Edits (malloc : ℕ → Bool) : PartitionMapHeader → PartitionMapHeader → Type 0 where
  begins : (m : PartitionMapHeader) → Edits malloc m m
  goes_on : (l m n : PartitionMapHeader) → Edits malloc l m → Edit malloc m n → Edits malloc l n

-- No partition is added under the type of free space.
abbrev pub Uses : {malloc : ℕ → Bool} → {m n : PartitionMapHeader} → Edit malloc m n → Type 0
Uses (adds m name dptype base length pos exact) = is_free (strncpy dpistrlen dptype) ≡ false
Uses (deletes m n r e pre post splits ends) = Unit {0}
Uses (moves m old_index index) = Unit {0}
Uses (resizes m n r new_size pos exact ends) = Unit {0}

abbrev pub AllUse : {malloc : ℕ → Bool} → {m n : PartitionMapHeader} → Edits malloc m n → Type 0
AllUse (begins m) = Unit {0}
AllUse (goes_on l m n es e) = AllUse es × Uses e
