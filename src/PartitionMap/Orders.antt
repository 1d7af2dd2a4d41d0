-- ===== src/PartitionMap/Orders.antt =====
-- The two lists: insertion by disk address and by first block, removal, lookup and renumbering.
pub mod Insert
pub mod Frame
pub mod Renumber
pub mod Neighbours
use mac_fdisk.Base.{
  ℕ, suc, ◌+◌, ◌-◌, Bool, true, false, ◌&&◌, Option, none, some, List, [], ◌∷◌, ◌==◌, leb,
  if◌then◌else◌,
}
use mac_fdisk.Base.Word.{biased}
use mac_fdisk.PartitionMap.State.{PartitionMap, PartitionMapHeader, start_of, address_of, put}

-- The `for` loop that looks for the place behind some entry. An entry for which there is no such
-- place is not linked in.
unfoldable pub insert_behind : (ℕ → ℕ) → ℕ → List ℕ → List ℕ
insert_behind key e [] = []
insert_behind key e (cur ∷ []) = if leb (key cur) (key e) then cur ∷ e ∷ [] else cur ∷ []
insert_behind key e (cur ∷ next ∷ l) =
    let rest = insert_behind key e (next ∷ l) in
    if leb (key cur) (key e) && leb (key e) (key next) then cur ∷ e ∷ next ∷ l else cur ∷ rest

unfoldable pub insert_by : (ℕ → ℕ) → ℕ → List ℕ → List ℕ
unfolding insert_behind
insert_by key e [] = e ∷ []
insert_by key e (cur ∷ l) =
    if leb (key e) (key cur) then e ∷ cur ∷ l else insert_behind key e (cur ∷ l)

-- The addresses are compared as signed numbers.
unfoldable pub insert_in_disk_order : ℕ → PartitionMapHeader → PartitionMapHeader
unfolding insert_by biased
insert_in_disk_order e m = record m {
  disk_order = insert_by (λ (j : ℕ). biased (address_of m.entry j)) e m.disk_order;
}

unfoldable pub insert_in_base_order : ℕ → PartitionMapHeader → PartitionMapHeader
unfolding insert_by
insert_in_base_order e m = record m { base_order = insert_by (start_of m.entry) e m.base_order }

-- Unlinking an entry from a list.
unfoldable pub unlink : ℕ → List ℕ → List ℕ
unlink e [] = []
unlink e (cur ∷ l) = if cur == e then l else cur ∷ unlink e l

unfoldable pub remove_from_disk_order : ℕ → PartitionMapHeader → PartitionMapHeader
unfolding unlink
remove_from_disk_order e m = record m { disk_order = unlink e m.disk_order }

-- `delete_entry`
unfoldable pub delete_entry : ℕ → PartitionMapHeader → PartitionMapHeader
unfolding remove_from_disk_order unlink
delete_entry e m =
    let n = remove_from_disk_order e (record m { blocks_in_map = m.blocks_in_map - 1 }) in
    record n { base_order = unlink e n.base_order }

-- `e->next_by_base` and `e->prev_by_base`
unfoldable pub next_in : ℕ → List ℕ → Option ℕ
next_in e [] = none
next_in e (cur ∷ []) = none
next_in e (cur ∷ next ∷ l) = if cur == e then some next else next_in e (next ∷ l)

unfoldable pub prev_in : ℕ → List ℕ → Option ℕ
prev_in e [] = none
prev_in e (cur ∷ []) = none
prev_in e (cur ∷ next ∷ l) = if next == e then some cur else prev_in e (next ∷ l)

unfoldable pub find_address : (ℕ → PartitionMap) → ℕ → List ℕ → Option ℕ
find_address f index [] = none
find_address f index (cur ∷ l) =
    if address_of f cur == index then some cur else find_address f index l

unfoldable pub find_entry_by_disk_address : ℕ → PartitionMapHeader → Option ℕ
unfolding find_address
find_entry_by_disk_address index m = find_address m.entry index m.disk_order

-- One round of the renumbering.
abbrev pub renumbered : ℕ → ℕ → PartitionMap → PartitionMap
renumbered n index e = record {
  disk_address = index;
  contents = record e.contents { map_entries = n };
}

-- The loop of `renumber_disk_addresses` from `index`, with `n` blocks in the map.
unfoldable pub renumber : ℕ → ℕ → List ℕ → (ℕ → PartitionMap) → ℕ → PartitionMap
unfolding put
renumber n index [] f = f
renumber n index (cur ∷ l) f = renumber n (index + 1) l (put f cur (renumbered n index (f cur)))

unfoldable pub renumber_disk_addresses : PartitionMapHeader → PartitionMapHeader
unfolding renumber
renumber_disk_addresses m = record m { entry = renumber m.blocks_in_map 1 m.disk_order m.entry }
