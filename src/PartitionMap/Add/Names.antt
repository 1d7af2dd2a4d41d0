-- ===== src/PartitionMap/Add/Names.antt =====
-- The names of the entries linked into a map stay below the number of allocations.
use mac_fdisk.Base.{
  ℕ, ◌+◌, ◌≡◌, ◌<◌, arith, Bool, true, false, some, List, [], ◌∷◌, All, All-mono, Bool-cases,
  Option-cases, inl, inr,
}
use mac_fdisk.Dpme.{Dpme}
use mac_fdisk.PartitionMap.State.{
  PartitionMapHeader, put, type_of, is_free, create_data, start_of, address_of,
}
use mac_fdisk.PartitionMap.Orders.{insert_behind, insert_by, renumber_disk_addresses}
use mac_fdisk.PartitionMap.Add.Link.{entry_for, link_data-insert, link_data-allocs}
use mac_fdisk.PartitionMap.Add.{
  AddAction, link_data, add_data_to_map, adjust, add_low_part, carry_out, choose_action, overflows,
  find_holding, add_partition_to_map,
}

abbrev pub Named : PartitionMapHeader → Type 0
Named m = All (λ j. j < m.allocs) m.base_order

module _ (limit : ℕ) (key : ℕ → ℕ) (e : ℕ) (below : e < limit) where
  insert_behind-All :
      (l : List ℕ) → All (λ j. j < limit) l → All (λ j. j < limit) (insert_behind key e l)
  unfolding insert_behind
  insert_behind-All [] h = tt
  insert_behind-All (x ∷ []) h = ground arith
  insert_behind-All (x ∷ y ∷ l) h = ground (arith, insert_behind-All (y ∷ l) h.1)

  insert_by-All : (l : List ℕ) → All (λ j. j < limit) l → All (λ j. j < limit) (insert_by key e l)
  unfolding insert_by
  insert_by-All [] h = (below, tt)
  insert_by-All (x ∷ l) h = ground (arith, insert_behind-All (x ∷ l) h)

link_data-Named :
    (e : ℕ) (d : Dpme) (index : ℕ) (m : PartitionMapHeader)
    → e < m.allocs
    → Named m
    → Named (link_data e d index m)
link_data-Named e d index m below h =
    rw (link_data-allocs e d index m, link_data-insert e d index m)
      (insert_by-All m.allocs (start_of (put m.entry e (entry_for d index))) e below m.base_order h)

Named-alloc : (m : PartitionMapHeader) → Named m → Named (record m { allocs = m.allocs + 1 })
Named-alloc m h = All-mono _ _ m.base_order (λ j k. omega arith) h

module _ (malloc : ℕ → Bool) where
  add_data_to_map-Named :
      (d : Dpme) (index : ℕ) (m : PartitionMapHeader)
      → Named m
      → Named (add_data_to_map malloc d index m).0
  unfolding add_data_to_map
  add_data_to_map-Named d index m h = elim (Bool-cases (malloc m.allocs)) [
    | inl granted ↦ rw granted (
        link_data-Named m.allocs d index (record m { allocs = m.allocs + 1 }) (omega arith)
          (Named-alloc m h))
    | inr refused ↦ rw refused (Named-alloc m h)
  ]

  add_low_part-Named :
      (cur base length : ℕ) (m : PartitionMapHeader)
      → Named m
      → Named (add_low_part malloc cur base length m)
  unfolding add_low_part create_data
  add_low_part-Named cur base length m h = elim (Bool-cases (malloc m.allocs)) [
    | inl granted ↦
        rw (add_low_part, granted)
          (add_data_to_map-Named _ (address_of m.entry cur) (record m { allocs = m.allocs + 1 })
            (Named-alloc m h))
    | inr refused ↦ rw (add_low_part, refused) (Named-alloc m h)
  ]

  carry_out-Named :
      (cur : ℕ) (d : Dpme) (act : AddAction) (m : PartitionMapHeader)
      → Named m
      → Named (carry_out malloc cur d act m)
  unfolding carry_out adjust
  carry_out-Named cur d AddAction.replace m h = h
  carry_out-Named cur d (AddAction.add base length) m h =
      add_data_to_map-Named d (address_of m.entry cur) (adjust cur base length m) h
  carry_out-Named cur d (AddAction.split base length new_base new_length) m h =
      let r = add_data_to_map malloc d (address_of m.entry cur) (adjust cur base length m) in
      let k : Named r.0 =
        add_data_to_map-Named d (address_of m.entry cur) (adjust cur base length m) h in
      elim (Bool-cases r.1) [
        | inl done ↦ rw done (add_low_part-Named cur new_base new_length r.0 k)
        | inr undone ↦ rw undone k
      ]

  module _ (name dptype : List ℕ) (base length : ℕ) (m : PartitionMapHeader) (h : Named m) where
    abbrev Ends : Type 0
    Ends = Named (add_partition_to_map malloc name dptype base length m).0

    works :
        (cur : ℕ)
        → find_holding m.entry base length m.base_order ≡ some cur
        → is_free (type_of m.entry cur) ≡ true
        → overflows m (choose_action (m.entry cur).contents base length) ≡ false
        → malloc m.allocs ≡ true
        → Ends
    unfolding create_data renumber_disk_addresses add_partition_to_map
    works cur found free room granted =
        rw (add_partition_to_map, found, free, room, create_data, granted)
          (carry_out-Named cur _ (choose_action (m.entry cur).contents base length)
            (record m { allocs = m.allocs + 1 }) (Named-alloc m h))

    fails :
        (cur : ℕ)
        → find_holding m.entry base length m.base_order ≡ some cur
        → is_free (type_of m.entry cur) ≡ true
        → overflows m (choose_action (m.entry cur).contents base length) ≡ false
        → malloc m.allocs ≡ false
        → Ends
    unfolding create_data add_partition_to_map
    fails cur found free room refused =
        rw (add_partition_to_map, found, free, room, create_data, refused) (Named-alloc m h)

    pub add_partition_to_map-Named : Named (add_partition_to_map malloc name dptype base length m).0
    unfolding add_partition_to_map
    add_partition_to_map-Named =
        elim (Option-cases (find_holding m.entry base length m.base_order)) [
          | inl missing ↦ rw (add_partition_to_map, missing) h
          | inr (cur, found) ↦ elim (Bool-cases (is_free (type_of m.entry cur))) [
            | inr used ↦ rw (add_partition_to_map, found, used) h
            | inl free ↦
                elim (Bool-cases (overflows m (choose_action (m.entry cur).contents base length))) [
                  | inl full ↦ rw (add_partition_to_map, found, free, full) h
                  | inr room ↦ elim (Bool-cases (malloc m.allocs)) [
                    | inl granted ↦ works cur found free room granted
                    | inr refused ↦ fails cur found free room refused
                  ]
                ]
          ]
        ]
