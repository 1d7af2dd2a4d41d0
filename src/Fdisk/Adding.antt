-- ===== src/Fdisk/Adding.antt =====
-- fdisk.c: `add_partition` and `add_logical` on the table. A call of `calloc` that fails ends the
-- program; `fresh` is the number of the buffer that it gives otherwise.
use mac_fdisk.Base.{
  ℕ, ◌+◌, ◌-◌, ◌*◌, ◌/◌, ◌^◌, ◌%◌, true, ◌&&◌, not, Option, none, some, List, ◌==◌, ltb,
  if◌then◌else◌,
}
use mac_fdisk.Base.Word.{add32, sub32}
use mac_fdisk.Fdisk.Entry.{extended, linux_native, cleared, last_sect}
use mac_fdisk.Fdisk.Input.{Lines}
use mac_fdisk.Fdisk.Table.{Table, assign, deref, set_partition, free_buffer}
use mac_fdisk.Fdisk.Placing.{
  Slot, Search, Choice, check_bounds, at_slot, each_slot, to_unit, choose_sectors,
}

-- Where the extended partition is: its entry, read through `part_table[ext_index]`.
unfoldable pub extended_last : Table → Option ℕ
extended_last t = elim (deref t (t.part_table t.ext_index)) [
  | none ↦ none
  | some q ↦ some (last_sect q)
]

unfoldable search_for : ℕ → Table → List Slot → ℕ → Search
unfolding each_slot
search_for n t l limit = record {
  geometry = t.geometry;
  sector_offset = t.sector_offset;
  number = n;
  slots = if t.geometry.unit_flag then each_slot (to_unit t.geometry) l else l;
  limit = limit;
}

-- The slot of the extended partition spans the logical ones.
unfoldable with_extended : Table → ℕ → List Slot → List Slot
unfolding at_slot
with_extended t e l =
    at_slot t.ext_index (λ (s : Slot). record s { first = t.extended_offset; last = e }) l

-- The bounds, the first sector to try and the limit, for entry `n`.
unfoldable pub prepare : ℕ → Table → Option (Search × ℕ)
unfolding check_bounds extended_last search_for with_extended
prepare n t =
    let whole = sub32 (t.geometry.heads * t.geometry.sectors * t.geometry.cylinders % 2 ^ 32) 1 in
    elim (check_bounds t 0 t.partitions) [
      | none ↦ none
      | some l ↦
          if ltb n 4 && t.extended_offset == 0
          then some (search_for n t l whole, t.sector_offset)
          else elim (extended_last t) [
            | none ↦ none
            | some e ↦
                if ltb n 4
                then some (search_for n t (with_extended t e l) whole, t.sector_offset)
                else some (search_for n t l e, add32 t.extended_offset t.sector_offset)
          ]
    ]

-- Behind the search: for a later logical partition, where its own sector goes.
unfoldable pub note_offset : ℕ → ℕ → Table → Table
note_offset n start t =
    if ltb 4 n then record t { offsets = assign t.offsets n (sub32 start t.sector_offset) } else t

-- An extended partition gets a sector for the first logical one.
unfoldable pub start_chain : ℕ → ℕ → ℕ → Table → Table
start_chain fresh n start t = record t {
  ext_index = n;
  extended_offset = start;
  offsets = assign t.offsets 4 start;
  ext_pointers = assign (assign t.ext_pointers n (t.part_table n)) 4 (some (4 * fresh + 1));
  part_table = assign t.part_table 4 (some (4 * fresh));
  buffers = assign t.buffers 4 (some fresh);
  changed = assign t.changed 4 true;
  partitions = 5;
  entry = λ (p : ℕ). if p / 4 == fresh then cleared else t.entry p;
}

-- A later logical partition is linked to from the one in front.
unfoldable pub link_logical : ℕ → ℕ → ℕ → Table → Option Table
unfolding set_partition
link_logical n start stop t =
    if ltb 4 n
    then set_partition (n - 1) (t.ext_pointers (n - 1)) (sub32 start t.sector_offset) stop extended
        t.extended_offset t
    else some t

-- The two sectors are found: the entry is filled in.
unfoldable pub store_sectors : ℕ → ℕ → ℕ → ℕ → ℕ → Table → Option Table
unfolding set_partition start_chain link_logical
store_sectors fresh n sys start stop t =
    elim (set_partition n (t.part_table n) start stop sys (t.offsets n) t) [
      | none ↦ none
      | some u ↦
          if sys == extended
          then some (start_chain fresh n start u)
          else link_logical n start stop u
    ]

unfoldable pub give_up : ℕ → Table → Table
unfolding free_buffer
give_up n t = if ltb 4 n then record (free_buffer n t) { partitions = t.partitions - 1 } else t

-- `add_partition`, with the fuel of its `do` loop.
unfoldable pub add_partition : ℕ → ℕ → ℕ → ℕ → Table → Lines → Option (Table × Lines)
unfolding deref prepare choose_sectors store_sectors give_up note_offset
add_partition fuel fresh n sys t ls = elim (deref t (t.part_table n)) [
  | none ↦ none
  | some p ↦ if not (p.sys_ind == 0) then some (t, ls) else elim (prepare n t) [
    | none ↦ none
    | some (q, from) ↦ elim (choose_sectors fuel q from ls) [
      | none ↦ none
      | some (Choice.no_room start, rest) ↦ some (give_up n (note_offset n start t), rest)
      | some (Choice.sectors start stop, rest) ↦
          elim (store_sectors fresh n sys start stop (note_offset n start t)) [
            | none ↦ none
            | some u ↦ some (u, rest)
          ]
    ]
  ]
]

-- The sector that `add_logical` takes for one more logical partition.
unfoldable pub one_more : ℕ → Table → Table
one_more fresh t = record t {
  buffers = assign t.buffers t.partitions (some fresh);
  part_table = assign t.part_table t.partitions (some (4 * fresh));
  ext_pointers = assign t.ext_pointers t.partitions (some (4 * fresh + 1));
  offsets = assign t.offsets t.partitions 0;
  partitions = t.partitions + 1;
  entry = λ (p : ℕ). if p / 4 == fresh then cleared else t.entry p;
}

-- `add_logical`
unfoldable pub add_logical : ℕ → ℕ → Table → Lines → Option (Table × Lines)
unfolding one_more add_partition
add_logical fuel fresh t ls =
    let add = λ (u : Table). add_partition fuel fresh (u.partitions - 1) linux_native u ls in
    if ltb 5 t.partitions then add (one_more fresh t) else elim (deref t (t.part_table 4)) [
      | none ↦ none
      | some p ↦ if not (p.sys_ind == 0) then add (one_more fresh t) else add t
    ]
