-- ===== src/Fdisk/Table.antt =====
-- fdisk.c: the partition table in memory, with the entries of all sectors read, and the operations
-- on it that ask nothing. A pointer to an entry is its number: entry `k` of buffer `b` has the number
-- 4 * b + k. Buffer 0 is the disk's first sector; a buffer that was freed is not read any more.
pub mod Chain
pub mod Gap
pub mod Inner
pub mod First
pub mod Last
pub mod Delete
pub mod Dangling
use mac_fdisk.Base.{
  ℕ, zero, suc, ◌+◌, ◌-◌, ◌*◌, ◌/◌, ◌%◌, ◌^◌, Bool, true, false, ◌&&◌, ◌||◌, not, Option, none,
  some, ◌==◌, leb, ltb, if◌then◌else◌,
}
use mac_fdisk.Base.Word.{add32, sub32}
use mac_fdisk.Fdisk.{Geometry, update_units, warn_geometry}
use mac_fdisk.Fdisk.Entry.{Partition, extended, cleared, filled}

-- The globals. The arrays are functions; `partitions` is the number of entries in use.
pub record Table : Type 0 where
  pub geometry : Geometry
  pub dos_compatible : Bool
  pub sector_offset : ℕ
  pub entry : ℕ → Partition
  pub freed : ℕ → Bool
  pub buffers : ℕ → Option ℕ
  pub part_table : ℕ → Option ℕ
  pub ext_pointers : ℕ → Option ℕ
  pub offsets : ℕ → ℕ
  pub changed : ℕ → Bool
  pub partitions : ℕ
  pub ext_index : ℕ
  pub extended_offset : ℕ

abbrev pub assign : {A : Type 0} → (ℕ → A) → ℕ → A → ℕ → A
assign f i x j = if j == i then x else f j

-- The entry behind a pointer. `none` is an access through NULL or into a buffer that was freed.
unfoldable pub deref : Table → Option ℕ → Option Partition
deref t none = none
deref t (some p) = if t.freed (p / 4) then none else some (t.entry p)

-- `free(buffers[i])`; NULL is let be.
unfoldable pub free_buffer : ℕ → Table → Table
free_buffer i t = elim (t.buffers i) [
  | none ↦ t
  | some b ↦ record t { freed = assign t.freed b true }
]

-- The store of an entry through a pointer.
unfoldable pub store : Option ℕ → Partition → Table → Option Table
store none x t = none
store (some p) x t =
    if t.freed (p / 4) then none else some (record t { entry = assign t.entry p x })

unfoldable pub clear_partition : Option ℕ → Table → Option Table
clear_partition p t = store p cleared t

unfoldable pub mark : ℕ → Table → Table
mark i t = record t { changed = assign t.changed i true }

unfoldable pub set_partition : ℕ → Option ℕ → ℕ → ℕ → ℕ → ℕ → Table → Option Table
unfolding store mark filled
set_partition i p start stop sys offset t =
    elim (store p (filled t.geometry t.dos_compatible start stop sys offset) t) [
      | none ↦ none
      | some u ↦ some (mark i u)
    ]

unfoldable pub change_units : Table → Table
unfolding update_units
change_units t = record t {
  geometry = update_units (record t.geometry {
    unit_flag = not t.geometry.unit_flag;
    display_factor =
        if not t.geometry.unit_flag then 1 else t.geometry.heads * t.geometry.sectors % 2 ^ 32;
  });
}

abbrev pub active_flag : ℕ
active_flag = 0x80

unfoldable pub toggle_active : ℕ → Table → Option Table
unfolding deref store mark
toggle_active i t = elim (deref t (t.part_table i)) [
  | none ↦ none
  | some p ↦
      elim (store (t.part_table i)
        (record p { boot_ind = if p.boot_ind == 0 then active_flag else 0 }) t) [
          | none ↦ none
          | some u ↦ some (mark i u)
        ]
]

unfoldable pub toggle_dos : Table → Table
toggle_dos t = record t {
  dos_compatible = not t.dos_compatible;
  sector_offset = if t.dos_compatible then 1 else t.geometry.sectors;
}

-- `while (partitions > 4) free(buffers[--partitions])`, for `n` partitions more than 4.
unfoldable pub free_logicals : ℕ → Table → Table
unfolding free_buffer
free_logicals zero t = record t { partitions = 4 }
free_logicals (suc n) t = free_logicals n (free_buffer (4 + n) t)

-- The arrays from `i` on are moved down by one, up to the new number of partitions.
abbrev pub moved_down : {A : Type 0} → ℕ → ℕ → (ℕ → A) → ℕ → A
moved_down i n f j = if leb i j && ltb j n then f (suc j) else f j

unfoldable pub close_gap : ℕ → Table → Table
unfolding free_buffer
close_gap i t =
    let n = t.partitions - 1 in
    let u = free_buffer i t in
    record u {
      partitions = n;
      changed = moved_down i n u.changed;
      buffers = moved_down i n u.buffers;
      offsets = moved_down i n u.offsets;
      part_table = moved_down i n u.part_table;
      ext_pointers = moved_down i n u.ext_pointers;
    }

-- The link to the deleted partition takes over its own link `q`.
unfoldable pub take_over_link : ℕ → Partition → Table → Option Table
unfolding store mark
take_over_link i q t =
    elim (store (t.ext_pointers (i - 1)) (record q { boot_ind = 0; sys_ind = extended }) t) [
      | none ↦ none
      | some u ↦ some (mark (i - 1) u)
    ]

-- Where the first logical partition is deleted, the second one is counted from the start of the
-- extended partition.
unfoldable pub rebase : Table → Option Table
unfolding deref store mark
rebase t =
    let done =
      λ (u : Table). mark 5 (record u { offsets = assign u.offsets 5 u.extended_offset }) in
    elim (t.part_table 5) [
      | none ↦ some (done t)
      | some p ↦ elim (deref t (some p)) [
        | none ↦ none
        | some x ↦
            elim (store (some p)
              (record x { start_sect = sub32 (add32 x.start_sect (t.offsets 5)) t.extended_offset })
              t) [ none ↦ none | some u ↦ some (done u) ]
      ]
    ]

-- The end of `delete_partition` for a logical partition.
unfoldable pub drop_entry : ℕ → Table → Option Table
unfolding close_gap clear_partition
drop_entry i t =
    if ltb 5 t.partitions then some (close_gap i t) else clear_partition (t.part_table i) t

unfoldable pub delete_logical : ℕ → Partition → Table → Option Table
unfolding free_buffer clear_partition take_over_link rebase drop_entry
delete_logical i q t =
    if (q.sys_ind == 0) && ltb 4 i
    then clear_partition (t.ext_pointers (i - 1))
        (record (free_buffer (t.partitions - 1) t) { partitions = t.partitions - 1 })
    else elim (if ltb 4 i then take_over_link i q t else rebase t) [
      | none ↦ none
      | some u ↦ drop_entry i u
    ]

unfoldable pub delete_primary : ℕ → Partition → Table → Option Table
unfolding free_logicals clear_partition
delete_primary i p t =
    if (p.sys_ind == extended) && (i == t.ext_index)
    then (let u = free_logicals (t.partitions - 4) t in
        clear_partition (t.part_table i)
          (record u { ext_pointers = assign u.ext_pointers u.ext_index none; extended_offset = 0 }))
    else clear_partition (t.part_table i) t

unfoldable pub delete_partition : ℕ → Table → Option Table
unfolding mark deref delete_primary delete_logical
delete_partition i t =
    if warn_geometry t.geometry
    then some t
    else (let u = mark i t in
        if ltb i 4
        then elim (deref u (u.part_table i)) [ none ↦ none | some p ↦ delete_primary i p u ]
        else elim (deref u (u.ext_pointers i)) [ none ↦ none | some q ↦ delete_logical i q u ])
