-- ===== src/Fdisk/Reading.antt =====
-- fdisk.c: the reading of the tables and their writing. `none` is a call of `fatal` for a sector that
-- cannot be sought, read or written, and an access through NULL; `malloc` is taken to succeed, with the
-- buffer of number `i` - 3 for partition `i`.
pub mod Slots
pub mod Step
pub mod Chained
pub mod Frame
pub mod Written
pub mod Kept
pub mod Flags
pub mod Boot
use mac_fdisk.Base.{
  ℕ, zero, suc, ◌+◌, ◌-◌, ◌*◌, ◌/◌, ◌%◌, ◌^◌, Bool, true, false, ◌&&◌, ◌||◌, not, Option, none,
  some, List, [], ◌∷◌, ◌==◌, leb, ltb, if◌then◌else◌,
}
use mac_fdisk.Base.Word.{add32, sub32}
use mac_fdisk.Fdisk.{Geometry, update_units}
use mac_fdisk.Fdisk.Entry.{Partition, extended, cleared}
use mac_fdisk.Fdisk.Table.{Table, assign, deref, store, clear_partition, mark}

-- The 512 bytes of a table's sector: the code in front, four entries and the flag at the end. How they
-- lie in the bytes is left to `Sectors`.
pub record Sector : Type 0 where
  pub code : List ℕ
  pub slot : ℕ → Partition
  pub flag : ℕ

-- An open disk: a sector is sought and read or written as a whole, and `HDIO_GETGEO` tells heads, sectors
-- and cylinders.
pub record Sectors (D : Type 0) : Type 0 where
  pub read_sector : D → ℕ → Option Sector
  pub write_sector : D → ℕ → Sector → Option D
  pub get_geo : D → Option (ℕ × ℕ × ℕ)

-- The globals with the disk, and what a buffer has beside its entries.
pub record Loaded (D : Type 0) : Type 0 where
  pub disk : D
  pub table : Table
  pub code : ℕ → List ℕ
  pub flag : ℕ → ℕ

abbrev pub maximum_parts : ℕ
maximum_parts = 60

abbrev pub part_table_flag : ℕ
part_table_flag = 0xaa55

abbrev pub or_first : Option ℕ → ℕ → Option ℕ
or_first none i = some i
or_first (some j) i = some j

-- The loop of `read_extended` over the `n` entries of a sector from `i` on: the first link and the first
-- entry with data. The others are ignored.
unfoldable pub scan_slots : (ℕ → Partition) → ℕ → ℕ → Option ℕ → Option ℕ → Option ℕ × Option ℕ
scan_slots e i zero link kept = (link, kept)
scan_slots e i (suc n) link kept =
    let is_link = (e i).sys_ind == extended in
    let is_data = not is_link && not ((e i).sys_ind == 0) in
    scan_slots e (suc i) n (if is_link then or_first link i else link)
      (if is_data then or_first kept i else kept)

-- The slots of data and link, each slot 0 or 1 where there is none.
unfoldable pub data_slot : Option ℕ → Option ℕ → ℕ
data_slot link (some j) = j
data_slot none none = 0
data_slot (some l) none = if l == 0 then 1 else 0

unfoldable pub link_slot : Option ℕ → ℕ → ℕ
link_slot (some l) kept = l
link_slot none kept = if kept == 0 then 1 else 0

-- The entries of buffer `b` are set.
abbrev pub loaded_entries : ℕ → (ℕ → Partition) → (ℕ → Partition) → ℕ → Partition
loaded_entries b e old k = if k / 4 == b then e (k % 4) else old k

module _ {D : Type 0} (v : Sectors D) where
  -- The table with partition `partitions` read from the sector `x` behind a link to `start`, at
  -- the sector `offset`.
  unfoldable pub appended : Sector → ℕ → ℕ → Loaded D → Loaded D × ℕ
  appended x start offset u =
      let t = u.table in
      let n = t.partitions in
      let b = n - 3 in
      let (link, kept) = scan_slots x.slot 0 4 none none in
      let d = data_slot link kept in
      let l = link_slot link d in
      (
        record u {
          table = record t {
            offsets = assign t.offsets n offset;
            extended_offset = if t.extended_offset == 0 then start else t.extended_offset;
            buffers = assign t.buffers n (some b);
            entry = loaded_entries b x.slot t.entry;
            part_table = assign t.part_table n (some (4 * b + d));
            ext_pointers = assign t.ext_pointers n (some (4 * b + l));
            partitions = n + 1;
          };
          code = assign u.code b x.code;
          flag = assign u.flag b x.flag;
        },
        4 * b + l,
      )

  -- The loop of `read_extended` at the link `p`, with room for `left` more partitions.
  unfoldable pub follow_links : ℕ → ℕ → Loaded D → Option (Loaded D)
  follow_links zero p u =
      if not ((u.table.entry p).sys_ind == extended)
      then some u
      else elim (clear_partition (u.table.ext_pointers (u.table.partitions - 1)) u.table) [
        | none ↦ none
        | some t ↦ some (record u { table = mark (t.partitions - 1) t })
      ]
  follow_links (suc left) p u =
      let q = u.table.entry p in
      let offset = add32 u.table.extended_offset q.start_sect in
      if not (q.sys_ind == extended) then some u else elim (v.read_sector u.disk offset) [
        | none ↦ none
        | some x ↦
            follow_links left (appended x q.start_sect offset u).1
              (appended x q.start_sect offset u).0
      ]

  abbrev pub extended_at : ℕ → ℕ → Loaded D → Loaded D
  extended_at i p u = record u {
    table = record u.table { ext_index = i; ext_pointers = assign u.table.ext_pointers i (some p) };
  }

  -- `read_extended(part_table[ext_index = i])` for the primary entry `i`, and the same for its pointer.
  unfoldable pub read_from : ℕ → ℕ → Loaded D → Option (Loaded D)
  read_from i p u =
      if (u.table.entry p).start_sect == 0
      then some (extended_at i p u)
      else follow_links (maximum_parts - u.table.partitions) p (extended_at i p u)

  unfoldable pub read_extended : ℕ → Loaded D → Option (Loaded D)
  read_extended i u = elim (u.table.part_table i) [ none ↦ none | some p ↦ read_from i p u ]

  -- The loop of `get_boot` over `k` primary partitions from `i` on.
  unfoldable pub find_extended : ℕ → ℕ → Loaded D → Option (Loaded D)
  unfolding deref
  find_extended i zero u = some u
  find_extended i (suc k) u =
      let next = find_extended (suc i) k u in
      elim (deref u.table (u.table.part_table i)) [
        | none ↦ none
        | some p ↦
            if p.sys_ind == extended && u.table.partitions == 4
            then elim (read_extended i u) [ none ↦ none | some w ↦ find_extended (suc i) k w ]
            else next
      ]

  -- The flags that are to be corrected, from partition `i` on.
  unfoldable pub check_flags : ℕ → ℕ → Loaded D → Option (Loaded D)
  unfolding mark
  check_flags i zero u = some u
  check_flags i (suc n) u = elim (u.table.buffers i) [
    | none ↦ none
    | some b ↦
        check_flags (suc i) n
          (if u.flag b == part_table_flag then u else record u { table = mark i u.table })
  ]

  -- What `get_boot` sets from the disk's geometry.
  unfoldable pub with_geometry : D → Table → Table
  unfolding update_units
  with_geometry d t = elim (v.get_geo d) [
    | none ↦ record t { geometry = update_units t.geometry }
    | some (heads, sectors, cylinders) ↦ record t {
      geometry =
          update_units
            (record t.geometry { heads = heads; sectors = sectors; cylinders = cylinders });
      sector_offset = if t.dos_compatible then sectors else t.sector_offset;
    }
  ]

  -- The globals once `get_boot` has read the first sector `x` and asked for the geometry.
  abbrev pub loaded : Sector → Loaded D → Loaded D
  unfolding with_geometry
  loaded x u =
      let t = record u.table { partitions = 4; entry = loaded_entries 0 x.slot u.table.entry } in
      record u {
        table = with_geometry u.disk t;
        code = assign u.code 0 x.code;
        flag = assign u.flag 0 x.flag;
      }

  -- `get_boot()` behind the opening of the disk.
  unfoldable pub get_boot : Loaded D → Option (Loaded D)
  get_boot u = elim (v.read_sector u.disk 0) [
    | none ↦ none
    | some x ↦ elim (find_extended 0 4 (loaded x u)) [
      | none ↦ none
      | some w ↦ check_flags 3 (w.table.partitions - 3) w
    ]
  ]

  -- A buffer as it is written, with the flag set.
  abbrev pub as_written : Loaded D → ℕ → Sector
  as_written u b = record {
    code = u.code b;
    slot = λ k. u.table.entry (4 * b + k);
    flag = part_table_flag;
  }

  -- The loop of `write_table` for `n` partitions from `i` on.
  unfoldable pub write_changed : ℕ → ℕ → Loaded D → Option (Loaded D)
  write_changed i zero u = some u
  write_changed i (suc n) u =
      let next = write_changed (suc i) n u in
      if not (u.table.changed i) then next else elim (u.table.buffers i) [
        | none ↦ none
        | some b ↦ elim (v.write_sector u.disk (u.table.offsets i) (as_written u b)) [
          | none ↦ none
          | some d ↦
              write_changed (suc i) n
                (record u { disk = d; flag = assign u.flag b part_table_flag })
        ]
      ]

  -- `write_table()` up to the calls that tell the system of the new table.
  unfoldable pub write_table : Loaded D → Option (Loaded D)
  write_table u =
      let c = u.table.changed in
      let any = c 0 || (c 1 || (c 2 || c 3)) in
      let t = record u.table { changed = assign c 3 any } in
      write_changed 3 (t.partitions - 3) (record u { table = t })
