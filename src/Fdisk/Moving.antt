-- ===== src/Fdisk/Moving.antt =====
-- fdisk.c: `move_begin`, which moves the first sector of a partition's data.
pub mod Ends
use mac_fdisk.Base.{ℕ, ◌||◌, Option, none, some, ◌==◌, if◌then◌else◌}
use mac_fdisk.Base.Word.{add32, sub32}
use mac_fdisk.Fdisk.{warn_geometry, calculate, rounded}
use mac_fdisk.Fdisk.Entry.{Partition, extended}
use mac_fdisk.Fdisk.Input.{Lines, Offset, read_int}
use mac_fdisk.Fdisk.Table.{Table, deref, store, mark}

-- The entry with its new first sector; head, sector and cylinder stay.
unfoldable pub begun : Partition → ℕ → Partition
begun p new = record p { nr_sects = sub32 (add32 p.nr_sects p.start_sect) new; start_sect = new }

-- What follows the question, answered by `v`: the new first sector is compared with the size.
unfoldable pub begin_at : ℕ → Partition → ℕ → Table → Option Table
unfolding store mark begun
begin_at i p v t =
    let new = sub32 v (t.offsets i) in
    if new == p.nr_sects
    then some t
    else elim (store (t.part_table i) (begun p new) t) [ none ↦ none | some u ↦ some (mark i u) ]

-- The first sector that the user names.
unfoldable pub ask_begin : ℕ → Partition → Table → Lines → Option (ℕ × Lines)
unfolding rounded read_int
ask_begin i p t ls =
    let g = t.geometry in
    let from = add32 p.start_sect (t.offsets i) in
    let last = sub32 (add32 (add32 p.start_sect p.nr_sects) (t.offsets i)) 1 in
    elim (rounded g (calculate g p.start_hsc) from) [
      | none ↦ none
      | some first ↦ read_int g first first last Offset.lower ls
    ]

-- `move_begin`
unfoldable pub move_begin : ℕ → Table → Lines → Option (Table × Lines)
unfolding deref begin_at ask_begin
move_begin i t ls =
    if warn_geometry t.geometry then some (t, ls) else elim (deref t (t.part_table i)) [
      | none ↦ none
      | some p ↦
          if (p.sys_ind == 0) || ((p.nr_sects == 0) || (p.sys_ind == extended))
          then some (t, ls)
          else elim (ask_begin i p t ls) [
            | none ↦ none
            | some (v, rest) ↦ elim (begin_at i p v t) [ none ↦ none | some u ↦ some (u, rest) ]
          ]
    ]
