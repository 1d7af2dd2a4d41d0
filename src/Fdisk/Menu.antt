-- ===== src/Fdisk/Menu.antt =====
-- fdisk.c: the commands of its two loops. `fresh` is the buffer that an allocation in the command gives,
-- and `fuel` is for the search of `add_partition`. `none` is the end of the program by an error, or a
-- wait for a line behind the last one.
pub mod Safety
use mac_fdisk.Base.{
  ℕ, zero, suc, ◌%◌, ◌^◌, Bool, true, false, ◌&&◌, ◌||◌, not, Option, none, some, [], ◌∷◌, ◌==◌,
  leb, ltb, if◌then◌else◌,
}
use mac_fdisk.Fdisk.{warn_geometry, update_units}
use mac_fdisk.Fdisk.Entry.{Partition, extended, linux_native}
use mac_fdisk.Fdisk.Input.{Lines, Offset, first_char, skip_blanks, read_char, read_int}
use mac_fdisk.Fdisk.Table.{
  Table, deref, store, mark, change_units, toggle_active, toggle_dos, delete_partition,
}
use mac_fdisk.Fdisk.Adding.{add_partition, add_logical}
use mac_fdisk.Fdisk.Moving.{move_begin}
use mac_fdisk.Fdisk.Summing.{verify}
use mac_fdisk.Fdisk.Asking.{tolower, read_hex, get_partition}
use mac_fdisk.Fdisk.Reading.{Sectors, Loaded, maximum_parts, write_table}

-- The answer is stored, or ends the loop of `change_sysid`; an `int` of 2^31 or more is negative.
abbrev pub is_type : ℕ → Bool
is_type hex = ltb hex 256 || leb (2 ^ 31) hex

-- The loop of `change_sysid`, up to an answer that ends it.
unfoldable pub ask_type : Lines → Option (ℕ × Lines)
unfolding read_hex
ask_type [] = none
ask_type (l ∷ ls) =
    let again = ask_type ls in
    elim (read_hex (l ∷ [])) [
      | none ↦ again
      | some (hex, rest) ↦ if is_type hex then some (hex, ls) else again
    ]

-- What `change_sysid` does with an answer for entry `i`, which is `p`.
unfoldable pub retyped : ℕ → Partition → ℕ → Table → Option Table
unfolding store mark delete_partition
retyped i p hex t =
    if hex == 0
    then delete_partition i t
    else if (hex == extended) || (hex == p.sys_ind)
    then some t
    else elim (store (t.part_table i) (record p { sys_ind = hex % 256 }) t) [
      | none ↦ none
      | some u ↦ some (mark i u)
    ]

-- `change_sysid()`
unfoldable pub change_sysid : Table → Lines → Option (Table × Lines)
unfolding get_partition deref ask_type retyped
change_sysid t ls = elim (get_partition false t.partitions t ls) [
  | none ↦ none
  | some (i, rest) ↦ elim (deref t (t.part_table i)) [
    | none ↦ none
    | some p ↦
        if (p.sys_ind == extended) || (p.sys_ind == 0)
        then some (t, rest)
        else elim (ask_type rest) [
          | none ↦ none
          | some (hex, more) ↦ elim (retyped i p hex t) [ none ↦ none | some u ↦ some (u, more) ]
        ]
  ]
]

-- A primary or extended partition, whose number is asked for.
unfoldable pub add_primary : ℕ → ℕ → ℕ → Table → Lines → Option (Table × Lines)
unfolding get_partition add_partition
add_primary fuel fresh sys t ls = elim (get_partition false 4 t ls) [
  | none ↦ none
  | some (n, rest) ↦ add_partition fuel fresh n sys t rest
]

-- The loop of `new_partition` for the kind of partition.
unfoldable pub ask_kind : ℕ → ℕ → Table → Lines → Option (Table × Lines)
unfolding skip_blanks add_primary add_logical
ask_kind fuel fresh t [] = none
ask_kind fuel fresh t (l ∷ ls) =
    let again = ask_kind fuel fresh t ls in
    let c = tolower (first_char (skip_blanks l)) in
    let outside = t.extended_offset == 0 in
    if c == 112
    then add_primary fuel fresh linux_native t ls
    else if c == 108 && not outside
    then add_logical fuel fresh t ls
    else if c == 101 && outside
    then add_primary fuel fresh extended t ls
    else again

-- An unused entry among the first four.
unfoldable pub free_primary : Table → ℕ → ℕ → Option Bool
unfolding deref
free_primary t i zero = some false
free_primary t i (suc n) =
    let rest = free_primary t (suc i) n in
    elim (deref t (t.part_table i)) [
      | none ↦ none
      | some p ↦ elim rest [ none ↦ none | some b ↦ some ((p.sys_ind == 0) || b) ]
    ]

-- `new_partition()`
unfoldable pub new_partition : ℕ → ℕ → Table → Lines → Option (Table × Lines)
unfolding free_primary add_logical ask_kind
new_partition fuel fresh t ls =
    if warn_geometry t.geometry || leb maximum_parts t.partitions
    then some (t, ls)
    else elim (free_primary t 0 4) [
      | none ↦ none
      | some true ↦ ask_kind fuel fresh t ls
      | some false ↦ if t.extended_offset == 0 then some (t, ls) else add_logical fuel fresh t ls
    ]

-- What follows a command.
pub data Following : Type 0 where
  same_menu bsd_menu expert_menu main_menu quit : Following

-- The three changes of the geometry.
unfoldable pub set_cylinders : ℕ → Table → Table
unfolding update_units
set_cylinders x t = record t { geometry = update_units (record t.geometry { cylinders = x }) }

unfoldable pub set_heads : ℕ → Table → Table
unfolding update_units
set_heads x t = record t { geometry = update_units (record t.geometry { heads = x }) }

unfoldable pub set_sectors : ℕ → Table → Table
unfolding update_units
set_sectors x t = record t {
  geometry = update_units (record t.geometry { sectors = x });
  sector_offset = if t.dos_compatible then x else t.sector_offset;
}

module _ {D : Type 0} (v : Sectors D) (fuel fresh : ℕ) where
  abbrev pub Result : Type 0
  Result = Option (Loaded D × Following × Lines)

  abbrev pub on_table : Loaded D → Option (Table × Lines) → Result
  on_table u none = none
  on_table u (some (t, ls)) = some (record u { table = t }, Following.same_menu, ls)

  -- A command on a partition that is asked for.
  abbrev pub on_partition :
      Bool → (ℕ → Table → Lines → Option (Table × Lines)) → Loaded D → Lines → Result
  on_partition warn act u ls = elim (get_partition warn u.table.partitions u.table ls) [
    | none ↦ none
    | some (i, rest) ↦ on_table u (act i u.table rest)
  ]

  abbrev pub quietly : (ℕ → Table → Option Table) → ℕ → Table → Lines → Option (Table × Lines)
  quietly act i t ls = elim (act i t) [ none ↦ none | some w ↦ some (w, ls) ]

  -- `write_table` ends the program.
  abbrev pub written : Loaded D → Lines → Result
  written u ls = elim (write_table v u) [ none ↦ none | some w ↦ some (w, Following.quit, ls) ]

  -- A check that only prints.
  abbrev pub checked : Loaded D → Lines → Result
  checked u ls = elim (verify u.table) [
    | none ↦ none
    | some notices ↦ some (u, Following.same_menu, ls)
  ]

  -- The `switch` of `main` for the command `c`; `l`, `p` and the menu print only.
  unfoldable pub main_command : ℕ → Loaded D → Lines → Result
  main_command c u ls =
      let changed = λ (t : Table). on_table u (some (t, ls)) in
      if c == 97
      then on_partition true (quietly toggle_active) u ls
      else if c == 98
      then some (u, Following.bsd_menu, ls)
      else if c == 99
      then changed (toggle_dos u.table)
      else if c == 100
      then on_partition true (quietly delete_partition) u ls
      else if c == 110
      then on_table u (new_partition fuel fresh u.table ls)
      else if c == 113
      then some (u, Following.quit, ls)
      else if c == 116
      then on_table u (change_sysid u.table ls)
      else if c == 117
      then changed (change_units u.table)
      else if c == 118
      then checked u ls
      else if c == 119
      then written u ls
      else if c == 120
      then some (u, Following.expert_menu, ls)
      else some (u, Following.same_menu, ls)

  -- A number of the geometry is asked for.
  abbrev pub on_number : ℕ → ℕ → (ℕ → Table → Table) → Loaded D → Lines → Result
  on_number default high act u ls =
      elim (read_int u.table.geometry 1 default high Offset.deflt ls) [
        | none ↦ none
        | some (x, rest) ↦ on_table u (some (act x u.table, rest))
      ]

  -- The `switch` of `xselect`; `d`, `e`, `p` and the menu print only.
  unfoldable pub xselect_command : ℕ → Loaded D → Lines → Result
  xselect_command c u ls =
      let g = u.table.geometry in
      if c == 98
      then on_partition false move_begin u ls
      else if c == 99
      then on_number g.cylinders 65535 set_cylinders u ls
      else if c == 104
      then on_number g.heads 256 set_heads u ls
      else if c == 113
      then some (u, Following.quit, ls)
      else if c == 114
      then some (u, Following.main_menu, ls)
      else if c == 115
      then on_number g.sectors 63 set_sectors u ls
      else if c == 118
      then checked u ls
      else if c == 119
      then written u ls
      else some (u, Following.same_menu, ls)

  -- One round of a loop: its command is read and carried out.
  unfoldable pub menu_round : Bool → Loaded D → Lines → Result
  menu_round expert u ls = elim (read_char ls) [
    | none ↦ none
    | some (text, rest) ↦
        let c = tolower (first_char text) in
        if expert then xselect_command c u rest else main_command c u rest
  ]
