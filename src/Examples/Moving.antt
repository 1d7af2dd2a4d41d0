-- ===== src/Examples/Moving.antt =====
-- A partition whose data is made to begin later.
use mac_fdisk.Base.{ℕ, ◌≡◌, refl, true, false, none, some, [], ◌∷◌}
use mac_fdisk.Base.Word.{add32, sub32}
use mac_fdisk.Base.Strings.{codes}
use mac_fdisk.Fdisk.{warn_geometry, calculate, rounded, set_hsc}
use mac_fdisk.Fdisk.Entry.{Partition, clipped, filled, linux_native, last_sect}
use mac_fdisk.Fdisk.Input.{value_of, read_lines, read_int}
use mac_fdisk.Fdisk.Table.{Table, deref, store, mark, assign}
use mac_fdisk.Fdisk.Moving.{begun, begin_at, ask_begin, move_begin}
use mac_fdisk.Fdisk.Moving.Ends.{move_begin-last}
use mac_fdisk.Examples.Chains.{disk}

-- Sectors 2016 to 40319.
unfoldable pub linux_data : Partition
unfolding filled
linux_data = filled disk false 2016 40319 linux_native 0

abbrev pub before : Table
before = record {
  geometry = disk;
  dos_compatible = false;
  sector_offset = 1;
  entry = λ (p : ℕ). linux_data;
  freed = λ (b : ℕ). false;
  buffers = λ (i : ℕ). some 0;
  part_table = λ (i : ℕ). some i;
  ext_pointers = λ (i : ℕ). none;
  offsets = λ (i : ℕ). 0;
  changed = λ (i : ℕ). false;
  partitions = 4;
  ext_index = 0;
  extended_offset = 0;
}

abbrev after : Table
after = record before {
  entry = assign before.entry 1 (begun linux_data 3000);
  changed = assign before.changed 1 true;
}

begins_later : move_begin 1 before (codes "3000" ∷ []) ≡ some (after, [])
unfolding move_begin begin_at ask_begin begun deref store mark linux_data filled rounded calculate
    read_int read_lines value_of warn_geometry add32 sub32 set_hsc clipped
begins_later = refl

-- The size of the partition as the answer: nothing is moved.
ignores_size : move_begin 1 before (codes "38304" ∷ []) ≡ some (before, [])
unfolding move_begin begin_at ask_begin begun deref store mark linux_data filled rounded calculate
    read_int read_lines value_of warn_geometry add32 sub32 set_hsc clipped
ignores_size = refl

move_begin-last_example : last_sect (after.entry 1) ≡ last_sect (before.entry 1)
move_begin-last_example = move_begin-last 1 before after (codes "3000" ∷ []) [] 1 begins_later
