-- ===== src/Examples/Menus.antt =====
-- Commands of fdisk.c at concrete inputs.
use mac_fdisk.Base.{
  ℕ, ◌≡◌, arith, refl, true, false, Option, none, some, [], ◌∷◌, ◌==◌, if◌then◌else◌,
}
use mac_fdisk.Base.Word.{add32, sub32}
use mac_fdisk.Base.Strings.{codes}
use mac_fdisk.Fdisk.{warn_geometry, overlaps, set_hsc, rounded, calculate, long2chs}
use mac_fdisk.Fdisk.Entry.{
  Partition, cleared, filled, linux_native, bounds_of, check_consistency, clipped, physical,
}
use mac_fdisk.Fdisk.Input.{Lines, read_char}
use mac_fdisk.Fdisk.Table.{Table, deref}
use mac_fdisk.Fdisk.Placing.{check_bounds}
use mac_fdisk.Fdisk.Verify.{check, complaints, round_total}
use mac_fdisk.Fdisk.Summing.{Notice, balance, compare_earlier, verify_entry, verify_entries, verify}
use mac_fdisk.Fdisk.Menu.{change_sysid}
use mac_fdisk.Fdisk.Reading.{Loaded}
use mac_fdisk.Fdisk.Menu.{Following, menu_round, main_command}
use mac_fdisk.Fdisk.Menu.Safety.{menu_round-disk}
use mac_fdisk.Examples.Links.{Drive, drive}
use mac_fdisk.Examples.Chains.{disk}

-- Two partitions that share the cylinders 40 to 79.
unfoldable two : ℕ → Partition
unfolding cleared filled
two k =
    if k == 0
    then filled disk true 63 80639 linux_native 0
    else if k == 1
    then filled disk true 40320 806399 linux_native 0
    else cleared

abbrev shared : Table
shared = record {
  geometry = disk;
  dos_compatible = true;
  sector_offset = 63;
  entry = two;
  freed = λ b. false;
  buffers = λ i. some 0;
  part_table = λ i. some i;
  ext_pointers = λ i. none;
  offsets = λ i. 0;
  changed = λ i. false;
  partitions = 4;
  ext_index = 0;
  extended_offset = 0;
}

-- Sectors 1 to 62 belong to none, and 61 are found.
verify-shared :
    verify shared
    ≡ some (
        Notice.remarks 0 []
        ∷ Notice.complaints 0 []
        ∷ Notice.remarks 1 []
        ∷ Notice.complaints 1 []
        ∷ Notice.overlap 0 1
        ∷ Notice.unallocated 61
        ∷ [])
unfolding verify verify_entries verify_entry compare_earlier balance two check_bounds bounds_of
    deref check check_consistency filled set_hsc warn_geometry overlaps cleared add32 sub32 rounded
    calculate clipped round_total physical complaints long2chs
verify-shared = refl

-- The type of entry `k` behind `change_sysid`.
abbrev typed_type : ℕ → Lines → Option ℕ
unfolding change_sysid
typed_type k ls = elim (change_sysid shared ls) [
  | none ↦ none
  | some (t, rest) ↦ some (t.entry k).sys_ind
]

retype_swap : typed_type 0 (codes "1" ∷ codes "82" ∷ []) ≡ some 130
unfolding change_sysid two sub32
retype_swap = refl

-- An answer that is negative as an `int` makes the partition extended; 100 and 5 do not.
retype_negative : typed_type 1 (codes "2" ∷ codes "100" ∷ codes "80000005" ∷ []) ≡ some 5
unfolding change_sysid two sub32
retype_negative = refl

retype_extended : typed_type 1 (codes "2" ∷ codes "5" ∷ []) ≡ some 131
unfolding change_sysid two sub32
retype_extended = refl

-- The type of the first partition is changed by the command `t`.
abbrev shared_disk : Loaded Drive
shared_disk = record {
  disk = λ s. record { code = []; slot = two; flag = 0xaa55 };
  table = shared;
  code = λ b. [];
  flag = λ b. 0xaa55;
}

abbrev command_lines : Lines
command_lines = codes "t" ∷ codes "1" ∷ codes "82" ∷ []

loaded_or : Option (Loaded Drive × Following × Lines) → Loaded Drive
loaded_or none = shared_disk
loaded_or (some (w, next, ls)) = w

retyped_disk : Loaded Drive
unfolding loaded_or menu_round main_command change_sysid
retyped_disk = loaded_or (menu_round drive 9 4 false shared_disk command_lines)

retyped_disk-round :
    menu_round drive 9 4 false shared_disk command_lines
    ≡ some (retyped_disk, Following.same_menu, [])
unfolding retyped_disk loaded_or menu_round main_command change_sysid two sub32 read_char
retyped_disk-round = refl

menu_round-disk_example : retyped_disk.disk ≡ shared_disk.disk
unfolding read_char
menu_round-disk_example =
    menu_round-disk drive 9 4 false shared_disk retyped_disk Following.same_menu command_lines
      (codes "1" ∷ codes "82" ∷ []) [] (codes "t") refl (omega arith) retyped_disk-round
