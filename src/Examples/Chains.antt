-- ===== src/Examples/Chains.antt =====
-- A table with a chain of three logical partitions, and the entries that are stored in it.
use mac_fdisk.Base.{
  ℕ, ◌+◌, ◌-◌, ◌*◌, ◌/◌, ◌%◌, ◌≡◌, inr, refl, arith, true, false, some, [], ◌==◌, not,
  if◌then◌else◌,
}
use mac_fdisk.Base.Word.{add32}
use mac_fdisk.Fdisk.{Geometry, warn_geometry, set_hsc}
use mac_fdisk.Fdisk.Entry.{
  Partition, Remark, remark, extended, cleared, filled, bounds_of, check_consistency, per_cylinder,
  linux_native,
}
use mac_fdisk.Fdisk.Entry.Packed.{IsDescribed}
use mac_fdisk.Fdisk.Entry.Bounds.{bounds_of-filled}
use mac_fdisk.Fdisk.Entry.Consistent.{check_consistency-filled}
use mac_fdisk.Fdisk.Verify.{check}
use mac_fdisk.Fdisk.Verify.Silent.{check-set_hsc}
use mac_fdisk.Fdisk.Table.{Table, assign, delete_partition}
use mac_fdisk.Fdisk.Table.Chain.{Place, IsStored, IsLinked}
use mac_fdisk.Fdisk.Table.Delete.{Deletes, delete_partition-Without}

-- 16 heads, 63 sectors and 800 cylinders.
abbrev pub disk : Geometry
disk = record {
  heads = 16;
  sectors = 63;
  cylinders = 800;
  full_bits = 1032192;
  unit_flag = false;
  display_factor = 1;
}

disk-IsDescribed : IsDescribed disk
disk-IsDescribed = record {
  some_heads = omega arith;
  heads_fit = omega arith;
  some_sectors = omega arith;
  sectors_fit = omega arith;
}

bounds_of-filled_example :
    bounds_of disk 1000 (filled disk true 2016 40319 linux_native 1000) ≡ some (2016, 40319)
bounds_of-filled_example =
    bounds_of-filled disk disk-IsDescribed refl true 2016 40319 linux_native 1000
      (inr (omega arith)) (omega arith) (omega arith) (omega arith) (omega arith) (λ e. omega arith)
      (λ e. omega arith)

check_consistency-filled_example :
    check_consistency disk (filled disk true 2016 40319 linux_native 0) 2
    ≡ remark (not ((40319 + 1) % per_cylinder disk == 0)) Remark.off_boundary
check_consistency-filled_example =
    check_consistency-filled disk disk-IsDescribed true 2016 40319 linux_native 2 (omega arith)
      (omega arith) (omega arith) (omega arith)

check-set_hsc_example : check disk (set_hsc disk 40319) 40319 ≡ some []
check-set_hsc_example =
    check-set_hsc disk disk-IsDescribed refl 40319 (omega arith) (omega arith) refl (omega arith)
      (omega arith)

-- Logical partition `j` has buffer `j` - 3, with its entry first and its link second.
abbrev place : ℕ → Place
place j = record { buffer = j - 3; data_slot = 0; link_slot = 1 }

unfoldable entry_of : ℕ → Partition
unfolding cleared
entry_of p = record cleared {
  sys_ind = if p % 4 == 0 then linux_native else if p / 4 == 3 then 0 else extended;
  start_sect = if p % 4 == 0 then 63 else 100 * (p / 4);
  nr_sects = 37;
}

abbrev three : Table
three = record {
  geometry = disk;
  dos_compatible = true;
  sector_offset = 63;
  entry = entry_of;
  freed = λ (b : ℕ). false;
  buffers = λ (j : ℕ). some (j - 3);
  part_table = λ (j : ℕ). some (4 * (j - 3) + 0);
  ext_pointers = λ (j : ℕ). some (4 * (j - 3) + 1);
  offsets = λ (j : ℕ). 1000 + 100 * (j - 4);
  changed = λ (j : ℕ). false;
  partitions = 7;
  ext_index = 1;
  extended_offset = 1000;
}

three-IsStored : IsStored three place
three-IsStored = record {
  buffer = λ j h k. refl;
  data_at = λ j h k. refl;
  link_at = λ j h k. refl;
  slots = λ j h k. (omega arith, omega arith, λ e. omega arith);
  distinct = λ j k h p q r e. omega arith;
  live = λ j h k. refl;
}

three-IsLinked : IsLinked three place
unfolding entry_of add32
three-IsLinked = record {
  first = refl;
  next = λ j h k. (ground arith, ground arith);
  ends = λ j h k. ground arith;
}

delete_partition-Without_example : Deletes three 5 (delete_partition 5 three)
unfolding warn_geometry
delete_partition-Without_example =
    delete_partition-Without three place three-IsStored three-IsLinked (omega arith) (omega arith)
      refl 5 (omega arith) (omega arith)

-- The first two of them, with a link that ends the chain.
abbrev two : Table
two = record three { partitions = 6; entry = assign entry_of 9 cleared }
