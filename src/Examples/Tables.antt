-- ===== src/Examples/Tables.antt =====
-- Intel partition tables.
use mac_fdisk.Base.{◌≡◌, ◌<◌, ◌⊎◌, ◌↔◌, arith, true, false, some}
use mac_fdisk.Fdisk.{Geometry, calculate, set_hsc, rounded, overlaps}
use mac_fdisk.Fdisk.Sectors.{calculate-set_hsc}
use mac_fdisk.Fdisk.Rounding.{Rounded, rounded-Rounded}
use mac_fdisk.Fdisk.Overlap.{overlaps_iff}
use mac_fdisk.Fdisk.Types.{
  partition_type, sys_types, first_slot, name_at, partition_type-first_slot,
}

abbrev geometry : Geometry
geometry = record {
  heads = 16;
  sectors = 63;
  cylinders = 4000;
  full_bits = 1032192;
  unit_flag = true;
  display_factor = 1008;
}

calculate-set_hsc_example : calculate geometry (set_hsc geometry 1000000) ≡ 1000000
calculate-set_hsc_example =
    calculate-set_hsc geometry 1000000 (omega arith) (omega arith) (omega arith) (omega arith)
      (omega arith) (omega arith)

rounded-Rounded_example : Rounded 1032192 63 3000000 (rounded geometry 63 3000000)
rounded-Rounded_example =
    rounded-Rounded geometry 63 3000000 (omega arith) (omega arith) (omega arith)

overlaps_iff_example :
    (overlaps 100 900 200 300 ≡ false) ↔ (((900 < 200) ⊎ (300 < 100)) ⊎ ((100 < 200) × (300 < 900)))
overlaps_iff_example = overlaps_iff 100 900 200 300 (omega arith) (omega arith)

partition_type-first_slot_example :
    partition_type 0x83 ≡ some (name_at (first_slot sys_types 0 0x83))
partition_type-first_slot_example = partition_type-first_slot 0x83 (omega arith)
