-- ===== src/Examples/Fields.antt =====
-- The accessors of bit fields, the byte order of the structures, and the size of a device.
use mac_fdisk.Base.{
  ℕ, zero, suc, ◌+◌, ◌*◌, ◌^◌, ◌%◌, ◌-◌, ◌≡◌, ◌≤◌, ◌<◌, ◌⊎◌, inr, refl, arith, true, false, none,
  some, List, [], ◌∷◌, ltb, leb, ◌&&◌, if◌then◌else◌, All, min,
}
use mac_fdisk.Bitfield.{bitfield_set, bitfield_get}
use mac_fdisk.Bitfield.Bits.{bit}
use mac_fdisk.Bitfield.Laws.{bitfield_get-set, bitfield_get-set_ne, bit-bitfield_set}
use mac_fdisk.Dpme.{
  Dpme, Block0, DdMap, IsDpme, IsDdMap, IsBlock0, bzb_magic_number, block0_signature,
}
use mac_fdisk.Convert.{ByteOrder, convert_dpme, convert_block0, reverse_fields, reverse2, reverse4}
use mac_fdisk.Convert.Laws.{
  convert_dpme_restores, convert_dpme_settled, convert_block0_restores, convert_block0_overruns,
}
use mac_fdisk.Io.Digits.{number_of_digits, number_of_digits-bounds}
use mac_fdisk.PartitionMap.State.{zero_dpme, zero_bzb}
use mac_fdisk.PartitionMap.Size.{compute_device_size}
use mac_fdisk.PartitionMap.Size.Search.{compute_device_size-min}

bitfield_get-set_example : bitfield_get (bitfield_set 0xF0F0 9 4 0x35) 9 4 ≡ 0x35 % 2 ^ 4
bitfield_get-set_example =
    bitfield_get-set 0xF0F0 9 4 0x35 (omega arith) (omega arith) (omega arith) (omega arith)

bitfield_get-set_ne_example :
    bitfield_get (bitfield_set 0xF0F0 9 4 0x35) 5 2 ≡ bitfield_get 0xF0F0 5 2
bitfield_get-set_ne_example =
    bitfield_get-set_ne 0xF0F0 9 4 0x35 5 2 (omega arith) (omega arith) (omega arith) (omega arith)
      (omega arith) (inr (omega arith))

bit-bitfield_set_example :
    bit 7 (bitfield_set 0xF0F0 9 4 0x35)
    ≡ (if leb (9 + 1 - 4) 7 && leb 7 9 then bit (7 - (9 + 1 - 4)) 0x35 else bit 7 0xF0F0)
bit-bitfield_set_example =
    bit-bitfield_set 0xF0F0 9 4 (omega arith) (omega arith) (omega arith) 0x35 7 (omega arith)

-- An entry as a little-endian CPU reads it, with an A/UX block.
abbrev sample : Dpme
sample = record zero_dpme {
  signature = 0x4D50;
  map_entries = 0x02000000;
  pblock_start = 0x01000000;
  pblocks = 0x3F000000;
  flags = 0x33000000;
  bzb = record zero_bzb { bzb_magic = 0xBEBAADAB; bzb_inode = 0x0100; bzb_flags = 0x000000C0 };
}

sample_is : IsDpme sample
unfolding zero_dpme zero_bzb
sample_is = record {
  signature = omega arith;
  reserved_1 = omega arith;
  map_entries = omega arith;
  pblock_start = omega arith;
  pblocks = omega arith;
  lblock_start = omega arith;
  lblocks = omega arith;
  flags = omega arith;
  boot_block = omega arith;
  boot_bytes = omega arith;
  load_addr = omega arith;
  load_addr_2 = omega arith;
  goto_addr = omega arith;
  goto_addr_2 = omega arith;
  checksum = omega arith;
  bzb = record {
    magic = omega arith;
    inode = omega arith;
    flags = omega arith;
    tmade = omega arith;
    tmount = omega arith;
    tumount = omega arith;
  };
}

sample_start : (convert_dpme ByteOrder.little_endian true sample).pblock_start ≡ 1
unfolding convert_dpme reverse_fields reverse4
sample_start = refl

convert_dpme_restores_example :
    convert_dpme ByteOrder.little_endian false (convert_dpme ByteOrder.little_endian true sample)
    ≡ sample
convert_dpme_restores_example =
    convert_dpme_restores ByteOrder.little_endian sample sample_is
      (λ (e : 0xBEBAADAB ≡ bzb_magic_number). absurd (omega (arith, e)))

convert_dpme_settled_example :
    convert_dpme ByteOrder.little_endian true (
      convert_dpme ByteOrder.little_endian false (convert_dpme ByteOrder.little_endian true sample))
    ≡ convert_dpme ByteOrder.little_endian true sample
convert_dpme_settled_example = convert_dpme_settled ByteOrder.little_endian sample sample_is

compute_device_size-min_example :
    compute_device_size (λ (i : ℕ). ltb i 5000) true ≡ some (min 5000 (1024 * 1024 * 1024 + 1))
compute_device_size-min_example = compute_device_size-min (λ (i : ℕ). ltb i 5000) 5000 (λ i. refl)

abbrev driver : DdMap
driver = record { dd_block = 0x40000000; dd_size = 0x0900; dd_type = 0x0100 }

abbrev no_driver : DdMap
no_driver = record { dd_block = 0; dd_size = 0; dd_type = 0 }

abbrev slots : ℕ → List DdMap
slots zero = []
slots (suc n) = no_driver ∷ slots n

-- Block zero with one driver, as a little-endian CPU reads it.
abbrev block_zero : Block0
block_zero = record {
  sb_sig = 0x5245;
  sb_blk_size = 2;
  sb_blk_count = 0xE8030000;
  sb_dev_type = 0x0100;
  sb_dev_id = 0x0100;
  sb_data = 0;
  sb_drvr_count = 0x0100;
  sb_map = driver ∷ slots 60;
  sb_tail = 0 ∷ 0 ∷ 0 ∷ 0 ∷ 0 ∷ 0 ∷ [];
}

slots-IsDdMap : (n : ℕ) → All IsDdMap (slots n)
slots-IsDdMap zero = tt
slots-IsDdMap (suc n) = ((omega arith, omega arith, omega arith), slots-IsDdMap n)

block_zero_is : IsBlock0 block_zero
block_zero_is = record {
  sig = omega arith;
  blk_size = omega arith;
  blk_count = omega arith;
  dev_type = omega arith;
  dev_id = omega arith;
  misc_data = omega arith;
  drvr_count = omega arith;
  slots = refl;
  drivers = ((omega arith, omega arith, omega arith), slots-IsDdMap 60);
}

signed : reverse2 block_zero.sb_sig ≡ block0_signature
unfolding reverse2
signed = refl

few_drivers : reverse2 block_zero.sb_drvr_count ≤ 61
unfolding reverse2
few_drivers = omega arith

convert_block0_restores_example :
    (c : Block0) × (convert_block0 ByteOrder.little_endian true block_zero ≡ some c)
    × (convert_block0 ByteOrder.little_endian false c ≡ some block_zero)
convert_block0_restores_example =
    convert_block0_restores block_zero block_zero_is signed few_drivers

-- The same block with a count of 256 drivers.
abbrev crowded : Block0
crowded = record block_zero { sb_drvr_count = 1 }

crowded_is : IsBlock0 crowded
crowded_is = record {
  sig = omega arith;
  blk_size = omega arith;
  blk_count = omega arith;
  dev_type = omega arith;
  dev_id = omega arith;
  misc_data = omega arith;
  drvr_count = omega arith;
  slots = refl;
  drivers = block_zero_is.drivers;
}

crowded_signed : reverse2 crowded.sb_sig ≡ block0_signature
unfolding reverse2
crowded_signed = refl

many_drivers : 61 < reverse2 crowded.sb_drvr_count
unfolding reverse2
many_drivers = omega arith

convert_block0_overruns_example : convert_block0 ByteOrder.little_endian true crowded ≡ none
convert_block0_overruns_example =
    convert_block0_overruns crowded crowded_is crowded_signed many_drivers

number_of_digits-bounds_example :
    (j : ℕ) × (number_of_digits 1600 ≡ some j)
    × (0 < j)
    × (1600 < 10 ^ j)
    × ((j ≡ 1) ⊎ (10 ^ (j - 1) ≤ 1600))
number_of_digits-bounds_example = number_of_digits-bounds 1600 (omega arith)
