-- ===== src/Examples/Maps.antt =====
-- The operations on partition maps.
use mac_fdisk.Base.{
  ℕ, ◌/◌, ◌%◌, ltb, ◌⊎◌, ◌≡◌, refl, arith, true, false, Option, none, some, List, [], ◌∷◌, ◌==◌,
  if◌then◌else◌,
}
use mac_fdisk.Base.Strings.{strncpy}
use mac_fdisk.Dpme.{Dpme, Block0, dpistrlen}
use mac_fdisk.Convert.{ByteOrder}
use mac_fdisk.Disk.{Device}
use mac_fdisk.Io.{get_command, input, command_from}
use mac_fdisk.Editor.{Editor, round}
use mac_fdisk.Editor.Safety.{Consented, round-Consented}
use mac_fdisk.PartitionMap.State.{
  PartitionMap, PartitionMapHeader, put, zero_dpme, k_free_type, k_map_type,
}
use mac_fdisk.PartitionMap.Add.Refines.{IsTiledMap}
use mac_fdisk.Extents.{extents}

unfoldable pub entry_at : ℕ → ℕ → ℕ → List ℕ → PartitionMap
unfolding strncpy
entry_at index base length t = record {
  disk_address = index;
  contents = record zero_dpme {
    pblock_start = base;
    pblocks = length;
    lblocks = length;
    type_name = strncpy dpistrlen t;
  };
}

-- The map's own partition, and free space up to the end of a disk of 1000 blocks.
abbrev pub two_entries : PartitionMapHeader
two_entries = record {
  disk_order = 0 ∷ 1 ∷ [];
  base_order = 0 ∷ 1 ∷ [];
  entry = λ (i : ℕ). if i == 0 then entry_at 1 1 63 k_map_type else entry_at 2 64 936 k_free_type;
  misc = none;
  writeable = true;
  changed = false;
  regular_file = true;
  blocks_in_map = 2;
  maximum_in_map = some 63;
  media_size = 1000;
  allocs = 2;
}

pub two_entries_tiled : IsTiledMap two_entries 1 1000
unfolding extents entry_at
two_entries_tiled = record {
  tiled = (refl, omega arith, (refl, omega arith, refl));
  fits = omega arith;
  known = (omega arith, (omega arith, tt));
}

abbrev no_block0 : Block0
no_block0 = record {
  sb_sig = 0;
  sb_blk_size = 0;
  sb_blk_count = 0;
  sb_dev_type = 0;
  sb_dev_id = 0;
  sb_data = 0;
  sb_drvr_count = 0;
  sb_map = [];
  sb_tail = [];
}

-- A disk of 1000 blocks in which every block holds an entry.
abbrev Blocks : Type 0
Blocks = ℕ → Dpme

abbrev blocks : Device Blocks Dpme
blocks = record {
  read_at = λ (d : Blocks) (x : ℕ). if ltb x 512000 then some (d (x / 512)) else none;
  write_at = λ (d : Blocks) (x : ℕ) (b : Dpme) (i : ℕ). if i == x / 512 then b else d i;
  as_dpme = λ (b : Dpme). b;
  of_dpme = λ (b : Dpme). b;
  as_block0 = λ (b : Dpme). no_block0;
  of_block0 = λ (b : Block0). zero_dpme;
  zero_block = zero_dpme;
  clear_first = λ (b : Dpme). record b { signature = b.signature % 256 };
}

-- The map above after a change, and a user who types `w`, a newline and `y`.
abbrev asking : Editor Blocks
asking = record {
  session = record {
    map = some (record two_entries { changed = true });
    keys = input (some 119 ∷ some 10 ∷ some 121 ∷ some 10 ∷ []) 0;
  };
  device = λ (i : ℕ). zero_dpme;
  expert = false;
  finished = false;
}

abbrev or_else : Editor Blocks → Option (Editor Blocks) → Editor Blocks
or_else s none = s
or_else s (some t) = t

abbrev after : Editor Blocks
after =
    or_else asking
      (round blocks (λ n. true) (λ n. true) ByteOrder.big_endian false false true no_block0 asking)

goes_on :
    round blocks (λ n. true) (λ n. true) ByteOrder.big_endian false false true no_block0 asking
    ≡ some after
unfolding round command_from put entry_at
goes_on = refl

round-Consented_example :
    (after.device ≡ asking.device)
    ⊎ Consented blocks
        (λ n. true)
        ByteOrder.big_endian
        false
        asking.session.map
        (get_command asking.session.keys).0
        (get_command asking.session.keys).1
        asking.device
        after.device
round-Consented_example =
    round-Consented blocks (λ n. true) (λ n. true) ByteOrder.big_endian false false true no_block0
      asking after goes_on
