-- ===== src/Disk/Create.antt =====
-- partition_map.c: opening the map of a device, and making a new one.
use mac_fdisk.Base.{
  ℕ, Bool, true, false, ◌&&◌, not, Option, none, some, [], ◌==◌, ltb, leb, if◌then◌else◌,
}
use mac_fdisk.Base.Strings.{codes, strncpy}
use mac_fdisk.Base.Word.{sub32}
use mac_fdisk.Dpme.{Dpme, Block0, dpme_signature, block0_signature, dpistrlen}
use mac_fdisk.Convert.{ByteOrder, convert_block0}
use mac_fdisk.PartitionMap.State.{
  PartitionMapHeader, zero_dpme, set_flags, k_free_name, k_free_type, k_map_type,
}
use mac_fdisk.PartitionMap.Add.{add_data_to_map, add_partition_to_map}
use mac_fdisk.PartitionMap.Size.{compute_device_size}
use mac_fdisk.Io.{Input, flush_to_newline, get_okay, Answer}
use mac_fdisk.Io.Arguments.{get_number_argument}
use mac_fdisk.Disk.{Device, read_block, read_partition_map}

-- `coerce_block0(map)`
unfoldable pub coerce_block0 : PartitionMapHeader → PartitionMapHeader
coerce_block0 m = elim m.misc [
  | none ↦ m
  | some p ↦ if p.sb_sig == block0_signature then m else record m {
    misc = some (record p {
      sb_sig = block0_signature;
      sb_blk_size = 512;
      sb_blk_count = m.media_size;
      sb_dev_type = 0;
      sb_dev_id = 0;
      sb_data = 0;
      sb_drvr_count = 0;
    });
  }
]

-- A header as both `open_partition_map` and `create_partition_map` fill it in, before which three
-- allocations were made.
unfoldable pub empty_header : Bool → Bool → ℕ → PartitionMapHeader
empty_header writeable regular_file media_size = record {
  disk_order = [];
  base_order = [];
  entry = λ (i : ℕ). record { disk_address = 0; contents = zero_dpme };
  misc = none;
  writeable = writeable;
  changed = false;
  regular_file = regular_file;
  blocks_in_map = 0;
  maximum_in_map = none;
  media_size = media_size;
  allocs = 3;
}

-- The first entry of a new map: all blocks but block 0 are free.
unfoldable pub free_disk : ℕ → Dpme
unfolding strncpy set_flags
free_disk media_size = set_flags 0 (record zero_dpme {
  signature = dpme_signature;
  map_entries = 1;
  pblock_start = 1;
  pblocks = sub32 media_size 1;
  name = strncpy dpistrlen k_free_name;
  type_name = strncpy dpistrlen k_free_type;
  lblock_start = 0;
  lblocks = sub32 media_size 1;
})

-- How the two end: with a map, without one, or with an access out of a buffer (or, in the model
-- only, a search for the device's size that runs out of fuel).
pub data Opened : Type 0 where
  opened : PartitionMapHeader → Opened
  refused stuck : Opened

module _ {D B : Type 0} (dev : Device D B) (malloc : ℕ → Bool) (order : ByteOrder) (d : D)
    (rflag regular_file : Bool) where
  abbrev is_readable : ℕ → Bool
  is_readable i = elim (read_block dev d i) [ none ↦ false | some b ↦ true ]

  -- `open_partition_map(name, valid_file)`, on a file `d` that was opened: for writing, where
  -- `writeable` holds. The first three allocations are the header, the buffer that the size is
  -- found with, and block 0.
  unfoldable pub open_partition_map : Bool → Opened
  unfolding read_block read_partition_map
  open_partition_map writeable =
      if not (malloc 0) then Opened.refused else elim (compute_device_size is_readable (malloc 1)) [
        | none ↦ Opened.stuck
        | some size ↦ if not (malloc 2) then Opened.refused else elim (read_block dev d 0) [
          | none ↦ Opened.refused
          | some b ↦ elim (convert_block0 order true (dev.as_block0 b)) [
            | none ↦ Opened.stuck
            | some misc ↦
                let m =
                  record (empty_header (if rflag then false else writeable) regular_file size) {
                    misc = some misc;
                  } in
                let (n, done) = read_partition_map dev malloc order d m in
                if done then Opened.opened (coerce_block0 n) else Opened.refused
          ]
        ]
      ]

  -- The last part of `create_partition_map`, on the size that was chosen. `garbage` is what the
  -- buffer for block 0 holds when it was just allocated.
  unfoldable pub fresh_map : Block0 → ℕ → Opened
  fresh_map garbage number =
      let size = if ltb number 4 then 4 else number in
      let m = record (empty_header (not rflag) regular_file size) {
        misc = some garbage;
        allocs = 4;
      } in
      let (n, done) = add_data_to_map malloc (free_disk size) 1 m in
      if malloc 2 && (malloc 3 && done)
      then Opened.opened (coerce_block0 (record n { changed = true }))
      else Opened.refused

  -- `create_partition_map(name)`, on a file that was opened. The user may name another size.
  unfoldable pub create_partition_map : Block0 → Input → Option (Opened × Input)
  unfolding read_block fresh_map
  create_partition_map garbage keys =
      if not (malloc 0)
      then some (Opened.refused, keys)
      else elim (compute_device_size is_readable (malloc 1)) [
        | none ↦ some (Opened.stuck, keys)
        | some number ↦ elim (flush_to_newline false keys) [
          | none ↦ none
          | some flushed ↦ elim (get_number_argument number (some number) flushed) [
            | none ↦ none
            | some ((_, given), rest) ↦ some (fresh_map garbage given, rest)
          ]
        ]
      ]

  -- The part of `init_partition_map` behind the question. The old map is freed only if there is a
  -- new one.
  unfoldable pub replace_map :
      Block0 → Option PartitionMapHeader → Input → Option (Option PartitionMapHeader × Input)
  unfolding create_partition_map
  replace_map garbage oldmap keys = elim (create_partition_map garbage keys) [
    | none ↦ none
    | some (made, rest) ↦ elim made [
      | Opened.refused ↦ some (oldmap, rest)
      | Opened.stuck ↦ none
      | Opened.opened m ↦
          let size = if leb m.media_size 128 then 2 else 63 in
          some (some (add_partition_to_map malloc (codes "Apple") k_map_type 1 size m).0, rest)
    ]
  ]

  -- `init_partition_map(name, oldmap)`
  unfoldable pub init_partition_map :
      Block0 → Option PartitionMapHeader → Input → Option (Option PartitionMapHeader × Input)
  unfolding replace_map
  init_partition_map garbage oldmap keys = elim oldmap [
    | none ↦ replace_map garbage none keys
    | some m ↦ elim (get_okay keys) [
      | none ↦ none
      | some (answer, rest) ↦ elim answer [
        | Answer.okay ↦ replace_map garbage (some m) rest
        | Answer.not_okay ↦ some (some m, rest)
        | Answer.by_default ↦ some (some m, rest)
        | Answer.ended ↦ some (some m, rest)
      ]
    ]
  ]
