-- ===== src/Convert.antt =====
-- convert.c: between the big-endian form on the disk and the form of the CPU. `reverse2` and
-- `reverse4` turn the bytes of a field round, here as an operation on the field's number.
pub mod Laws
use mac_fdisk.Base.{
  ℕ, zero, suc, ◌+◌, ◌*◌, ◌/◌, ◌%◌, Bool, true, false, not, Option, none, some, List, [], ◌∷◌, ltb,
  ◌==◌, if◌then◌else◌,
}
use mac_fdisk.Dpme.{Dpme, Bzb, Block0, DdMap, block0_signature, bzb_magic_number}

-- `BYTE_ORDER`: on a big-endian CPU the bodies are compiled away.
pub data ByteOrder : Type 0 where
  little_endian big_endian : ByteOrder

unfoldable pub reverse2 : ℕ → ℕ
reverse2 x = x % 256 * 256 + x / 256 % 256

unfoldable pub reverse4 : ℕ → ℕ
reverse4 x = x % 256 * 16777216 + x / 256 % 256 * 65536 + x / 65536 % 256 * 256 + x / 16777216 % 256

-- The fields behind the magic number.
unfoldable pub reverse_bzb : Bzb → Bzb
reverse_bzb b = record b {
  bzb_inode = reverse2 b.bzb_inode;
  bzb_flags = reverse4 b.bzb_flags;
  bzb_tmade = reverse4 b.bzb_tmade;
  bzb_tmount = reverse4 b.bzb_tmount;
  bzb_tumount = reverse4 b.bzb_tumount;
}

-- `convert_bzb(data, to_cpu_form)`
unfoldable pub convert_bzb : Bool → Bzb → Bzb
convert_bzb true b =
    if reverse4 b.bzb_magic == bzb_magic_number
    then reverse_bzb (record b { bzb_magic = reverse4 b.bzb_magic })
    else if reverse4 (reverse4 b.bzb_magic) == bzb_magic_number
    then reverse_bzb (record b { bzb_magic = reverse4 (reverse4 b.bzb_magic) })
    else record b { bzb_magic = reverse4 (reverse4 b.bzb_magic) }
convert_bzb false b =
    if b.bzb_magic == bzb_magic_number
    then reverse_bzb (record b { bzb_magic = reverse4 b.bzb_magic })
    else b

-- The numeric fields of an entry.
unfoldable pub reverse_fields : Dpme → Dpme
reverse_fields d = record d {
  signature = reverse2 d.signature;
  reserved_1 = reverse2 d.reserved_1;
  map_entries = reverse4 d.map_entries;
  pblock_start = reverse4 d.pblock_start;
  pblocks = reverse4 d.pblocks;
  lblock_start = reverse4 d.lblock_start;
  lblocks = reverse4 d.lblocks;
  flags = reverse4 d.flags;
  boot_block = reverse4 d.boot_block;
  boot_bytes = reverse4 d.boot_bytes;
  load_addr = reverse4 d.load_addr;
  load_addr_2 = reverse4 d.load_addr_2;
  goto_addr = reverse4 d.goto_addr;
  goto_addr_2 = reverse4 d.goto_addr_2;
  checksum = reverse4 d.checksum;
}

-- `convert_dpme(data, to_cpu_form)`, which always returns 0.
unfoldable pub convert_dpme : ByteOrder → Bool → Dpme → Dpme
convert_dpme ByteOrder.big_endian to_cpu d = d
convert_dpme ByteOrder.little_endian to_cpu d = record (reverse_fields d) {
  bzb = convert_bzb to_cpu d.bzb;
}

unfoldable pub reverse_dd_map : DdMap → DdMap
reverse_dd_map m = record {
  dd_block = reverse4 m.dd_block;
  dd_size = reverse2 m.dd_size;
  dd_type = reverse2 m.dd_type;
}

-- The loop over the first `count` descriptors. `none` is an access behind the last one, which
-- runs out of the block's buffer.
unfoldable pub reverse_drivers : ℕ → List DdMap → Option (List DdMap)
reverse_drivers zero ms = some ms
reverse_drivers (suc n) [] = none
reverse_drivers (suc n) (m ∷ ms) = elim (reverse_drivers n ms) [
  | none ↦ none
  | some rest ↦ some (reverse_dd_map m ∷ rest)
]

-- Everything behind the signature. The count that bounds the loop is the one in the CPU's form.
unfoldable pub reverse_block0 : Bool → Block0 → Option Block0
reverse_block0 to_cpu b =
    let swapped = reverse2 b.sb_drvr_count in
    let count = if to_cpu then swapped else b.sb_drvr_count in
    elim (reverse_drivers count b.sb_map) [
      | none ↦ none
      | some drivers ↦ some (record b {
        sb_blk_size = reverse2 b.sb_blk_size;
        sb_blk_count = reverse4 b.sb_blk_count;
        sb_dev_type = reverse2 b.sb_dev_type;
        sb_dev_id = reverse2 b.sb_dev_id;
        sb_data = reverse4 b.sb_data;
        sb_drvr_count = swapped;
        sb_map = drivers;
      })
    ]

-- `convert_block0(data, to_cpu_form)`
unfoldable pub convert_block0 : ByteOrder → Bool → Block0 → Option Block0
convert_block0 ByteOrder.big_endian to_cpu b = some b
convert_block0 ByteOrder.little_endian true b =
    let once = reverse2 b.sb_sig in
    let twice = reverse2 once in
    if once == block0_signature
    then reverse_block0 true (record b { sb_sig = once })
    else if twice == block0_signature
    then reverse_block0 true (record b { sb_sig = twice })
    else some (record b { sb_sig = twice })
convert_block0 ByteOrder.little_endian false b =
    if b.sb_sig == block0_signature
    then reverse_block0 false (record b { sb_sig = reverse2 b.sb_sig })
    else some b
