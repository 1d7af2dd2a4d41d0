-- ===== src/Dpme/Types.antt =====
-- dpme.h: the on-disk structures and the flags of an entry. A field of type `u8`, `u16` or `u32`
-- is the number that the CPU reads there; a `char` array is its list of bytes.
use mac_fdisk.Base.{ℕ, ◌≡◌, ◌<◌, ◌^◌, List, length, All}

abbrev pub block0_signature : ℕ
block0_signature = 0x4552

abbrev pub dpistrlen : ℕ
dpistrlen = 32

abbrev pub dpme_signature : ℕ
dpme_signature = 0x504D

abbrev pub bzb_magic_number : ℕ
bzb_magic_number = 0xABADBABE

-- One driver descriptor.
pub record DdMap : Type 0 where
  pub dd_block : ℕ
  pub dd_size : ℕ
  pub dd_type : ℕ

-- Physical block zero. `sb_map` is the array read as `DDMap`s: 61 of them fit the 494 bytes, and
-- `sb_tail` holds the six bytes behind them.
pub record Block0 : Type 0 where
  pub sb_sig : ℕ
  pub sb_blk_size : ℕ
  pub sb_blk_count : ℕ
  pub sb_dev_type : ℕ
  pub sb_dev_id : ℕ
  pub sb_data : ℕ
  pub sb_drvr_count : ℕ
  pub sb_map : List DdMap
  pub sb_tail : List ℕ

-- The structure that A/UX keeps in `dpme_boot_args`. `bzb_rest` is `bzb_abm` and all behind it.
pub record Bzb : Type 0 where
  pub bzb_magic : ℕ
  pub bzb_cluster : ℕ
  pub bzb_type : ℕ
  pub bzb_inode : ℕ
  pub bzb_flags : ℕ
  pub bzb_tmade : ℕ
  pub bzb_tmount : ℕ
  pub bzb_tumount : ℕ
  pub bzb_rest : List ℕ

-- A partition map entry. `bzb` is `dpme_boot_args`.
pub record Dpme : Type 0 where
  pub signature : ℕ
  pub reserved_1 : ℕ
  pub map_entries : ℕ
  pub pblock_start : ℕ
  pub pblocks : ℕ
  pub name : List ℕ
  pub type_name : List ℕ
  pub lblock_start : ℕ
  pub lblocks : ℕ
  pub flags : ℕ
  pub boot_block : ℕ
  pub boot_bytes : ℕ
  pub load_addr : ℕ
  pub load_addr_2 : ℕ
  pub goto_addr : ℕ
  pub goto_addr_2 : ℕ
  pub checksum : ℕ
  pub process_id : List ℕ
  pub bzb : Bzb
  pub reserved_3 : List ℕ

-- Every field fits its type.
pub record IsBzb (b : Bzb) : Type 0 where
  pub magic : b.bzb_magic < 2 ^ 32
  pub inode : b.bzb_inode < 2 ^ 16
  pub flags : b.bzb_flags < 2 ^ 32
  pub tmade : b.bzb_tmade < 2 ^ 32
  pub tmount : b.bzb_tmount < 2 ^ 32
  pub tumount : b.bzb_tumount < 2 ^ 32

pub record IsDpme (d : Dpme) : Type 0 where
  pub signature : d.signature < 2 ^ 16
  pub reserved_1 : d.reserved_1 < 2 ^ 16
  pub map_entries : d.map_entries < 2 ^ 32
  pub pblock_start : d.pblock_start < 2 ^ 32
  pub pblocks : d.pblocks < 2 ^ 32
  pub lblock_start : d.lblock_start < 2 ^ 32
  pub lblocks : d.lblocks < 2 ^ 32
  pub flags : d.flags < 2 ^ 32
  pub boot_block : d.boot_block < 2 ^ 32
  pub boot_bytes : d.boot_bytes < 2 ^ 32
  pub load_addr : d.load_addr < 2 ^ 32
  pub load_addr_2 : d.load_addr_2 < 2 ^ 32
  pub goto_addr : d.goto_addr < 2 ^ 32
  pub goto_addr_2 : d.goto_addr_2 < 2 ^ 32
  pub checksum : d.checksum < 2 ^ 32
  pub bzb : IsBzb d.bzb

abbrev pub IsDdMap : DdMap → Type 0
IsDdMap m = (m.dd_block < 2 ^ 32) × (m.dd_size < 2 ^ 16) × (m.dd_type < 2 ^ 16)

pub record IsBlock0 (b : Block0) : Type 0 where
  pub sig : b.sb_sig < 2 ^ 16
  pub blk_size : b.sb_blk_size < 2 ^ 16
  pub blk_count : b.sb_blk_count < 2 ^ 32
  pub dev_type : b.sb_dev_type < 2 ^ 16
  pub dev_id : b.sb_dev_id < 2 ^ 16
  pub misc_data : b.sb_data < 2 ^ 32
  pub drvr_count : b.sb_drvr_count < 2 ^ 16
  pub slots : length b.sb_map ≡ 61
  pub drivers : All IsDdMap b.sb_map
