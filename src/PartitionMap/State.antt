-- ===== src/PartitionMap/State.antt =====
-- The map in memory. An entry is known by a name, as the C code knows it by its address, and both
-- lists hold names; the `next` and `prev` pointers of an entry are its neighbours in the list.
use mac_fdisk.Base.{ℕ, zero, suc, ◌+◌, Bool, Option, none, some, List, [], ◌∷◌, ◌==◌, if◌then◌else◌}
use mac_fdisk.Base.Strings.{codes, strncpy, strncmp_eq}
use mac_fdisk.Dpme.{Dpme, Bzb, Block0, dpistrlen, dpme_signature}
use mac_fdisk.Dpme.Flags.{
  dpme_writable_set, dpme_readable_set, dpme_bootable_set, dpme_in_use_set, dpme_allocated_set,
  dpme_valid_set,
}

abbrev pub k_free_type : List ℕ
k_free_type = codes "Apple_Free"

abbrev pub k_map_type : List ℕ
k_map_type = codes "Apple_partition_map"

abbrev pub k_unix_type : List ℕ
k_unix_type = codes "Apple_UNIX_SVR2"

abbrev pub k_bootstrap_type : List ℕ
k_bootstrap_type = codes "Apple_Bootstrap"

abbrev pub k_bootstrap_name : List ℕ
k_bootstrap_name = codes "bootstrap"

abbrev pub k_free_name : List ℕ
k_free_name = codes "Extra"

-- `struct partition_map`
pub record PartitionMap : Type 0 where
  pub disk_address : ℕ
  pub contents : Dpme

-- `struct partition_map_header`. `entry` is the heap of entries, `allocs` counts the calls of
-- `malloc` and `calloc` so far and so gives the next unused name. `maximum_in_map` is `none` where
-- the C field is negative.
pub record PartitionMapHeader : Type 0 where
  pub disk_order : List ℕ
  pub base_order : List ℕ
  pub entry : ℕ → PartitionMap
  pub misc : Option Block0
  pub writeable : Bool
  pub changed : Bool
  pub regular_file : Bool
  pub blocks_in_map : ℕ
  pub maximum_in_map : Option ℕ
  pub media_size : ℕ
  pub allocs : ℕ

abbrev pub start_of : (ℕ → PartitionMap) → ℕ → ℕ
start_of f i = (f i).contents.pblock_start

abbrev pub size_of : (ℕ → PartitionMap) → ℕ → ℕ
size_of f i = (f i).contents.pblocks

abbrev pub type_of : (ℕ → PartitionMap) → ℕ → List ℕ
type_of f i = (f i).contents.type_name

abbrev pub address_of : (ℕ → PartitionMap) → ℕ → ℕ
address_of f i = (f i).disk_address

-- `strncmp(type, kFreeType, DPISTRLEN) == 0`, and the same for the map's own type.
unfoldable pub is_free : List ℕ → Bool
unfolding strncmp_eq
is_free t = strncmp_eq dpistrlen t k_free_type

unfoldable pub is_map : List ℕ → Bool
unfolding strncmp_eq
is_map t = strncmp_eq dpistrlen t k_map_type

-- A write through the pointer to an entry.
unfoldable pub put : (ℕ → PartitionMap) → ℕ → PartitionMap → ℕ → PartitionMap
put f i e j = if j == i then e else f j

abbrev pub put_contents : (ℕ → PartitionMap) → ℕ → Dpme → ℕ → PartitionMap
put_contents f i d = put f i (record (f i) { contents = d })

abbrev pub replicate : ℕ → ℕ → List ℕ
replicate zero x = []
replicate (suc n) x = x ∷ replicate n x

-- What `calloc` gives for an entry's block.
unfoldable pub zero_bzb : Bzb
zero_bzb = record {
  bzb_magic = 0;
  bzb_cluster = 0;
  bzb_type = 0;
  bzb_inode = 0;
  bzb_flags = 0;
  bzb_tmade = 0;
  bzb_tmount = 0;
  bzb_tumount = 0;
  bzb_rest = replicate 104 0;
}

unfoldable pub zero_dpme : Dpme
unfolding zero_bzb
zero_dpme = record {
  signature = 0;
  reserved_1 = 0;
  map_entries = 0;
  pblock_start = 0;
  pblocks = 0;
  name = replicate 32 0;
  type_name = replicate 32 0;
  lblock_start = 0;
  lblocks = 0;
  flags = 0;
  boot_block = 0;
  boot_bytes = 0;
  load_addr = 0;
  load_addr_2 = 0;
  goto_addr = 0;
  goto_addr_2 = 0;
  checksum = 0;
  process_id = replicate 16 0;
  bzb = zero_bzb;
  reserved_3 = replicate 62 0;
}

-- The flags that both creators of an entry set; they differ in `allocated`.
unfoldable pub set_flags : ℕ → Dpme → Dpme
unfolding dpme_writable_set dpme_readable_set dpme_bootable_set dpme_in_use_set dpme_allocated_set
    dpme_valid_set
set_flags allocated d =
    dpme_valid_set
      (dpme_allocated_set
        (dpme_in_use_set (dpme_bootable_set (dpme_readable_set (dpme_writable_set d 1) 1) 0) 0)
        allocated)
      1

-- The block that `create_data` fills in.
unfoldable pub created : List ℕ → List ℕ → ℕ → ℕ → Dpme
unfolding strncpy set_flags
created name dptype base length = set_flags 1 (record zero_dpme {
  signature = dpme_signature;
  map_entries = 1;
  pblock_start = base;
  pblocks = length;
  name = strncpy dpistrlen name;
  type_name = strncpy dpistrlen dptype;
  lblock_start = 0;
  lblocks = length;
})

module _ (malloc : ℕ → Bool) where
  -- `create_data`: `malloc n` says whether allocation number `n` succeeds.
  unfoldable pub create_data :
      List ℕ → List ℕ → ℕ → ℕ → PartitionMapHeader → PartitionMapHeader × Option Dpme
  create_data name dptype base length m = (
    record m { allocs = m.allocs + 1 },
    if malloc m.allocs then some (created name dptype base length) else none,
  )
