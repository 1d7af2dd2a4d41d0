-- ===== src/Fdisk/Entry.antt =====
-- fdisk.c and kernel-defs.h: an entry of a partition table, what `set_partition` stores in it, and
-- what `check_bounds`, `check_consistency` and `check` read from it. `start_sect` and `nr_sects` hold
-- what `SWAP32` gives: the code reads and writes both through it, or tests for 0, or copies them.
pub mod Packed
pub mod Bounds
pub mod Consistent
use Prim.Native.Nat.{bit_and, bit_or}
use mac_fdisk.Base.{
  ℕ, zero, suc, ◌+◌, ◌-◌, ◌*◌, ◌/◌, ◌%◌, ◌^◌, Bool, true, false, ◌&&◌, ◌||◌, not, Option, none,
  some, List, [], ◌∷◌, ◌++◌, ◌==◌, leb, ltb, if◌then◌else◌,
}
use mac_fdisk.Base.Word.{add32, sub32}
use mac_fdisk.Fdisk.{Geometry, Hsc, sector, cylinder, calculate, set_hsc, long2chs, rounded}

-- `struct partition`
pub record Partition : Type 0 where
  pub boot_ind : ℕ
  pub start_hsc : Hsc
  pub sys_ind : ℕ
  pub end_hsc : Hsc
  pub start_sect : ℕ
  pub nr_sects : ℕ

abbrev pub extended : ℕ
extended = 5

abbrev pub linux_native : ℕ
linux_native = 0x83

abbrev no_hsc : Hsc
no_hsc = record { head = 0; sector_byte = 0; cyl = 0 }

-- What `clear_partition` leaves.
unfoldable pub cleared : Partition
cleared = record {
  boot_ind = 0;
  start_hsc = no_hsc;
  sys_ind = 0;
  end_hsc = no_hsc;
  start_sect = 0;
  nr_sects = 0;
}

-- The number of sectors in a cylinder, a `uint`.
abbrev pub per_cylinder : Geometry → ℕ
per_cylinder g = g.heads * g.sectors % 2 ^ 32

-- A sector behind cylinder 1023 is packed as the last one before it, in DOS mode.
unfoldable pub clipped : Geometry → Bool → ℕ → ℕ
clipped g dos x =
    if dos && ltb 1023 (x / per_cylinder g) then sub32 (per_cylinder g * 1024 % 2 ^ 32) 1 else x

-- What `set_partition` stores.
unfoldable pub filled : Geometry → Bool → ℕ → ℕ → ℕ → ℕ → Partition
filled g dos start stop sys offset = record {
  boot_ind = 0;
  start_hsc = set_hsc g (clipped g dos start);
  sys_ind = sys % 256;
  end_hsc = set_hsc g (clipped g dos stop);
  start_sect = sub32 start offset;
  nr_sects = add32 (sub32 stop start) 1;
}

-- An entry that `check_bounds` passes over.
abbrev pub is_unused : Partition → Bool
is_unused p = (p.sys_ind == 0) || (p.sys_ind == extended)

-- `first[i]` and `last[i]`. `none` where the loop of `rounded` does not end.
unfoldable pub bounds_of : Geometry → ℕ → Partition → Option (ℕ × ℕ)
bounds_of g offset p =
    if is_unused p
    then some (2 ^ 32 - 1, 0)
    else elim (rounded g (calculate g p.start_hsc) (add32 p.start_sect offset)) [
      | none ↦ none
      | some first ↦ some (first, sub32 (add32 (add32 p.start_sect offset) p.nr_sects) 1)
    ]

-- Cylinder, head and sector as the bytes give them, for `check_consistency`.
unfoldable pub physical : Hsc → ℕ × (ℕ × ℕ)
physical p = (
  bit_or (bit_and p.cyl 0xff) (bit_and (p.sector_byte * 4) 0x300),
  (p.head, sector p.sector_byte),
)

abbrev pub same_place : ℕ × (ℕ × ℕ) → ℕ × (ℕ × ℕ) → Bool
same_place a b = a.0 == b.0 && (a.1.0 == b.1.0 && a.1.1 == b.1.1)

-- The messages of `check_consistency`.
pub data Remark : Type 0 where
  beginnings_differ endings_differ off_boundary : Remark

abbrev pub remark : Bool → Remark → List Remark
remark b r = if b then r ∷ [] else []

-- The last sector of an entry, without its offset.
abbrev pub last_sect : Partition → ℕ
last_sect p = sub32 (add32 p.start_sect p.nr_sects) 1

unfoldable pub check_consistency : Geometry → Partition → ℕ → List Remark
check_consistency g p partition =
    if (g.heads == 0) || ((g.sectors == 0) || leb 4 partition)
    then []
    else (let pe = physical p.end_hsc in
        remark
          (leb g.cylinders 1024
            && not (same_place (physical p.start_hsc) (long2chs g p.start_sect)))
          Remark.beginnings_differ
        ++ (remark (leb g.cylinders 1024 && not (same_place pe (long2chs g (last_sect p))))
              Remark.endings_differ
            ++ remark (not (pe.1.0 == sub32 g.heads 1) || not (pe.1.1 == g.sectors))
                Remark.off_boundary))
