-- ===== src/Fdisk/Table/Chain.antt =====
-- The chain of the logical partitions: each has a sector with its entry and the link to the next.
use mac_fdisk.Base.{
  ℕ, suc, ◌+◌, ◌*◌, ◌≡◌, ◌≢◌, ◌≤◌, ◌<◌, arith, false, Option, none, some, leb, if◌then◌else◌,
}
use mac_fdisk.Base.Word.{add32}
use mac_fdisk.Fdisk.Entry.{extended}
use mac_fdisk.Fdisk.Table.{Table, deref, moved_down}

-- First sector, number of sectors and type.
pub record Logical : Type 0 where
  pub first : ℕ
  pub sectors : ℕ
  pub type : ℕ

-- Logical partition `j` as the table describes it.
unfoldable pub logical : Table → ℕ → Option Logical
unfolding deref
logical t j = elim (deref t (t.part_table j)) [
  | none ↦ none
  | some p ↦
      some (record {
        first = add32 p.start_sect (t.offsets j);
        sectors = p.nr_sects;
        type = p.sys_ind;
      })
]

-- Where the parts of logical partition `j` are: its buffer, and its entry and link in it.
pub record Place : Type 0 where
  pub buffer : ℕ
  pub data_slot : ℕ
  pub link_slot : ℕ

abbrev pub data_of : Place → ℕ
data_of p = 4 * p.buffer + p.data_slot

abbrev pub link_of : Place → ℕ
link_of p = 4 * p.buffer + p.link_slot

-- Every logical partition has a buffer of its own that is not freed, with two entries in it.
pub record IsStored (t : Table) (at : ℕ → Place) : Type 0 where
  pub buffer : (j : ℕ) → 4 ≤ j → j < t.partitions → t.buffers j ≡ some (at j).buffer
  pub data_at : (j : ℕ) → 4 ≤ j → j < t.partitions → t.part_table j ≡ some (data_of (at j))
  pub link_at : (j : ℕ) → 4 ≤ j → j < t.partitions → t.ext_pointers j ≡ some (link_of (at j))
  pub slots :
      (j : ℕ)
      → 4 ≤ j
      → j < t.partitions
      → ((at j).data_slot < 4) × ((at j).link_slot < 4) × ((at j).data_slot ≢ (at j).link_slot)
  pub distinct :
      (j k : ℕ)
      → 4 ≤ j
      → j < t.partitions
      → 4 ≤ k
      → k < t.partitions
      → (at j).buffer ≡ (at k).buffer
      → j ≡ k
  pub live : (j : ℕ) → 4 ≤ j → j < t.partitions → t.freed (at j).buffer ≡ false

-- The link of each logical partition but the last leads to the next one, that of the last nowhere.
pub record IsLinked (t : Table) (at : ℕ → Place) : Type 0 where
  pub first : t.offsets 4 ≡ t.extended_offset
  pub next :
      (j : ℕ)
      → 4 ≤ j
      → suc j < t.partitions
      → ((t.entry (link_of (at j))).sys_ind ≡ extended)
        × (t.offsets (suc j) ≡ add32 t.extended_offset (t.entry (link_of (at j))).start_sect)
  pub ends : (j : ℕ) → 4 ≤ j → suc j ≡ t.partitions → (t.entry (link_of (at j))).sys_ind ≡ 0

-- The index in the old arrays of what is at `j` in the new ones.
abbrev pub index : ℕ → ℕ → ℕ
index i j = if leb i j then suc j else j

pub moved_down_lem :
    {A : Type 0} → (i n j : ℕ) (f : ℕ → A) → j < n → moved_down i n f j ≡ f (index i j)
moved_down_lem i n j f h = ground arith

-- A chain from which logical partition `i` was taken.
pub record Without (t : Table) (i : ℕ) (u : Table) : Type 0 where
  pub at : ℕ → Place
  pub stored : IsStored u at
  pub linked : IsLinked u at
  pub one_less : u.partitions + 1 ≡ t.partitions
  pub kept : (j : ℕ) → 4 ≤ j → j < u.partitions → logical u j ≡ logical t (index i j)
