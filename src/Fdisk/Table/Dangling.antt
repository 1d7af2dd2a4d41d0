-- ===== src/Fdisk/Table/Dangling.antt =====
-- `delete_partition` for both of two logical partitions, the second one first: `part_table[5]` still
-- leads into the buffer that the first call frees.
use mac_fdisk.Base.{ℕ, ◌≡◌, arith, true, false}
use mac_fdisk.Fdisk.{warn_geometry}
use mac_fdisk.Fdisk.Table.{Table, assign}
use mac_fdisk.Fdisk.Table.Chain.{Place, IsStored, IsLinked}
use mac_fdisk.Fdisk.Table.Last

module _ (t : Table) (at : ℕ → Place) (st : IsStored t at) (ch : IsLinked t at)
    (two : t.partitions ≡ 6) (geometry : warn_geometry t.geometry ≡ false) where
  -- The table that the first call works on, in which the sector is marked as changed.
  abbrev marked : Table
  marked = record t { changed = assign t.changed 5 true }

  marked-IsStored : IsStored marked at
  marked-IsStored = record {
    buffer = st.buffer;
    data_at = st.data_at;
    link_at = st.link_at;
    slots = st.slots;
    distinct = st.distinct;
    live = st.live;
  }

  marked-IsLinked : IsLinked marked at
  marked-IsLinked = record { first = ch.first; next = ch.next; ends = ch.ends }

  abbrev left : Table
  left = Last.result marked at 5 marked-IsStored marked-IsLinked (omega arith) (omega (arith, two))
