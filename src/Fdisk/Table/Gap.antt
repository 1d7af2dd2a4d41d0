-- ===== src/Fdisk/Table/Gap.antt =====
-- Closing the gap in the arrays that a deleted logical partition leaves.
use mac_fdisk.Base.{
  ℕ, ◌+◌, ◌-◌, ◌*◌, ◌/◌, ◌≡◌, ◌≢◌, ◌≤◌, ◌<◌, ◌∙◌, ap, sym, refl, arith, true, false, some, ◌==◌,
}
use mac_fdisk.Base.Word.{add32}
use mac_fdisk.Fdisk.Entry.{Partition}
use mac_fdisk.Fdisk.Table.{Table, assign, deref, moved_down, close_gap, free_buffer}
use mac_fdisk.Fdisk.Table.Chain.{logical, Place, data_of, link_of, IsStored, index, moved_down_lem}

-- Where logical partition `j` is found.
pub logical_at :
    (t : Table) (p : Place) (j : ℕ)
    → t.part_table j ≡ some (data_of p)
    → p.data_slot < 4
    → t.freed p.buffer ≡ false
    → logical t j
      ≡ some (record {
        first = add32 (t.entry (data_of p)).start_sect (t.offsets j);
        sectors = (t.entry (data_of p)).nr_sects;
        type = (t.entry (data_of p)).sys_ind;
      })
unfolding logical deref
logical_at t p j found slot live =
    let b : data_of p / 4 ≡ p.buffer = omega arith in rw (logical, found, deref, b, live) refl

-- Two names of entries in the buffers of the chain differ in the partition or in the slot.
pub same_name :
    (t : Table) (at : ℕ → Place)
    → IsStored t at
    → (j k x y : ℕ) → 4 ≤ j
    → j < t.partitions
    → 4 ≤ k
    → k < t.partitions
    → x < 4
    → y < 4
    → 4 * (at j).buffer + x ≡ 4 * (at k).buffer + y
    → (j ≡ k) × (x ≡ y)
same_name t at st j k x y lj hj lk hk sx sy e =
    (st.distinct j k lj hj lk hk (omega arith), omega arith)

-- Where the link of partition `k` is overwritten, every entry and every other link stays.
module _ (t : Table) (at : ℕ → Place) (st : IsStored t at) (k : ℕ) (x : Partition) (lk : 4 ≤ k)
    (hk : k < t.partitions) where
  abbrev overwritten : ℕ → Partition
  overwritten = assign t.entry (link_of (at k)) x

  pub overwritten_data :
      (j : ℕ) → 4 ≤ j → j < t.partitions → overwritten (data_of (at j)) ≡ t.entry (data_of (at j))
  overwritten_data j h p =
      let apart : data_of (at j) ≢ link_of (at k) = λ e.
        let (same, slot) =
          same_name t at st j k (at j).data_slot (at k).link_slot h p lk hk (st.slots j h p).0
            (st.slots k lk hk).1 e in
        (st.slots j h p).2 (slot ∙ ap (λ m. (at m).link_slot) (sym same)) in
      let other : (data_of (at j) == link_of (at k)) ≡ false = ground (arith, apart) in
      rw other refl

  pub overwritten_link :
      (j : ℕ)
      → 4 ≤ j
      → j < t.partitions
      → j ≢ k
      → overwritten (link_of (at j)) ≡ t.entry (link_of (at j))
  overwritten_link j h p ne =
      let apart : link_of (at j) ≢ link_of (at k) = λ e.
        ne
          (same_name t at st j k (at j).link_slot (at k).link_slot h p lk hk (st.slots j h p).1
            (st.slots k lk hk).1 e).0 in
      let other : (link_of (at j) == link_of (at k)) ≡ false = ground (arith, apart) in
      rw other refl

module _ (t : Table) (at : ℕ → Place) (i : ℕ) (st : IsStored t at) (low : 4 ≤ i)
    (high : i < t.partitions) where
  abbrev pub n : ℕ
  n = t.partitions - 1

  abbrev pub moved : ℕ → Place
  moved j = at (index i j)

  abbrev pub closed : Table
  closed = record t {
    freed = assign t.freed (at i).buffer true;
    partitions = n;
    changed = moved_down i n t.changed;
    buffers = moved_down i n t.buffers;
    offsets = moved_down i n t.offsets;
    part_table = moved_down i n t.part_table;
    ext_pointers = moved_down i n t.ext_pointers;
  }

  frees : free_buffer i t ≡ record t { freed = assign t.freed (at i).buffer true }
  unfolding free_buffer
  frees = rw (free_buffer, st.buffer i low high) refl

  pub close_gap_lem : close_gap i t ≡ closed
  unfolding close_gap
  close_gap_lem = rw frees refl

  index_low : (j : ℕ) → 4 ≤ j → 4 ≤ index i j
  index_low j h = ground arith

  index_high : (j : ℕ) → j < n → index i j < t.partitions
  index_high j h = ground arith

  index_ne : (j : ℕ) → index i j ≢ i
  index_ne j = ground arith

  index_injective : (j k : ℕ) → index i j ≡ index i k → j ≡ k
  index_injective j k h = ground arith

  still_live : (j : ℕ) → 4 ≤ j → j < n → closed.freed (moved j).buffer ≡ false
  still_live j h k =
      let other : ((moved j).buffer == (at i).buffer) ≡ false =
        ground (
          arith,
          index_ne j,
          st.distinct (index i j) i (index_low j h) (index_high j k) low high,
        ) in
      rw other (st.live (index i j) (index_low j h) (index_high j k))

  pub closed-IsStored : IsStored closed moved
  closed-IsStored = record {
    buffer = λ j h k.
        moved_down_lem i n j t.buffers k ∙ st.buffer (index i j) (index_low j h) (index_high j k);
    data_at = λ j h k.
        moved_down_lem i n j t.part_table k
        ∙ st.data_at (index i j) (index_low j h) (index_high j k);
    link_at = λ j h k.
        moved_down_lem i n j t.ext_pointers k
        ∙ st.link_at (index i j) (index_low j h) (index_high j k);
    slots = λ j h k. st.slots (index i j) (index_low j h) (index_high j k);
    distinct = λ j k h p q r same. index_injective j k (
        st.distinct (index i j) (index i k) (index_low j h) (index_high j p) (index_low k q)
          (index_high k r) same);
    live = still_live;
  }

  -- The other logical partitions keep their order.
  pub closed-logical : (j : ℕ) → 4 ≤ j → j < n → logical closed j ≡ logical t (index i j)
  closed-logical j h k =
      let m = index i j in
      let inside = index_high j k in
      let p = at m in
      logical_at closed p j (closed-IsStored.data_at j h k) (st.slots m (index_low j h) inside).0
        (still_live j h k)
      ∙ ap
          (λ (o : ℕ). some (record {
            first = add32 (t.entry (data_of p)).start_sect o;
            sectors = (t.entry (data_of p)).nr_sects;
            type = (t.entry (data_of p)).sys_ind;
          }))
          (moved_down_lem i n j t.offsets k)
      ∙ sym (
          logical_at t p m (st.data_at m (index_low j h) inside)
            (st.slots m (index_low j h) inside).0 (st.live m (index_low j h) inside))
