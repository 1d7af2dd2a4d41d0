-- ===== src/Fdisk/Table/Inner.antt =====
-- `delete_partition` for a logical partition that is neither the first nor the last.
use mac_fdisk.Base.{
  ℕ, suc, ◌-◌, ◌/◌, ◌≡◌, ◌≢◌, ◌≤◌, ◌<◌, ◌∙◌, ap, sym, refl, arith, true, some, ◌==◌, inl, inr,
  Bool-cases,
}
use mac_fdisk.Base.Word.{add32}
use mac_fdisk.Fdisk.Entry.{Partition, extended}
use mac_fdisk.Fdisk.Table.{Table, assign, store, mark, moved_down, take_over_link}
use mac_fdisk.Fdisk.Table.Chain.{
  logical, Place, link_of, IsStored, IsLinked, index, moved_down_lem, Without,
}
use mac_fdisk.Fdisk.Table.Gap.{
  overwritten_data, overwritten_link, logical_at, closed, moved, closed-IsStored, closed-logical,
}

module _ (t : Table) (at : ℕ → Place) (i : ℕ) (st : IsStored t at) (ch : IsLinked t at)
    (low : 4 < i) (high : suc i < t.partitions) where
  -- The link in front of the deleted partition.
  abbrev pub behind : ℕ
  behind = link_of (at (i - 1))

  abbrev pub next_link : Partition
  next_link = t.entry (link_of (at i))

  abbrev pub relinked : Table
  relinked = record t {
    entry = assign t.entry behind (record next_link { boot_ind = 0; sys_ind = extended });
    changed = assign t.changed (i - 1) true;
  }

  pub take_over_link_lem : take_over_link i next_link t ≡ some relinked
  unfolding take_over_link
  take_over_link_lem =
      let b : behind / 4 ≡ (at (i - 1)).buffer =
        omega (arith, st.slots (i - 1) (omega arith) (omega arith)) in
      rw
        (
          take_over_link,
          st.link_at (i - 1) (omega arith) (omega arith),
          store,
          b,
          st.live (i - 1) (omega arith) (omega arith),
          mark,
        )
        refl

  pub relinked-IsStored : IsStored relinked at
  relinked-IsStored = record {
    buffer = st.buffer;
    data_at = st.data_at;
    link_at = st.link_at;
    slots = st.slots;
    distinct = st.distinct;
    live = st.live;
  }

  link_kept :
      (j : ℕ)
      → 4 ≤ j
      → j < t.partitions
      → j ≢ i - 1
      → relinked.entry (link_of (at j)) ≡ t.entry (link_of (at j))
  link_kept =
      overwritten_link t at st (i - 1) (record next_link { boot_ind = 0; sys_ind = extended })
        (omega arith) (omega arith)

  relinked-logical : (j : ℕ) → 4 ≤ j → j < t.partitions → logical relinked j ≡ logical t j
  relinked-logical j h k =
      logical_at relinked (at j) j (st.data_at j h k) (st.slots j h k).0 (st.live j h k)
      ∙ ap
          (λ (p : Partition). some (record {
            first = add32 p.start_sect (t.offsets j);
            sectors = p.nr_sects;
            type = p.sys_ind;
          }))
          (overwritten_data t at st (i - 1) (record next_link { boot_ind = 0; sys_ind = extended })
            (omega arith) (omega arith) j h k)
      ∙ sym (logical_at t (at j) j (st.data_at j h k) (st.slots j h k).0 (st.live j h k))

  abbrev pub result : Table
  result = closed relinked at i relinked-IsStored (omega arith) (omega arith)

  abbrev n : ℕ
  n = t.partitions - 1

  abbrev Next : ℕ → Type 0
  Next j =
      ((relinked.entry (link_of (at (index i j)))).sys_ind ≡ extended)
      × (moved_down i n t.offsets (suc j)
          ≡ add32 t.extended_offset (relinked.entry (link_of (at (index i j)))).start_sect)

  Next-at_gap : (j : ℕ) → suc j < n → suc j ≡ i → Next j
  Next-at_gap j k e =
      let here : index i j ≡ i - 1 = ground arith in
      let self : (behind == behind) ≡ true = ground arith in
      let there : index i (suc j) ≡ suc i = ground arith in
      rw (here, self)
        (
          refl,
          moved_down_lem i n (suc j) t.offsets k
              ∙ ap t.offsets there
              ∙ (ch.next i (omega arith) high).1,
        )

  Next-elsewhere : (j : ℕ) → 4 ≤ j → suc j < n → suc j ≢ i → Next j
  Next-elsewhere j h k ne =
      let m = index i j in
      let low' : 4 ≤ m = ground arith in
      let high' : suc m < t.partitions = ground arith in
      let other : m ≢ i - 1 = ground arith in
      let there : index i (suc j) ≡ suc m = ground arith in
      let (ext, off) = ch.next m low' high' in
      rw (link_kept m low' (omega (arith, high')) other)
        (ext, moved_down_lem i n (suc j) t.offsets k ∙ ap t.offsets there ∙ off)

  link_ends :
      (m : ℕ)
      → 4 ≤ m
      → suc m ≡ t.partitions
      → (t.entry (link_of (at m))).sys_ind ≡ 0
      → (relinked.entry (link_of (at m))).sys_ind ≡ 0
  link_ends m h last e =
      ap (λ (p : Partition). p.sys_ind) (link_kept m h (omega arith) (omega arith)) ∙ e

  pub result-Without : Without t i result
  result-Without = record {
    at = moved relinked at i relinked-IsStored (omega arith) (omega arith);
    stored = closed-IsStored relinked at i relinked-IsStored (omega arith) (omega arith);
    linked = record {
      first =
          let h : index i 4 ≡ 4 = ground arith in
          moved_down_lem i n 4 t.offsets (omega arith) ∙ ap t.offsets h ∙ ch.first;
      next = λ j h k. elim (Bool-cases (suc j == i)) [
        | inl e ↦ Next-at_gap j k (ground arith)
        | inr e ↦ Next-elsewhere j h k (ground arith)
      ];
      ends = λ j h k.
          let m = index i j in
          let low' : 4 ≤ m = ground arith in
          let last : suc m ≡ t.partitions = ground arith in
          link_ends m low' last (ch.ends m low' last);
    };
    one_less = omega arith;
    kept = λ j h k.
        closed-logical relinked at i relinked-IsStored (omega arith) (omega arith) j h k
        ∙ relinked-logical (index i j) (ground arith) (ground arith);
  }
