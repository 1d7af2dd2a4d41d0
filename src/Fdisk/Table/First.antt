-- ===== src/Fdisk/Table/First.antt =====
-- `delete_partition` for the first logical partition, where another one follows.
use mac_fdisk.Base.{
  ℕ, suc, ◌-◌, ◌/◌, ◌^◌, ◌≡◌, ◌≢◌, ◌≤◌, ◌<◌, ◌∙◌, ap, sym, refl, arith, true, false, some, ◌==◌,
  inl, inr, Bool-cases,
}
use mac_fdisk.Base.Word.{add32, sub32}
use mac_fdisk.Fdisk.Entry.{Partition, extended}
use mac_fdisk.Fdisk.Table.{Table, assign, deref, store, mark, moved_down, rebase}
use mac_fdisk.Fdisk.Table.Chain.{
  logical, Place, data_of, link_of, IsStored, IsLinked, index, moved_down_lem, Without,
}
use mac_fdisk.Fdisk.Table.Gap.{
  same_name, logical_at, closed, moved, closed-IsStored, closed-logical,
}

module _ (t : Table) (at : ℕ → Place) (st : IsStored t at) (ch : IsLinked t at)
    (high : 5 < t.partitions) (small : t.extended_offset < 2 ^ 32) where
  abbrev counted : Partition
  counted = record (t.entry (data_of (at 5))) {
    start_sect =
        sub32 (add32 (t.entry (data_of (at 5))).start_sect (t.offsets 5)) t.extended_offset;
  }

  abbrev pub rebased : Table
  rebased = record t {
    entry = assign t.entry (data_of (at 5)) counted;
    offsets = assign t.offsets 5 t.extended_offset;
    changed = assign t.changed 5 true;
  }

  pub rebase_lem : rebase t ≡ some rebased
  unfolding rebase
  rebase_lem =
      let b : data_of (at 5) / 4 ≡ (at 5).buffer = omega (arith, st.slots 5 (omega arith) high) in
      rw
        (
          rebase,
          st.data_at 5 (omega arith) high,
          deref,
          b,
          st.live 5 (omega arith) high,
          store,
          b,
          st.live 5 (omega arith) high,
          mark,
        )
        refl

  pub rebased-IsStored : IsStored rebased at
  rebased-IsStored = record {
    buffer = st.buffer;
    data_at = st.data_at;
    link_at = st.link_at;
    slots = st.slots;
    distinct = st.distinct;
    live = st.live;
  }

  data_kept :
      (j : ℕ)
      → 4 ≤ j
      → j < t.partitions
      → j ≢ 5
      → rebased.entry (data_of (at j)) ≡ t.entry (data_of (at j))
  data_kept j h k ne =
      let apart : data_of (at j) ≢ data_of (at 5) = λ e.
        ne
          (same_name t at st j 5 (at j).data_slot (at 5).data_slot h k (omega arith) high
            (st.slots j h k).0 (st.slots 5 (omega arith) high).0 e).0 in
      let other : (data_of (at j) == data_of (at 5)) ≡ false = ground (arith, apart) in
      rw other refl

  link_kept :
      (j : ℕ) → 4 ≤ j → j < t.partitions → rebased.entry (link_of (at j)) ≡ t.entry (link_of (at j))
  link_kept j h k =
      let apart : link_of (at j) ≢ data_of (at 5) = λ e.
        let (same, slot) =
          same_name t at st j 5 (at j).link_slot (at 5).data_slot h k (omega arith) high
            (st.slots j h k).1 (st.slots 5 (omega arith) high).0 e in
        (st.slots j h k).2 (ap (λ m. (at m).data_slot) same ∙ sym slot) in
      let other : (link_of (at j) == data_of (at 5)) ≡ false = ground (arith, apart) in
      rw other refl

  abbrev Same : ℕ → Type 0
  Same j = logical rebased j ≡ logical t j

  -- The second partition starts where it started.
  second_logical : Same 5
  second_logical =
      let self : (data_of (at 5) == data_of (at 5)) ≡ true = ground arith in
      logical_at rebased (at 5) 5 (st.data_at 5 (omega arith) high)
        (st.slots 5 (omega arith) high).0 (st.live 5 (omega arith) high)
      ∙ rw self (
          ap
            (λ (f : ℕ). some (record {
              first = f;
              sectors = (t.entry (data_of (at 5))).nr_sects;
              type = (t.entry (data_of (at 5))).sys_ind;
            }))
            start_kept)
      ∙ sym (
          logical_at t (at 5) 5 (st.data_at 5 (omega arith) high) (st.slots 5 (omega arith) high).0
            (st.live 5 (omega arith) high))
    where
      start_kept :
          add32 counted.start_sect t.extended_offset
          ≡ add32 (t.entry (data_of (at 5))).start_sect (t.offsets 5)
      start_kept = unfold add32 sub32 in omega arith

  rebased_logical : (j : ℕ) → 4 ≤ j → j < t.partitions → Same j
  rebased_logical j h k = elim (Bool-cases (j == 5)) [
    | inl e ↦ let here : j ≡ 5 = ground arith in rw here second_logical
    | inr e ↦
        let ne : j ≢ 5 = ground arith in
        logical_at rebased (at j) j (st.data_at j h k) (st.slots j h k).0 (st.live j h k)
        ∙ rw (data_kept j h k ne, e) refl
        ∙ sym (logical_at t (at j) j (st.data_at j h k) (st.slots j h k).0 (st.live j h k))
  ]

  abbrev pub result : Table
  result = closed rebased at 4 rebased-IsStored (omega arith) (omega arith)

  abbrev n : ℕ
  n = t.partitions - 1

  next :
      (j : ℕ)
      → 4 ≤ j
      → suc j < n
      → ((rebased.entry (link_of (at (index 4 j)))).sys_ind ≡ extended)
        × (moved_down 4 n rebased.offsets (suc j)
            ≡ add32 t.extended_offset (rebased.entry (link_of (at (index 4 j)))).start_sect)
  next j h k =
      let m = index 4 j in
      let low' : 4 ≤ m = ground arith in
      let high' : suc m < t.partitions = ground arith in
      let there : index 4 (suc j) ≡ suc m = ground arith in
      let later : (suc m == 5) ≡ false = ground arith in
      let (ext, off) = ch.next m low' high' in
      let moves : moved_down 4 n rebased.offsets (suc j) ≡ t.offsets (suc m) =
        moved_down_lem 4 n (suc j) rebased.offsets k ∙ ap rebased.offsets there ∙ rw later refl in
      rw (link_kept m low' (omega (arith, high'))) (ext, moves ∙ off)

  pub result-Without : Without t 4 result
  result-Without = record {
    at = moved rebased at 4 rebased-IsStored (omega arith) (omega arith);
    stored = closed-IsStored rebased at 4 rebased-IsStored (omega arith) (omega arith);
    linked = record {
      first = moved_down_lem 4 n 4 rebased.offsets (omega arith) ∙ refl;
      next = next;
      ends = λ j h k.
          let m = index 4 j in
          let low' : 4 ≤ m = ground arith in
          let last : suc m ≡ t.partitions = ground arith in
          ap (λ (p : Partition). p.sys_ind) (link_kept m low' (omega (arith, last)))
          ∙ ch.ends m low' last;
    };
    one_less = omega arith;
    kept = λ j h k.
        closed-logical rebased at 4 rebased-IsStored (omega arith) (omega arith) j h k
        ∙ rebased_logical (index 4 j) (ground arith) (ground arith);
  }
