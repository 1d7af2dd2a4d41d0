-- ===== src/Fdisk/Table/Last.antt =====
-- `delete_partition` for the last of several logical partitions.
use mac_fdisk.Base.{
  ℕ, suc, ◌-◌, ◌/◌, ◌≡◌, ◌≤◌, ◌<◌, ◌∙◌, ap, sym, refl, arith, true, false, some, ◌==◌,
}
use mac_fdisk.Base.Word.{add32}
use mac_fdisk.Fdisk.Entry.{Partition, cleared}
use mac_fdisk.Fdisk.Table.{Table, assign, store, clear_partition, free_buffer}
use mac_fdisk.Fdisk.Table.Chain.{logical, Place, link_of, IsStored, IsLinked, Without}
use mac_fdisk.Fdisk.Table.Gap.{overwritten_data, overwritten_link, logical_at}

module _ (t : Table) (at : ℕ → Place) (i : ℕ) (st : IsStored t at) (ch : IsLinked t at)
    (low : 4 < i) (last : suc i ≡ t.partitions) where
  abbrev behind : ℕ
  behind = link_of (at (i - 1))

  abbrev shorter : Table
  shorter = record t { freed = assign t.freed (at i).buffer true; partitions = t.partitions - 1 }

  abbrev pub result : Table
  result = record shorter { entry = assign t.entry behind cleared }

  pub frees : record (free_buffer (t.partitions - 1) t) { partitions = t.partitions - 1 } ≡ shorter
  unfolding free_buffer
  frees =
      let e : t.partitions - 1 ≡ i = omega arith in
      rw (free_buffer, e, st.buffer i (omega arith) (omega arith)) refl

  still_live : (j : ℕ) → 4 ≤ j → j < i → shorter.freed (at j).buffer ≡ false
  still_live j h k =
      let other : ((at j).buffer == (at i).buffer) ≡ false =
        ground (arith, st.distinct j i h (omega arith) (omega arith) (omega arith)) in
      rw other (st.live j h (omega arith))

  pub clears : clear_partition (t.ext_pointers (i - 1)) shorter ≡ some result
  unfolding clear_partition store cleared
  clears =
      let b : behind / 4 ≡ (at (i - 1)).buffer =
        omega (arith, st.slots (i - 1) (omega arith) (omega arith)) in
      rw
        (
          clear_partition,
          st.link_at (i - 1) (omega arith) (omega arith),
          store,
          b,
          still_live (i - 1) (omega arith) (omega arith),
        )
        refl

  stored : IsStored result at
  stored = record {
    buffer = λ j h k. st.buffer j h (omega arith);
    data_at = λ j h k. st.data_at j h (omega arith);
    link_at = λ j h k. st.link_at j h (omega arith);
    slots = λ j h k. st.slots j h (omega arith);
    distinct = λ j k h p q r. st.distinct j k h (omega arith) q (omega arith);
    live = λ j h k. still_live j h (omega arith);
  }

  link_kept : (j : ℕ) → 4 ≤ j → suc j < i → result.entry (link_of (at j)) ≡ t.entry (link_of (at j))
  link_kept j h k =
      overwritten_link t at st (i - 1) cleared (omega arith) (omega arith) j h (omega arith)
        (omega arith)

  kept : (j : ℕ) → 4 ≤ j → j < i → logical result j ≡ logical t j
  kept j h k =
      logical_at result (at j) j (st.data_at j h (omega arith)) (st.slots j h (omega arith)).0
        (still_live j h k)
      ∙ ap
          (λ (p : Partition). some (record {
            first = add32 p.start_sect (t.offsets j);
            sectors = p.nr_sects;
            type = p.sys_ind;
          }))
          (overwritten_data t at st (i - 1) cleared (omega arith) (omega arith) j h (omega arith))
      ∙ sym (
          logical_at t (at j) j (st.data_at j h (omega arith)) (st.slots j h (omega arith)).0
            (st.live j h (omega arith)))

  cleared_end : (j : ℕ) → suc j ≡ i → (result.entry (link_of (at j))).sys_ind ≡ 0
  unfolding cleared
  cleared_end j e =
      let here : j ≡ i - 1 = omega arith in
      let self : (behind == behind) ≡ true = ground arith in rw (here, self) refl

  pub result-Without : Without t i result
  result-Without = record {
    at = at;
    stored = stored;
    linked = record {
      first = ch.first;
      next = λ j h k.
          let (ext, off) = ch.next j h (omega arith) in rw (link_kept j h (omega arith)) (ext, off);
      ends = λ j h k. cleared_end j (omega arith);
    };
    one_less = omega arith;
    kept = λ j h k. kept j h (omega arith) ∙ ap (logical t) (ground arith);
  }
