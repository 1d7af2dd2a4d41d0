-- ===== src/Fdisk/Reading/Chained.antt =====
-- The chain that `read_extended` finds.
use mac_fdisk.Base.{
  ℕ, zero, suc, ◌+◌, ◌-◌, ◌/◌, ◌^◌, ◌≡◌, ◌≢◌, ◌≤◌, ◌<◌, refl, sym, ap, ◌∙◌, arith, true, false,
  some, ◌==◌, ==_iff, Bool-cases, inl, inr,
}
use mac_fdisk.Base.Word.{add32}
use mac_fdisk.Fdisk.Entry.{extended, cleared}
use mac_fdisk.Fdisk.Table.{Table, assign, store, clear_partition, mark}
use mac_fdisk.Fdisk.Table.Chain.{Place, IsStored, link_of}
use mac_fdisk.Fdisk.Reading.{
  Sector, Sectors, Loaded, maximum_parts, appended, follow_links, read_extended, read_from,
  extended_at,
}
use mac_fdisk.Fdisk.Reading.Step.{Reaching, Reaching-IsStored, place_of, appended-Reaching}

-- The logical partitions of a table: each stored in a sector of its own, and with a link that leads to
-- the next one; the link of the last leads to none.
pub record Chained (t : Table) (at : ℕ → Place) : Type 0 where
  pub low : 4 ≤ t.partitions
  pub high : t.partitions ≤ maximum_parts
  pub stored : IsStored t at
  pub first : 4 < t.partitions → t.offsets 4 ≡ t.extended_offset
  pub next :
      (j : ℕ)
      → 4 ≤ j
      → suc j < t.partitions
      → ((t.entry (link_of (at j))).sys_ind ≡ extended)
        × (t.offsets (suc j) ≡ add32 t.extended_offset (t.entry (link_of (at j))).start_sect)
  pub ends : (j : ℕ) → 4 ≤ j → suc j ≡ t.partitions → (t.entry (link_of (at j))).sys_ind ≢ extended

Reaching-Chained :
    (t : Table) (at : ℕ → Place) (p : ℕ)
    → Reaching t at p
    → t.partitions ≤ maximum_parts
    → (t.entry p).sys_ind ≢ extended
    → Chained t at
Reaching-Chained t at p r high last = record {
  low = r.low;
  high = high;
  stored = Reaching-IsStored t at p r;
  first = r.first;
  next = r.next;
  ends = λ j low is e.
      let link : p ≡ link_of (at j) =
        r.here (omega arith) ∙ ap (λ (k : ℕ). link_of (at k)) (omega arith) in
      last (ap (λ (k : ℕ). (t.entry k).sys_ind) link ∙ e);
}

-- The table in which the last link is cleared.
abbrev cut_table : Table → ℕ → Table
cut_table t p = record t {
  entry = assign t.entry p cleared;
  changed = assign t.changed (t.partitions - 1) true;
}

cut-Chained :
    (t : Table) (at : ℕ → Place) (p : ℕ)
    → Reaching t at p
    → t.partitions ≡ maximum_parts
    → Chained (cut_table t p) at
unfolding cleared
cut-Chained t at p r full = record {
  low = r.low;
  high = omega arith;
  stored = record {
    buffer = st.buffer;
    data_at = st.data_at;
    link_at = st.link_at;
    slots = st.slots;
    distinct = st.distinct;
    live = st.live;
  };
  first = r.first;
  next = λ j low high.
      let here = r.here (omega arith) in
      let last = t.partitions - 1 in
      let apart : link_of (at j) ≢ p = λ same. omega (
        arith,
        same,
        here,
        r.place j low (omega arith),
        r.slots j low (omega arith),
        r.place last (omega arith) (omega arith),
        r.slots last (omega arith) (omega arith),
      ) in
      let other : (link_of (at j) == p) ≡ false = ground (arith, apart) in
      rw other (r.next j low high);
  ends = λ j low is e.
      let here = r.here (omega arith) in
      let link : link_of (at j) ≡ p = ap (λ (k : ℕ). link_of (at k)) (omega arith) ∙ sym here in
      let own : (link_of (at j) == p) ≡ true = ground (arith, link) in
      let gone : (assign t.entry p cleared (link_of (at j))).sys_ind ≡ 0 = rw own refl in
      absurd (omega (arith, gone, e));
}
  where
    st : IsStored t at
    st = Reaching-IsStored t at p r

module _ {D : Type 0} (v : Sectors D) (d : D)
    (readable : (s : ℕ) → (x : Sector) × (v.read_sector d s ≡ some x)) where
  appended-disk :
      (x : Sector) (start offset : ℕ) (u : Loaded D) → (appended v x start offset u).0.disk ≡ u.disk
  unfolding appended
  appended-disk x start offset u = refl

  appended-partitions :
      (x : Sector) (start offset : ℕ) (u : Loaded D)
      → (appended v x start offset u).0.table.partitions ≡ u.table.partitions + 1
  unfolding appended
  appended-partitions x start offset u = refl

  -- The loop ends: where it would pass 60 partitions it cuts the chain.
  follow_links-Chained :
      (left p : ℕ) (u : Loaded D) (at : ℕ → Place)
      → u.disk ≡ d
      → u.table.partitions + left ≡ maximum_parts
      → (left ≡ 0 → 4 < u.table.partitions)
      → Reaching u.table at p
      → (w : Loaded D) × (at' : ℕ → Place) × (follow_links v left p u ≡ some w)
        × Chained w.table at'
  unfolding follow_links clear_partition cleared store mark
  follow_links-Chained zero p u at same room left r =
      elim (Bool-cases ((u.table.entry p).sys_ind == extended)) [
        | inr stops ↦ (
          u,
          at,
          rw stops refl,
          Reaching-Chained u.table at p r (omega arith) (ground (arith, stops)),
        )
        | inl goes ↦
            let n = u.table.partitions in
            let here = r.here (omega arith) in
            let pointer : u.table.ext_pointers (n - 1) ≡ some p =
              r.link_at (n - 1) (omega arith) (omega arith) ∙ ap some (sym here) in
            (
              record u { table = cut_table u.table p },
              at,
              rw (goes, pointer, clear_partition, store, r.live (p / 4)) refl,
              cut-Chained u.table at p r (omega arith),
            )
      ]
  follow_links-Chained (suc left) p u at same room more r =
      elim (Bool-cases ((u.table.entry p).sys_ind == extended)) [
        | inr stops ↦ (
          u,
          at,
          rw stops refl,
          Reaching-Chained u.table at p r (omega arith) (ground (arith, stops)),
        )
        | inl goes ↦
            let q = u.table.entry p in
            let offset = add32 u.table.extended_offset q.start_sect in
            let (x, reads) = readable offset in
            let is_link = (==_iff q.sys_ind extended).0 goes in
            let longer = appended-Reaching v u at p r x is_link in
            let n = u.table.partitions in
            let count = appended-partitions x q.start_sect offset u in
            let reads' = ap (λ (o : D). v.read_sector o offset) same ∙ reads in
            let (w, at', ends, chain) =
              follow_links-Chained left (appended v x q.start_sect offset u).1
                (appended v x q.start_sect offset u).0 (assign at n (place_of x n))
                (appended-disk x q.start_sect offset u ∙ same) (omega (arith, count))
                (λ z. omega (arith, count, r.low)) longer in
            (w, at', rw (goes, reads') ends, chain)
      ]

  -- On a disk that can be read, with four partitions in the table, no extended partition read before
  -- and no buffer freed, for an entry of the first sector that begins at a sector other than 0 and
  -- below 2^32: `read_extended` ends, also where the links run in a circle, with at most 60
  -- partitions, of which the logical ones form a chain: each has its entry and its link in a buffer
  -- of its own, the first begins with the extended partition, every link but the last leads to the
  -- next one, and the last one leads to none.
  pub read_extended-Chained :
      (i p : ℕ) (u : Loaded D)
      → u.disk ≡ d
      → u.table.partitions ≡ 4
      → u.table.extended_offset ≡ 0
      → ((b : ℕ) → u.table.freed b ≡ false)
      → u.table.part_table i ≡ some p
      → p < 4
      → (u.table.entry p).start_sect ≢ 0
      → (u.table.entry p).start_sect < 2 ^ 32
      → (w : Loaded D) × (at : ℕ → Place) × (read_extended v i u ≡ some w) × Chained w.table at
  unfolding read_extended read_from
  read_extended-Chained i p u same four none_yet live at_p low begins small =
      let t = u.table in
      let begins' : ((t.entry p).start_sect == 0) ≡ false = ground (arith, begins) in
      let begin_at = extended_at v i p u in
      let follows : read_extended v i u ≡ follow_links v (maximum_parts - t.partitions) p begin_at =
        rw (read_extended, at_p, read_from, begins') refl in
      let (w, at, ends, chain) =
        follow_links-Chained (maximum_parts - t.partitions) p begin_at
          (λ j. record { buffer = j - 3; data_slot = 0; link_slot = 1 }) same (omega (arith, four))
          (λ z. absurd (omega (arith, four)))
          (record {
            low = omega (arith, four);
            buffer = λ j l h. absurd (omega (arith, four));
            place = λ j l h. absurd (omega (arith, four));
            data_at = λ j l h. absurd (omega (arith, four));
            link_at = λ j l h. absurd (omega (arith, four));
            slots = λ j l h. absurd (omega (arith, four));
            live = live;
            first = λ h. absurd (omega (arith, four));
            begun = λ h. absurd (omega (arith, four));
            next = λ j l h. absurd (omega (arith, four));
            here = λ h. absurd (omega (arith, four));
            start = λ e. (none_yet, low, begins, small);
          }) in
      (w, at, follows ∙ ends, chain)
