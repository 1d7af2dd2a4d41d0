-- ===== src/Fdisk/Table/Delete.antt =====
-- `delete_partition` takes a logical partition out of the chain.
use mac_fdisk.Base.{
  ℕ, suc, ◌/◌, ◌^◌, ◌≡◌, ◌≤◌, ◌<◌, ap, arith, Bool, true, false, Option, some, ◌==◌, ltb, inl, inr,
  Bool-cases,
}
use mac_fdisk.Fdisk.{warn_geometry}
use mac_fdisk.Fdisk.Entry.{Partition}
use mac_fdisk.Fdisk.Table.{Table, assign, deref, mark, drop_entry, delete_logical, delete_partition}
use mac_fdisk.Fdisk.Table.Chain.{Place, link_of, logical, IsStored, IsLinked, Without}
use mac_fdisk.Fdisk.Table.Gap.{close_gap_lem}
use mac_fdisk.Fdisk.Table.Inner
use mac_fdisk.Fdisk.Table.First
use mac_fdisk.Fdisk.Table.Last

-- What the deletion of logical partition `i` has to do.
abbrev pub Deletes : Table → ℕ → Option Table → Type 0
Deletes t i r = (u : Table) × (r ≡ some u) × Without t i u

module _ (t : Table) (at : ℕ → Place) (st : IsStored t at) (ch : IsLinked t at)
    (several : 5 < t.partitions) (small : t.extended_offset < 2 ^ 32) where
  abbrev link : ℕ → Partition
  link i = t.entry (link_of (at i))

  Deletes-inner : (i : ℕ) → 4 < i → suc i < t.partitions → Deletes t i (delete_logical i (link i) t)
  unfolding delete_logical drop_entry
  Deletes-inner i low high =
      let used : ((link i).sys_ind == 0) ≡ false = ground (arith, ch.next i (omega arith) high) in
      let later : ltb 4 i ≡ true = ground arith in
      let more : ltb 5 t.partitions ≡ true = ground arith in
      (
        Inner.result t at i st ch low high,
        rw (delete_logical, used, later, Inner.take_over_link_lem t at i st ch low high, more)
            (ap some (
              close_gap_lem (Inner.relinked t at i st ch low high) at i
                (Inner.relinked-IsStored t at i st ch low high) (omega arith) (omega arith))),
        Inner.result-Without t at i st ch low high,
      )

  Deletes-first : Deletes t 4 (delete_logical 4 (link 4) t)
  unfolding delete_logical drop_entry
  Deletes-first =
      let used : ((link 4).sys_ind == 0) ≡ false =
        ground (arith, ch.next 4 (omega arith) several) in
      let more : ltb 5 t.partitions ≡ true = ground arith in
      (
        First.result t at st ch several small,
        rw (delete_logical, used, First.rebase_lem t at st ch several small, more)
            (ap some (
              close_gap_lem (First.rebased t at st ch several small) at 4
                (First.rebased-IsStored t at st ch several small) (omega arith) (omega arith))),
        First.result-Without t at st ch several small,
      )

  Deletes-last : (i : ℕ) → 4 < i → suc i ≡ t.partitions → Deletes t i (delete_logical i (link i) t)
  unfolding delete_logical
  Deletes-last i low last =
      let unused : ((link i).sys_ind == 0) ≡ true = ground (arith, ch.ends i (omega arith) last) in
      let later : ltb 4 i ≡ true = ground arith in
      (
        Last.result t at i st ch low last,
        rw (delete_logical, unused, later, Last.frees t at i st ch low last)
            (Last.clears t at i st ch low last),
        Last.result-Without t at i st ch low last,
      )

  Deletes-any : (i : ℕ) → 4 ≤ i → i < t.partitions → Deletes t i (delete_logical i (link i) t)
  Deletes-any i low high = elim (Bool-cases (i == 4)) [
    | inl e ↦ let first : i ≡ 4 = ground arith in rw first Deletes-first
    | inr e ↦ elim (Bool-cases (ltb (suc i) t.partitions)) [
      | inl more ↦ Deletes-inner i (ground arith) (ground arith)
      | inr done ↦ Deletes-last i (ground arith) (ground arith)
    ]
  ]

-- The flags of the changed sectors are no part of the chain.
Without-mark :
    (t : Table) (i : ℕ) (u : Table) (c : ℕ → Bool)
    → Without (record t { changed = c }) i u
    → Without t i u
unfolding logical deref
Without-mark t i u c w = record {
  at = w.at;
  stored = w.stored;
  linked = w.linked;
  one_less = w.one_less;
  kept = w.kept;
}

-- On a table with a geometry that is set and a chain of at least two logical partitions, deleting any
-- of them succeeds: a chain is left with one partition less, the others in their order, each with the
-- first sector, the size and the type that it had.
pub delete_partition-Without :
    (t : Table) (at : ℕ → Place)
    → IsStored t at
    → IsLinked t at
    → 5 < t.partitions
    → t.extended_offset < 2 ^ 32
    → warn_geometry t.geometry ≡ false
    → (i : ℕ) → 4 ≤ i
    → i < t.partitions
    → Deletes t i (delete_partition i t)
unfolding delete_partition mark
delete_partition-Without t at st ch several small geometry i low high =
    let n = record t { changed = assign t.changed i true } in
    let primary : ltb i 4 ≡ false = ground arith in
    let b : link_of (at i) / 4 ≡ (at i).buffer = omega (arith, st.slots i low high) in
    let (u, done, w) =
      Deletes-any n at
        (record {
          buffer = st.buffer;
          data_at = st.data_at;
          link_at = st.link_at;
          slots = st.slots;
          distinct = st.distinct;
          live = st.live;
        })
        (record { first = ch.first; next = ch.next; ends = ch.ends }) several small i low high in
    (
      u,
      rw (delete_partition, geometry, primary, st.link_at i low high, deref, b, st.live i low high)
          done,
      Without-mark t i u _ w,
    )
