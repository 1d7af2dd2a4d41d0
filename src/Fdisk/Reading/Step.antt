-- ===== src/Fdisk/Reading/Step.antt =====
-- fdisk.c: one round of the loop of `read_extended`.
use mac_fdisk.Base.{
  ℕ, suc, ◌+◌, ◌-◌, ◌/◌, ◌^◌, ◌≡◌, ◌≢◌, ◌≤◌, ◌<◌, refl, sym, ap, ◌∙◌, subst, arith, true, false,
  none, some, ◌==◌, ==_iff, Bool-cases, inl, inr,
}
use mac_fdisk.Base.Word.{add32}
use mac_fdisk.Fdisk.Entry.{Partition, extended}
use mac_fdisk.Fdisk.Table.{Table, assign}
use mac_fdisk.Fdisk.Table.Chain.{Place, IsStored, data_of, link_of}
use mac_fdisk.Fdisk.Reading.{Sector, Sectors, Loaded, scan_slots, data_slot, link_slot, appended}
use mac_fdisk.Fdisk.Reading.Slots.{scan_slots-Scanned, slots-differ}

-- Where the parts of the partition in a sector are, if it becomes partition `n`.
unfoldable pub place_of : Sector → ℕ → Place
place_of x n =
    let (link, kept) = scan_slots x.slot 0 4 none none in
    let d = data_slot link kept in
    record { buffer = n - 3; data_slot = d; link_slot = link_slot link d }

place_of-slots :
    (x : Sector) (n : ℕ)
    → let s = place_of x n in (s.data_slot < 4) × (s.link_slot < 4) × (s.data_slot ≢ s.link_slot)
unfolding place_of
place_of-slots x n =
    let r = scan_slots x.slot 0 4 none none in
    let ok = scan_slots-Scanned x.slot 0 4 none none (omega arith) tt tt in
    slots-differ x.slot r.0 r.1 ok.0 ok.1

-- The chain up to the link `p`, which is looked at next.
pub record Reaching (t : Table) (at : ℕ → Place) (p : ℕ) : Type 0 where
  pub low : 4 ≤ t.partitions
  pub buffer : (j : ℕ) → 4 ≤ j → j < t.partitions → t.buffers j ≡ some (j - 3)
  pub place : (j : ℕ) → 4 ≤ j → j < t.partitions → (at j).buffer ≡ j - 3
  pub data_at : (j : ℕ) → 4 ≤ j → j < t.partitions → t.part_table j ≡ some (data_of (at j))
  pub link_at : (j : ℕ) → 4 ≤ j → j < t.partitions → t.ext_pointers j ≡ some (link_of (at j))
  pub slots :
      (j : ℕ)
      → 4 ≤ j
      → j < t.partitions
      → ((at j).data_slot < 4) × ((at j).link_slot < 4) × ((at j).data_slot ≢ (at j).link_slot)
  pub live : (b : ℕ) → t.freed b ≡ false
  pub first : 4 < t.partitions → t.offsets 4 ≡ t.extended_offset
  pub begun : 4 < t.partitions → t.extended_offset ≢ 0
  pub next :
      (j : ℕ)
      → 4 ≤ j
      → suc j < t.partitions
      → ((t.entry (link_of (at j))).sys_ind ≡ extended)
        × (t.offsets (suc j) ≡ add32 t.extended_offset (t.entry (link_of (at j))).start_sect)
  pub here : 4 < t.partitions → p ≡ link_of (at (t.partitions - 1))
  pub start :
      t.partitions ≡ 4
      → (t.extended_offset ≡ 0)
        × (p < 4)
        × ((t.entry p).start_sect ≢ 0)
        × ((t.entry p).start_sect < 2 ^ 32)

pub Reaching-IsStored : (t : Table) (at : ℕ → Place) (p : ℕ) → Reaching t at p → IsStored t at
Reaching-IsStored t at p r = record {
  buffer = λ j low high. r.buffer j low high ∙ ap some (sym (r.place j low high));
  data_at = r.data_at;
  link_at = r.link_at;
  slots = r.slots;
  distinct = λ j k jl jh kl kh same. omega (arith, r.place j jl jh, r.place k kl kh, same);
  live = λ j low high. r.live (at j).buffer;
}

module _ {D : Type 0} (v : Sectors D) (u : Loaded D) (at : ℕ → Place) (p : ℕ)
    (r : Reaching u.table at p) (x : Sector) (is_link : (u.table.entry p).sys_ind ≡ extended) where
  abbrev pub n : ℕ
  n = u.table.partitions

  abbrev pub q : Partition
  q = u.table.entry p

  abbrev pub offset : ℕ
  offset = add32 u.table.extended_offset q.start_sect

  abbrev pub t' : Table
  t' = (appended v x q.start_sect offset u).0.table

  abbrev pub at' : ℕ → Place
  at' = assign at n (place_of x n)

  old : (j : ℕ) → j < n → (j == n) ≡ false
  old j h = ground arith

  at'-old : (j : ℕ) → j < n → at' j ≡ at j
  at'-old j h = rw (old j h) refl

  new : (n == n) ≡ true
  new = ground arith

  -- The entries of the older buffers stay.
  entry-old : (k : ℕ) → k / 4 < n - 3 → t'.entry k ≡ u.table.entry k
  unfolding appended
  entry-old k h = let e : (k / 4 == n - 3) ≡ false = ground arith in rw e refl

  pub link-within : (j : ℕ) → 4 ≤ j → j < n → link_of (at j) / 4 < n - 3
  link-within j low high = omega (arith, r.place j low high, r.slots j low high)

  pub p-within : p / 4 < n - 3
  p-within = elim (Bool-cases (n == 4)) [
    | inl e ↦ omega (arith, (==_iff n 4).0 e, r.start ((==_iff n 4).0 e))
    | inr e ↦
        let more : 4 < n = ground (arith, e, r.low) in
        omega (arith, r.here more, link-within (n - 1) (omega arith) (omega arith))
  ]

  -- A statement of every partition, from the older ones and the new one.
  each :
      (P : ℕ → Type 0) → ((j : ℕ) → 4 ≤ j → j < n → P j) → P n → (j : ℕ) → 4 ≤ j → j < n + 1 → P j
  each P older newest j low high = elim (Bool-cases (j == n)) [
    | inl e ↦ subst P (sym ((==_iff j n).0 e)) newest
    | inr e ↦ older j low (ground (arith, e))
  ]

  extended-first : n ≡ 4 → t'.extended_offset ≡ q.start_sect
  unfolding appended
  extended-first e =
      let none_yet : (u.table.extended_offset == 0) ≡ true = ground (arith, r.start e) in
      rw none_yet refl

  extended-later : 4 < n → t'.extended_offset ≡ u.table.extended_offset
  unfolding appended
  extended-later h =
      let known : (u.table.extended_offset == 0) ≡ false = ground (arith, r.begun h) in
      rw known refl

  first-new : t'.offsets 4 ≡ t'.extended_offset
  unfolding appended
  first-new = elim (Bool-cases (n == 4)) [
    | inl e ↦
        let is : n ≡ 4 = (==_iff n 4).0 e in
        let at_n : (4 == n) ≡ true = ground (arith, is) in
        let from_zero : offset ≡ q.start_sect = unfold add32 in (omega (arith, r.start is)) in
        let assigned : t'.offsets 4 ≡ offset = rw at_n refl in
        assigned ∙ from_zero ∙ sym (extended-first is)
    | inr e ↦
        let more : 4 < n = ground (arith, e, r.low) in
        let assigned : t'.offsets 4 ≡ u.table.offsets 4 = rw (old 4 more) refl in
        assigned ∙ r.first more ∙ sym (extended-later more)
  ]

  begun-new : t'.extended_offset ≢ 0
  unfolding appended
  begun-new = elim (Bool-cases (n == 4)) [
    | inl e ↦ let is : n ≡ 4 = (==_iff n 4).0 e in λ z. (r.start is).2 (sym (extended-first is) ∙ z)
    | inr e ↦
        let more : 4 < n = ground (arith, e, r.low) in
        λ z. r.begun more (sym (extended-later more) ∙ z)
  ]

  -- The link of partition `j` to the next one, from its entry in the older table.
  next-new :
      (j : ℕ)
      → 4 ≤ j
      → suc j < n + 1
      → ((u.table.entry (link_of (at j))).sys_ind ≡ extended)
      → t'.offsets (suc j)
        ≡ add32 u.table.extended_offset (u.table.entry (link_of (at j))).start_sect
      → ((t'.entry (link_of (at' j))).sys_ind ≡ extended)
        × (t'.offsets (suc j) ≡ add32 t'.extended_offset (t'.entry (link_of (at' j))).start_sect)
  next-new j low high linked placed =
      let same : t'.entry (link_of (at' j)) ≡ u.table.entry (link_of (at j)) =
        ap (λ (s : Place). t'.entry (link_of s)) (at'-old j (omega arith))
        ∙ entry-old (link_of (at j)) (link-within j low (omega arith)) in
      (
        ap (λ (e : Partition). e.sys_ind) same ∙ linked,
        placed
            ∙ ap (λ (o : ℕ). add32 o (u.table.entry (link_of (at j))).start_sect)
                (sym (extended-later (omega arith)))
            ∙ ap (λ (e : Partition). add32 t'.extended_offset e.start_sect) (sym same),
      )

  next-all :
      (j : ℕ)
      → 4 ≤ j
      → suc j < n + 1
      → ((t'.entry (link_of (at' j))).sys_ind ≡ extended)
        × (t'.offsets (suc j) ≡ add32 t'.extended_offset (t'.entry (link_of (at' j))).start_sect)
  unfolding appended
  next-all j low high = elim (Bool-cases (suc j == n)) [
    | inl e ↦
        let is : suc j ≡ n = (==_iff (suc j) n).0 e in
        let link : p ≡ link_of (at j) =
          r.here (omega arith) ∙ ap (λ (k : ℕ). link_of (at k)) (omega arith) in
        let assigned : t'.offsets (suc j) ≡ offset = rw e refl in
        next-new j low high (ap (λ (k : ℕ). (u.table.entry k).sys_ind) (sym link) ∙ is_link) (
          assigned
          ∙ ap (λ (k : ℕ). add32 u.table.extended_offset (u.table.entry k).start_sect) link)
    | inr e ↦
        let before : suc j < n = ground (arith, e) in
        let assigned : t'.offsets (suc j) ≡ u.table.offsets (suc j) = rw e refl in
        let linked = r.next j low before in next-new j low high linked.0 (assigned ∙ linked.1)
  ]

  last_place : (appended v x q.start_sect offset u).1 ≡ link_of (at' (n + 1 - 1))
  unfolding appended place_of
  last_place = let e : (n + 1 - 1 == n) ≡ true = ground arith in rw e refl

  pub appended-Reaching : Reaching t' at' (appended v x q.start_sect offset u).1
  unfolding appended place_of
  appended-Reaching = record {
    low = omega (arith, r.low);
    buffer =
        each (λ j. t'.buffers j ≡ some (j - 3)) (λ j l h. rw (old j h) (r.buffer j l h))
          (rw new refl);
    place =
        each (λ j. (at' j).buffer ≡ j - 3) (λ j l h. rw (old j h) (r.place j l h)) (rw new refl);
    data_at =
        each (λ j. t'.part_table j ≡ some (data_of (at' j)))
          (λ j l h. rw (old j h) (r.data_at j l h)) (rw new refl);
    link_at =
        each (λ j. t'.ext_pointers j ≡ some (link_of (at' j)))
          (λ j l h. rw (old j h) (r.link_at j l h)) (rw new refl);
    slots =
        each
          (λ j.
            ((at' j).data_slot < 4)
            × ((at' j).link_slot < 4)
            × ((at' j).data_slot ≢ (at' j).link_slot))
          (λ j l h. rw (old j h) (r.slots j l h)) (rw new (place_of-slots x n));
    live = r.live;
    first = λ h. first-new;
    begun = λ h. begun-new;
    next = next-all;
    here = λ h. last_place;
    start = λ h. absurd (omega (arith, r.low));
  }
