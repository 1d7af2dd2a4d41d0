-- ===== src/Fdisk/Reading/Kept.antt =====
-- fdisk.c: what `read_extended` lets be, and the number of partitions.
use mac_fdisk.Base.{
  ℕ, zero, suc, ◌-◌, ◌/◌, ◌≡◌, ◌≤◌, ◌<◌, refl, ◌∙◌, arith, true, false, Option, none, some, ◌==◌,
  Bool-cases, Option-cases, inl, inr,
}
use mac_fdisk.Base.Word.{add32}
use mac_fdisk.Fdisk.Entry.{extended, cleared}
use mac_fdisk.Fdisk.Table.{store, clear_partition, mark}
use mac_fdisk.Fdisk.Reading.{
  Sector, Sectors, Loaded, maximum_parts, appended, follow_links, extended_at, read_from,
  read_extended,
}

module _ {D : Type 0} (v : Sectors D) where
  -- What reading the links lets be.
  pub record Kept (u w : Loaded D) : Type 0 where
    pub disk : w.disk ≡ u.disk
    pub count : u.table.partitions ≤ w.table.partitions
    pub primary : (i : ℕ) → i < 4 → w.table.part_table i ≡ u.table.part_table i
    pub live : (b : ℕ) → w.table.freed b ≡ u.table.freed b
    pub buffer : w.table.buffers 3 ≡ u.table.buffers 3

  Kept-refl : (u : Loaded D) → Kept u u
  Kept-refl u = record {
    disk = refl;
    count = omega arith;
    primary = λ i less. refl;
    live = λ b. refl;
    buffer = refl;
  }

  appended-Kept :
      (x : Sector) (start offset : ℕ) (u : Loaded D)
      → 4 ≤ u.table.partitions
      → Kept u (appended v x start offset u).0
  unfolding appended
  appended-Kept x start offset u four = record {
    disk = refl;
    count = omega (arith, four);
    primary = λ i less.
        let new : (i == u.table.partitions) ≡ false = ground (arith, four, less) in rw new refl;
    live = λ b. refl;
    buffer = let new : (3 == u.table.partitions) ≡ false = ground (arith, four) in rw new refl;
  }

  Kept-trans : (a b c : Loaded D) → Kept a b → Kept b c → Kept a c
  Kept-trans a b c p q = record {
    disk = q.disk ∙ p.disk;
    count = omega (arith, p.count, q.count);
    primary = λ i less. q.primary i less ∙ p.primary i less;
    live = λ x. q.live x ∙ p.live x;
    buffer = q.buffer ∙ p.buffer;
  }

  abbrev pub AllKept : Loaded D → Option (Loaded D) → Type 0
  AllKept u none = Unit
  AllKept u (some w) = Kept u w

  AllKept-trans : (a b : Loaded D) (o : Option (Loaded D)) → Kept a b → AllKept b o → AllKept a o
  AllKept-trans a b none p q = tt
  AllKept-trans a b (some w) p q = Kept-trans a b w p q

  follow_links-Kept :
      (left p : ℕ) (u : Loaded D) → 4 ≤ u.table.partitions → AllKept u (follow_links v left p u)
  unfolding follow_links clear_partition cleared store mark
  follow_links-Kept zero p u four = elim (Bool-cases ((u.table.entry p).sys_ind == extended)) [
    | inr stops ↦ rw stops (Kept-refl u)
    | inl goes ↦ elim (Option-cases (u.table.ext_pointers (u.table.partitions - 1))) [
      | inl wild ↦ rw (goes, wild) tt
      | inr (q, at) ↦ elim (Bool-cases (u.table.freed (q / 4))) [
        | inl gone ↦ rw (goes, at, gone) tt
        | inr here ↦
            rw (goes, at, here)
              (record {
                disk = refl;
                count = omega arith;
                primary = λ i less. refl;
                live = λ b. refl;
                buffer = refl;
              })
      ]
    ]
  ]
  follow_links-Kept (suc left) p u four =
      let q = u.table.entry p in
      let offset = add32 u.table.extended_offset q.start_sect in
      elim (Bool-cases (q.sys_ind == extended)) [
        | inr stops ↦ rw stops (Kept-refl u)
        | inl goes ↦ elim (Option-cases (v.read_sector u.disk offset)) [
          | inl fails ↦ rw (goes, fails) tt
          | inr (x, reads) ↦
              let (longer, link) = appended v x q.start_sect offset u in
              let step = appended-Kept x q.start_sect offset u four in
              rw (goes, reads)
                (AllKept-trans u longer (follow_links v left link longer) step
                  (follow_links-Kept left link longer (omega (arith, four, step.count))))
        ]
      ]

  abbrev pub AllLonger : Loaded D → Option (Loaded D) → Type 0
  AllLonger u none = Unit
  AllLonger u (some w) = u.table.partitions < w.table.partitions

  Kept-Longer :
      (a b : Loaded D) (o : Option (Loaded D))
      → a.table.partitions < b.table.partitions
      → AllKept b o
      → AllLonger a o
  Kept-Longer a b none less k = tt
  Kept-Longer a b (some w) less k = omega (arith, less, k.count)

  -- A link is followed where there is room.
  follow_links-Longer :
      (left p : ℕ) (u : Loaded D)
      → 4 ≤ u.table.partitions
      → ((u.table.entry p).sys_ind == extended) ≡ true
      → AllLonger u (follow_links v (suc left) p u)
  unfolding follow_links appended
  follow_links-Longer left p u four goes =
      let q = u.table.entry p in
      let offset = add32 u.table.extended_offset q.start_sect in
      elim (Option-cases (v.read_sector u.disk offset)) [
        | inl fails ↦ rw (goes, fails) tt
        | inr (x, reads) ↦
            let (longer, link) = appended v x q.start_sect offset u in
            rw (goes, reads)
              (Kept-Longer u longer (follow_links v left link longer) (omega arith)
                (follow_links-Kept left link longer (omega (arith, four))))
      ]

  pub read_extended-Kept :
      (i p : ℕ) (u : Loaded D)
      → u.table.partitions ≡ 4
      → u.table.part_table i ≡ some p
      → ((u.table.entry p).start_sect == 0) ≡ false
      → ((u.table.entry p).sys_ind == extended) ≡ true
      → AllKept u (read_extended v i u) × AllLonger u (read_extended v i u)
  unfolding read_extended read_from
  read_extended-Kept i p u four at begins goes =
      let begin_at = extended_at v i p u in
      let same : Kept u begin_at = record {
        disk = refl;
        count = omega arith;
        primary = λ i less. refl;
        live = λ b. refl;
        buffer = refl;
      } in
      let room : (maximum_parts - u.table.partitions) ≡ suc 55 = omega (arith, four) in
      (
        rw (read_extended, at, read_from, begins)
            (AllKept-trans u begin_at
              (follow_links v (maximum_parts - u.table.partitions) p begin_at) same
              (follow_links-Kept (maximum_parts - u.table.partitions) p begin_at
                (omega (arith, four)))),
        rw (read_extended, at, read_from, begins, room)
            (follow_links-Longer 55 p begin_at (omega (arith, four)) goes),
      )
