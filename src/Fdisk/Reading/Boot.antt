-- ===== src/Fdisk/Reading/Boot.antt =====
-- fdisk.c: `get_boot` as a whole.
use mac_fdisk.Base.{
  ℕ, zero, suc, ◌+◌, ◌-◌, ◌/◌, ◌%◌, ◌^◌, ◌≡◌, ◌≤◌, ◌<◌, refl, sym, ap, ◌∙◌, subst, arith, true,
  false, some, ◌==◌, ==_iff, if◌then◌else◌, Bool-cases, Option-cases, inl, inr, ◌⊎◌,
}
use mac_fdisk.Fdisk.{Geometry, update_units}
use mac_fdisk.Fdisk.Entry.{extended}
use mac_fdisk.Fdisk.Table.{Table, assign, deref}
use mac_fdisk.Fdisk.Table.Chain.{Place}
use mac_fdisk.Fdisk.Reading.{
  Sector, Sectors, Loaded, extended_at, read_from, read_extended, find_extended, with_geometry,
  loaded, loaded_entries, get_boot,
}
use mac_fdisk.Fdisk.Reading.Chained.{Chained, read_extended-Chained}
use mac_fdisk.Fdisk.Reading.Flags.{none-Chained, check_flags-Chained}
use mac_fdisk.Fdisk.Reading.Kept.{Kept, AllKept, AllLonger, read_extended-Kept}

module _ {D : Type 0} (v : Sectors D) (d : D)
    (readable : (s : ℕ) → (x : Sector) × (v.read_sector d s ≡ some x)) where
  -- No extended partition was read so far.
  record IsShort (t : Table) : Type 0 where
    four : t.partitions ≡ 4
    none_yet : t.extended_offset ≡ 0
    starts : (k : ℕ) → k < 4 → (t.entry k).start_sect < 2 ^ 32

  abbrev Long : Table → Type 0
  Long t = (4 < t.partitions) × (at : ℕ → Place) × Chained t at

  record Ready (u : Loaded D) : Type 0 where
    disk : u.disk ≡ d
    primary : (i : ℕ) → i < 4 → u.table.part_table i ≡ some i
    live : (b : ℕ) → u.table.freed b ≡ false
    buffer : u.table.buffers 3 ≡ some 0
    found : IsShort u.table ⊎ Long u.table

  -- An extended partition is read.
  read-Ready :
      (i : ℕ) (u : Loaded D)
      → i < 4
      → Ready u
      → IsShort u.table
      → ((u.table.entry i).sys_ind == extended) ≡ true
      → (w : Loaded D) × (read_extended v i u ≡ some w) × Ready w
  unfolding read_extended read_from
  read-Ready i u less r short goes = elim (Bool-cases ((u.table.entry i).start_sect == 0)) [
    | inl empty ↦ (
      extended_at v i i u,
      rw (read_extended, r.primary i less, read_from, empty) refl,
      record {
        disk = r.disk;
        primary = r.primary;
        live = r.live;
        buffer = r.buffer;
        found =
            inl (record { four = short.four; none_yet = short.none_yet; starts = short.starts });
      },
    )
    | inr begins ↦
        let (w, at, ends, chain) =
          read_extended-Chained v d readable i i u r.disk short.four short.none_yet r.live
            (r.primary i less) less (ground (arith, begins)) (short.starts i less) in
        let (kept, longer) = read_extended-Kept v i i u short.four (r.primary i less) begins goes in
        let same : Kept v u w = subst (AllKept v u) ends kept in
        let more : u.table.partitions < w.table.partitions = subst (AllLonger v u) ends longer in
        (
          w,
          ends,
          record {
            disk = same.disk ∙ r.disk;
            primary = λ j l. same.primary j l ∙ r.primary j l;
            live = λ b. same.live b ∙ r.live b;
            buffer = same.buffer ∙ r.buffer;
            found = inr (omega (arith, short.four, more), at, chain);
          },
        )
  ]

  find_extended-Ready :
      (i k : ℕ) (u : Loaded D)
      → i + k ≡ 4
      → Ready u
      → (w : Loaded D) × (find_extended v i k u ≡ some w) × Ready w
  unfolding find_extended deref
  find_extended-Ready i zero u sum r = (u, refl, r)
  find_extended-Ready i (suc k) u sum r =
      let less : i < 4 = omega (arith, sum) in
      let skip = find_extended-Ready (suc i) k u (omega (arith, sum)) r in
      elim (Bool-cases ((u.table.entry i).sys_ind == extended)) [
        | inr other ↦
            let (w, ends, ok) = skip in
            (w, rw (find_extended, r.primary i less, deref, r.live (i / 4), other) ends, ok)
        | inl goes ↦ elim r.found [
          | inr (long, at, chain) ↦
              let many : (u.table.partitions == 4) ≡ false = ground (arith, long) in
              let (w, ends, ok) = skip in
              (w, rw (find_extended, r.primary i less, deref, r.live (i / 4), goes, many) ends, ok)
          | inl short ↦
              let few : (u.table.partitions == 4) ≡ true = ground (arith, short.four) in
              let (w, reads, ready) = read-Ready i u less r short goes in
              let (z, ends, ok) = find_extended-Ready (suc i) k w (omega (arith, sum)) ready in
              (
                z,
                rw (find_extended, r.primary i less, deref, r.live (i / 4), goes, few, reads) ends,
                ok,
              )
        ]
      ]

  Ready-stored :
      (u : Loaded D) (at : ℕ → Place)
      → Ready u
      → Chained u.table at
      → (j : ℕ) → 3 ≤ j
      → j < 3 + (u.table.partitions - 3)
      → (b : ℕ) × (u.table.buffers j ≡ some b)
  Ready-stored u at r c j low high = elim (Bool-cases (j == 3)) [
    | inl first ↦ (0, ap u.table.buffers ((==_iff j 3).0 first) ∙ r.buffer)
    | inr other ↦
        ((at j).buffer, c.stored.buffer j (ground (arith, low, other)) (omega (arith, high, c.low)))
  ]

  Ready-Chained : (u : Loaded D) → Ready u → (at : ℕ → Place) × Chained u.table at
  Ready-Chained u r = elim r.found [
    | inl short ↦
        let at : ℕ → Place = λ j. record { buffer = j - 3; data_slot = 0; link_slot = 1 } in
        (at, none-Chained u.table at short.four)
    | inr (long, at, chain) ↦ (at, chain)
  ]

  with_geometry-same :
      (e : D) (t : Table)
      → (g : Geometry) × (o : ℕ) × (with_geometry v e t
          ≡ record t { geometry = g; sector_offset = o })
  unfolding with_geometry
  with_geometry-same e t = elim (Option-cases (v.get_geo e)) [
    | inl unknown ↦ (update_units t.geometry, t.sector_offset, rw (with_geometry, unknown) refl)
    | inr ((h, s, c), known) ↦ (
      update_units (record t.geometry { heads = h; sectors = s; cylinders = c }),
      (if t.dos_compatible then s else t.sector_offset),
      rw (with_geometry, known) refl,
    )
  ]

  -- The state in which `get_boot` looks for an extended partition.
  loaded-Ready :
      (u : Loaded D) (x : Sector)
      → u.disk ≡ d
      → ((i : ℕ) → i < 4 → u.table.part_table i ≡ some i)
      → ((b : ℕ) → u.table.freed b ≡ false)
      → u.table.buffers 3 ≡ some 0
      → u.table.extended_offset ≡ 0
      → ((k : ℕ) → k < 4 → (x.slot k).start_sect < 2 ^ 32)
      → Ready (loaded v x u)
  unfolding with_geometry
  loaded-Ready u x same primary live buffer none_yet small =
      let starts : (k : ℕ) → k < 4 → (loaded_entries 0 x.slot u.table.entry k).start_sect < 2 ^ 32 =
        λ k less.
          let front : (k / 4 == 0) ≡ true = ground (arith, less) in
          rw front (small (k % 4) (omega arith)) in
      let t = record u.table { partitions = 4; entry = loaded_entries 0 x.slot u.table.entry } in
      let (g, o, is) = with_geometry-same u.disk t in
      let with_table : Table → Loaded D = λ (t' : Table). record u {
        table = t';
        code = assign u.code 0 x.code;
        flag = assign u.flag 0 x.flag;
      } in
      subst (λ (t' : Table). Ready (with_table t')) (sym is)
        (record {
          disk = same;
          primary = primary;
          live = live;
          buffer = buffer;
          found = inl (record { four = refl; none_yet = none_yet; starts = starts });
        })

  -- On a disk that can be read, with the globals as the program starts with them, `get_boot` returns,
  -- whatever stands on the disk: the logical partitions it finds form a chain, and there are at most 60
  -- partitions.
  pub get_boot-Chained :
      (u : Loaded D)
      → u.disk ≡ d
      → ((i : ℕ) → i < 4 → u.table.part_table i ≡ some i)
      → ((b : ℕ) → u.table.freed b ≡ false)
      → u.table.buffers 3 ≡ some 0
      → u.table.extended_offset ≡ 0
      → ((x : Sector) (k : ℕ) → v.read_sector d 0 ≡ some x → (x.slot k).start_sect < 2 ^ 32)
      → (w : Loaded D) × (at : ℕ → Place) × (get_boot v u ≡ some w) × Chained w.table at
  unfolding get_boot
  get_boot-Chained u same primary live buffer none_yet small =
      let (x, reads) = readable 0 in
      let reads' = ap (λ (o : D). v.read_sector o 0) same ∙ reads in
      let ready = loaded-Ready u x same primary live buffer none_yet (λ k less. small x k reads) in
      let (y, found, ok) = find_extended-Ready 0 4 (loaded v x u) refl ready in
      let (at, chain) = Ready-Chained y ok in
      let (w, ends, kept) =
        check_flags-Chained v 3 (y.table.partitions - 3) y at (Ready-stored y at ok chain) chain in
      (w, at, rw (get_boot, reads', found) ends, kept)
