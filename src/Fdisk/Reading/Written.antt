-- ===== src/Fdisk/Reading/Written.antt =====
-- fdisk.c: `write_table` on a disk that takes every write.
use mac_fdisk.Base.{
  ℕ, zero, suc, ◌+◌, ◌-◌, ◌≡◌, ◌≢◌, ◌≤◌, ◌<◌, refl, arith, true, ◌||◌, some, Bool-cases, inl, inr,
}
use mac_fdisk.Fdisk.Table.{assign}
use mac_fdisk.Fdisk.Reading.{
  Sector, Sectors, Loaded, part_table_flag, as_written, write_changed, write_table,
}
use mac_fdisk.Fdisk.Reading.Frame.{IsFaithful, ToWrite, write_table-written}

module _ {D : Type 0} (v : Sectors D) (faithful : IsFaithful v)
    (writable : (e : D) (s : ℕ) (x : Sector) → (e' : D) × (v.write_sector e s x ≡ some e')) where
  write_changed-returns :
      (i n : ℕ) (u : Loaded D)
      → ((j : ℕ)
          → i ≤ j
          → j < i + n
          → u.table.changed j ≡ true
          → (b : ℕ) × (u.table.buffers j ≡ some b))
      → (w : Loaded D) × (write_changed v i n u ≡ some w)
  unfolding write_changed
  write_changed-returns i zero u stored = (u, refl)
  write_changed-returns i (suc n) u stored = elim (Bool-cases (u.table.changed i)) [
    | inr clean ↦
        let (w, ends) =
          write_changed-returns (suc i) n u
            (λ j low high. stored j (omega (arith, low)) (omega (arith, high))) in
        (w, rw clean ends)
    | inl marked ↦
        let (b, at) = stored i (omega arith) (omega arith) marked in
        let (d, wrote) = writable u.disk (u.table.offsets i) (as_written v u b) in
        let (w, ends) =
          write_changed-returns (suc i) n
            (record u { disk = d; flag = assign u.flag b part_table_flag })
            (λ j low high. stored j (omega (arith, low)) (omega (arith, high))) in
        (w, rw (marked, at, wrote) ends)
  ]

  -- Where every write succeeds and every marked partition has a buffer, and the sectors of the marked
  -- partitions differ, `write_table` writes: each of these sectors then holds the entries and the code
  -- of its buffer with the flag 0xaa55, and every sector that is none of them is as it was.
  pub write_table-writes :
      (u : Loaded D)
      → 4 ≤ u.table.partitions
      → ((i : ℕ) → ToWrite u i → (b : ℕ) × (u.table.buffers i ≡ some b))
      → ((i j : ℕ) → ToWrite u i → ToWrite u j → i < j → u.table.offsets j ≢ u.table.offsets i)
      → (w : Loaded D) × (write_table v u ≡ some w)
        × ((i : ℕ)
            → ToWrite u i
            → (b : ℕ) × (u.table.buffers i ≡ some b)
              × (v.read_sector w.disk (u.table.offsets i) ≡ some (as_written v u b)))
        × ((s : ℕ)
            → ((i : ℕ) → ToWrite u i → u.table.offsets i ≢ s)
            → v.read_sector w.disk s ≡ v.read_sector u.disk s)
  unfolding write_table
  write_table-writes u four stored apart =
      let c = u.table.changed in
      let any = c 0 || (c 1 || (c 2 || c 3)) in
      let t = record u.table { changed = assign c 3 any } in
      let (w, ends) =
        write_changed-returns 3 (u.table.partitions - 3) (record u { table = t })
          (λ j low high marked. stored j (low, omega (arith, high, four), marked)) in
      let (own, other) = write_table-written v faithful u w four ends apart in (w, ends, own, other)
