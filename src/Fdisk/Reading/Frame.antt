-- ===== src/Fdisk/Reading/Frame.antt =====
-- The sectors that `write_table` writes.
use mac_fdisk.Base.{
  ℕ, zero, suc, ◌+◌, ◌-◌, ◌≡◌, ◌≢◌, ◌≤◌, ◌<◌, refl, sym, ap, ◌∙◌, arith, true, false, ◌||◌, Option,
  none, some, ◌==◌, ==_iff, if◌then◌else◌, Bool-cases, Option-cases, inl, inr, ◌⊎◌,
}
use mac_fdisk.Fdisk.Table.{assign}
use mac_fdisk.Fdisk.Reading.{
  Sector, Sectors, Loaded, part_table_flag, as_written, write_changed, write_table,
}

-- What a disk is taken to do: a sector that was written is read back, and the others stay.
pub record IsFaithful {D : Type 0} (v : Sectors D) : Type 0 where
  pub read-write :
      (d e : D) (s : ℕ) (x : Sector)
      → v.write_sector d s x ≡ some e
      → (r : ℕ) → v.read_sector e r ≡ (if r == s then some x else v.read_sector d r)

-- Partition `i` has to be written: a mark on one of the first four stands for their common sector.
abbrev pub ToWrite : {D : Type 0} → Loaded D → ℕ → Type 0
ToWrite u i =
    (3 ≤ i)
    × (i < u.table.partitions)
    × ((if i == 3
          then u.table.changed 0 || (u.table.changed 1 || (u.table.changed 2 || u.table.changed 3))
          else u.table.changed i)
        ≡ true)

module _ {D : Type 0} (v : Sectors D) (faithful : IsFaithful v) where
  abbrev pub Marked : Loaded D → ℕ → Type 0
  Marked u j = u.table.changed j ≡ true

  -- No marked partition from `i` on, `n` of them, has its table at sector `s`.
  abbrev Avoids : Loaded D → ℕ → ℕ → ℕ → Type 0
  Avoids u i n s = (j : ℕ) → i ≤ j → j < i + n → Marked u j → u.table.offsets j ≢ s

  abbrev disk_or : D → Option (Loaded D) → D
  disk_or d none = d
  disk_or d (some u) = u.disk

  -- One round: partition `i` is passed over, or its buffer is written.
  abbrev pub wrote_one : Loaded D → ℕ → D → Loaded D
  wrote_one u b d = record u { disk = d; flag = assign u.flag b part_table_flag }

  abbrev Passed : ℕ → ℕ → Loaded D → Loaded D → Type 0
  Passed i n u w = (u.table.changed i ≡ false) × (write_changed v (suc i) n u ≡ some w)

  abbrev Wrote : ℕ → ℕ → Loaded D → Loaded D → Type 0
  Wrote i n u w =
      (b : ℕ) × (d : D) × Marked u i
      × (u.table.buffers i ≡ some b)
      × (v.write_sector u.disk (u.table.offsets i) (as_written v u b) ≡ some d)
      × (write_changed v (suc i) n (wrote_one u b d) ≡ some w)

  write_changed-round :
      (i n : ℕ) (u w : Loaded D)
      → write_changed v i (suc n) u ≡ some w
      → Passed i n u w ⊎ Wrote i n u w
  unfolding write_changed
  write_changed-round i n u w h = elim (Bool-cases (u.table.changed i)) [
    | inr clean ↦
        let step : write_changed v i (suc n) u ≡ write_changed v (suc i) n u =
          rw (write_changed, clean) refl in
        inl (clean, sym step ∙ h)
    | inl marked ↦ elim (Option-cases (u.table.buffers i)) [
      | inl wild ↦
          let step : write_changed v i (suc n) u ≡ none = rw (write_changed, marked, wild) refl in
          absurd (cc (sym step ∙ h))
      | inr (b, at) ↦
          elim (Option-cases (v.write_sector u.disk (u.table.offsets i) (as_written v u b))) [
            | inl fails ↦
                let step : write_changed v i (suc n) u ≡ none =
                  rw (write_changed, marked, at, fails) refl in
                absurd (cc (sym step ∙ h))
            | inr (d, wrote) ↦
                let step : write_changed v i (suc n) u
                    ≡ write_changed v (suc i) n (wrote_one u b d) =
                  rw (write_changed, marked, at, wrote) refl in
                inr (b, d, marked, at, wrote, sym step ∙ h)
          ]
    ]
  ]

  write_changed-other :
      (i n : ℕ) (u w : Loaded D) (s : ℕ)
      → write_changed v i n u ≡ some w
      → Avoids u i n s
      → v.read_sector w.disk s ≡ v.read_sector u.disk s
  unfolding write_changed
  write_changed-other i zero u w s h avoids =
      ap (λ (d : D). v.read_sector d s) (sym (ap (disk_or u.disk) h))
  write_changed-other i (suc n) u w s h avoids =
      let later =
        λ (j : ℕ) (low : suc i ≤ j) (high : j < suc i + n). avoids j (omega arith) (omega arith) in
      elim (write_changed-round i n u w h) [
        | inl (clean, rest) ↦ write_changed-other (suc i) n u w s rest later
        | inr (b, d, marked, at, wrote, rest) ↦
            let apart : (s == u.table.offsets i) ≡ false =
              ground (arith, avoids i (omega arith) (omega arith) marked) in
            write_changed-other (suc i) n (wrote_one u b d) w s rest later
            ∙ faithful.read-write u.disk d (u.table.offsets i) (as_written v u b) wrote s
            ∙ (rw apart refl)
      ]

  write_changed-own :
      (i n : ℕ) (u w : Loaded D) (j : ℕ)
      → write_changed v i n u ≡ some w
      → i ≤ j
      → j < i + n
      → Marked u j
      → ((k : ℕ) → j < k → k < i + n → Marked u k → u.table.offsets k ≢ u.table.offsets j)
      → (b : ℕ) × (u.table.buffers j ≡ some b)
        × (v.read_sector w.disk (u.table.offsets j) ≡ some (as_written v u b))
  unfolding write_changed
  write_changed-own i zero u w j h low high marked apart = absurd (omega arith)
  write_changed-own i (suc n) u w j h low high marked apart = elim (write_changed-round i n u w h) [
    | inl (clean, rest) ↦ elim (Bool-cases (i == j)) [
      | inl here ↦
          let is : i ≡ j = (==_iff i j).0 here in
          let contra : false ≡ true = sym clean ∙ ap (λ (k : ℕ). u.table.changed k) is ∙ marked in
          absurd (cc contra)
      | inr there ↦
          write_changed-own (suc i) n u w j rest (ground (arith, there, low)) (omega arith) marked
            (λ k a b. apart k a (omega arith))
    ]
    | inr (b, d, mark_i, at, wrote, rest) ↦ elim (Bool-cases (i == j)) [
      | inl here ↦
          let is : i ≡ j = (==_iff i j).0 here in
          let s = u.table.offsets j in
          let same : u.table.offsets i ≡ s = ap (λ (k : ℕ). u.table.offsets k) is in
          let own : (s == u.table.offsets i) ≡ true = ground (arith, same) in
          (
            b,
            ap (λ (k : ℕ). u.table.buffers k) (sym is) ∙ at,
            write_changed-other (suc i) n (wrote_one u b d) w s rest
                  (λ k low high m. apart k (omega arith) (omega arith) m)
                ∙ faithful.read-write u.disk d (u.table.offsets i) (as_written v u b) wrote s
                ∙ (rw own refl),
          )
      | inr there ↦
          write_changed-own (suc i) n (wrote_one u b d) w j rest (ground (arith, there, low))
            (omega arith) marked (λ k a c. apart k a (omega arith))
    ]
  ]

  -- Once `write_table` has written the sectors: where those of the marked partitions differ, each of
  -- them holds the entries and the code of its buffer with the flag 0xaa55, and every sector that is
  -- none of them is as it was.
  pub write_table-written :
      (u w : Loaded D)
      → 4 ≤ u.table.partitions
      → write_table v u ≡ some w
      → ((i j : ℕ) → ToWrite u i → ToWrite u j → i < j → u.table.offsets j ≢ u.table.offsets i)
      → ((i : ℕ)
          → ToWrite u i
          → (b : ℕ) × (u.table.buffers i ≡ some b)
            × (v.read_sector w.disk (u.table.offsets i) ≡ some (as_written v u b)))
        × ((s : ℕ)
            → ((i : ℕ) → ToWrite u i → u.table.offsets i ≢ s)
            → v.read_sector w.disk s ≡ v.read_sector u.disk s)
  unfolding write_table
  write_table-written u w four h apart =
      let any =
        u.table.changed 0 || (u.table.changed 1 || (u.table.changed 2 || u.table.changed 3)) in
      let t = record u { table = record u.table { changed = assign u.table.changed 3 any } } in
      let n = u.table.partitions - 3 in
      (
        λ i (low, high, marked).
            write_changed-own 3 n t w i h low (omega arith) marked
              (λ k a b m. apart i k (low, high, marked) (omega arith, omega arith, m) a),
        λ s none_here.
            write_changed-other 3 n t w s h (λ j low high m. none_here j (low, omega arith, m)),
      )
