-- ===== src/Fdisk/Reading/Flags.antt =====
-- fdisk.c: the flags that `get_boot` looks at.
use mac_fdisk.Base.{ℕ, zero, suc, ◌+◌, ◌≡◌, ◌≤◌, ◌<◌, refl, arith, some, ◌==◌, Bool-cases, inl, inr}
use mac_fdisk.Fdisk.Table.{Table, mark}
use mac_fdisk.Fdisk.Table.Chain.{Place}
use mac_fdisk.Fdisk.Reading.{Sectors, Loaded, part_table_flag, check_flags}
use mac_fdisk.Fdisk.Reading.Chained.{Chained}

-- A table without logical partitions.
pub none-Chained : (t : Table) (at : ℕ → Place) → t.partitions ≡ 4 → Chained t at
none-Chained t at four = record {
  low = omega (arith, four);
  high = omega (arith, four);
  stored = record {
    buffer = λ j l h. absurd (omega (arith, four));
    data_at = λ j l h. absurd (omega (arith, four));
    link_at = λ j l h. absurd (omega (arith, four));
    slots = λ j l h. absurd (omega (arith, four));
    distinct = λ j k l h. absurd (omega (arith, four));
    live = λ j l h. absurd (omega (arith, four));
  };
  first = λ h. absurd (omega (arith, four));
  next = λ j l h. absurd (omega (arith, four));
  ends = λ j l h. absurd (omega (arith, four));
}

mark-Chained : (i : ℕ) (t : Table) (at : ℕ → Place) → Chained t at → Chained (mark i t) at
unfolding mark
mark-Chained i t at c = record {
  low = c.low;
  high = c.high;
  stored = record {
    buffer = c.stored.buffer;
    data_at = c.stored.data_at;
    link_at = c.stored.link_at;
    slots = c.stored.slots;
    distinct = c.stored.distinct;
    live = c.stored.live;
  };
  first = c.first;
  next = c.next;
  ends = c.ends;
}

module _ {D : Type 0} (v : Sectors D) where
  pub check_flags-Chained :
      (i n : ℕ) (u : Loaded D) (at : ℕ → Place)
      → ((j : ℕ) → i ≤ j → j < i + n → (b : ℕ) × (u.table.buffers j ≡ some b))
      → Chained u.table at
      → (w : Loaded D) × (check_flags v i n u ≡ some w) × Chained w.table at
  unfolding check_flags mark
  check_flags-Chained i zero u at stored c = (u, refl, c)
  check_flags-Chained i (suc n) u at stored c =
      let (b, here) = stored i (omega arith) (omega arith) in
      let later = λ (j : ℕ) (low : suc i ≤ j) (high : j < suc i + n).
        stored j (omega (arith, low)) (omega (arith, high)) in
      elim (Bool-cases (u.flag b == part_table_flag)) [
        | inl right ↦
            let (w, ends, chain) = check_flags-Chained (suc i) n u at later c in
            (w, rw (check_flags, here, right) ends, chain)
        | inr wrong ↦
            let (w, ends, chain) =
              check_flags-Chained (suc i) n (record u { table = mark i u.table }) at later
                (mark-Chained i u.table at c) in
            (w, rw (check_flags, here, wrong) ends, chain)
      ]
