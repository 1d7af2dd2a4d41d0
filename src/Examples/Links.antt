-- ===== src/Examples/Links.antt =====
-- A chain of links that runs in a circle, and a table that is written.
use mac_fdisk.Base.{
  ℕ, ◌*◌, ◌^◌, ◌≡◌, ◌≢◌, ◌<◌, refl, sym, ap, subst, ◌∙◌, arith, true, false, ◌||◌, Option, none,
  some, [], ◌==◌, if◌then◌else◌, Bool-cases, inl, inr,
}
use mac_fdisk.Fdisk.Entry.{Partition, cleared, extended, linux_native}
use mac_fdisk.Fdisk.Table.Chain.{Place}
use mac_fdisk.Fdisk.Reading.{
  Sector, Sectors, Loaded, as_written, read_extended, get_boot, write_table,
}
use mac_fdisk.Fdisk.Reading.Chained.{Chained, read_extended-Chained}
use mac_fdisk.Fdisk.Reading.Frame.{IsFaithful, ToWrite}
use mac_fdisk.Fdisk.Reading.Boot.{get_boot-Chained}
use mac_fdisk.Fdisk.Reading.Written.{write_table-writes}
use mac_fdisk.Examples.Chains.{disk}

abbrev pub Drive : Type 0
Drive = ℕ → Sector

abbrev pub replaced : Drive → ℕ → Sector → Drive
replaced d s x r = if r == s then x else d r

abbrev pub drive : Sectors Drive
drive = record {
  read_sector = λ d s. some (d s);
  write_sector = λ d s x. some (replaced d s x);
  get_geo = λ d. none;
}

drive_or : Drive → Option Drive → Drive
drive_or d none = d
drive_or d (some e) = e

drive-read-write :
    (d e : Drive) (s : ℕ) (x : Sector)
    → some (replaced d s x) ≡ some e
    → (r : ℕ) → some (e r) ≡ (if r == s then some x else some (d r))
unfolding drive_or
drive-read-write d e s x wrote r =
    let is : replaced d s x ≡ e = ap (drive_or d) wrote in
    ap (λ (f : Drive). some (f r)) (sym is)
    ∙ (elim (Bool-cases (r == s)) [ inl same ↦ rw same refl | inr other ↦ rw other refl ])

drive-IsFaithful : IsFaithful drive
drive-IsFaithful = record { read-write = drive-read-write }

-- Every sector has a partition, and a link to the sector 100 behind the extended partition.
unfoldable entries : ℕ → Partition
unfolding cleared
entries k = record cleared {
  sys_ind = if k == 0 then linux_native else if k == 1 then extended else 0;
  start_sect = if k == 0 then 63 else if k == 1 then 100 else 0;
  nr_sects = 37;
}

abbrev circle : Drive
circle s = record { code = []; slot = entries; flag = 0xaa55 }

unfoldable primary : ℕ → Partition
unfolding cleared
primary k = record cleared { sys_ind = if k == 2 then extended else 0; start_sect = 5000 }

abbrev opened : Loaded Drive
opened = record {
  disk = circle;
  table = record {
    geometry = disk;
    dos_compatible = true;
    sector_offset = 63;
    entry = primary;
    freed = λ b. false;
    buffers = λ i. some 0;
    part_table = λ i. some i;
    ext_pointers = λ i. none;
    offsets = λ i. if i == 3 then 0 else 1000 * i;
    changed = λ i. i == 1 || (i == 5);
    partitions = 4;
    ext_index = 0;
    extended_offset = 0;
  };
  code = λ b. [];
  flag = λ b. 0;
}

read_extended-Chained_example :
    (w : Loaded Drive) × (at : ℕ → Place) × (read_extended drive 2 opened ≡ some w)
    × Chained w.table at
unfolding primary
read_extended-Chained_example =
    read_extended-Chained drive circle (λ s. (circle s, refl)) 2 2 opened refl refl refl (λ b. refl)
      refl (omega arith) (omega arith) (omega arith)

sector_or : Sector → Option Sector → Sector
sector_or x none = x
sector_or x (some y) = y

small : (x : Sector) (k : ℕ) → drive.read_sector circle 0 ≡ some x → (x.slot k).start_sect < 2 ^ 32
unfolding sector_or entries cleared
small x k reads =
    let is : circle 0 ≡ x = ap (sector_or (circle 0)) reads in
    subst (λ (y : Sector). (y.slot k).start_sect < 2 ^ 32) is (ground arith)

get_boot-Chained_example :
    (w : Loaded Drive) × (at : ℕ → Place) × (get_boot drive opened ≡ some w) × Chained w.table at
get_boot-Chained_example =
    get_boot-Chained drive circle (λ s. (circle s, refl)) opened refl (λ i less. refl) (λ b. refl)
      refl refl small

-- Two logical partitions, of which the second one is marked, like the first sector.
abbrev six : Loaded Drive
six = record opened { table = record opened.table { partitions = 6 } }

apart :
    (i j : ℕ) → ToWrite six i → ToWrite six j → i < j → six.table.offsets j ≢ six.table.offsets i
apart i j (low, high, marked) other less = ground arith

write_table-writes_example :
    (w : Loaded Drive) × (write_table drive six ≡ some w)
    × ((i : ℕ)
        → ToWrite six i
        → (b : ℕ) × (six.table.buffers i ≡ some b)
          × (drive.read_sector w.disk (six.table.offsets i) ≡ some (as_written drive six b)))
    × ((s : ℕ)
        → ((i : ℕ) → ToWrite six i → six.table.offsets i ≢ s)
        → drive.read_sector w.disk s ≡ drive.read_sector six.disk s)
write_table-writes_example =
    write_table-writes drive drive-IsFaithful (λ d s x. (replaced d s x, refl)) six (omega arith)
      (λ i needed. (0, refl)) apart
