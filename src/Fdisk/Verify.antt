-- ===== src/Fdisk/Verify.antt =====
-- fdisk.c: `check`, which compares the end of an entry with its last sector.
pub mod Silent
use mac_fdisk.Base.{
  ℕ, zero, suc, ◌+◌, ◌-◌, ◌*◌, ◌%◌, ◌^◌, Bool, true, false, ◌&&◌, ◌||◌, not, Option, none, some,
  List, [], ◌∷◌, ◌++◌, ◌==◌, leb, ltb, if◌then◌else◌,
}
use mac_fdisk.Base.Word.{add32, sub32}
use mac_fdisk.Fdisk.{Geometry, Hsc, sector, cylinder}

-- The messages of `check`, without the numbers they print.
pub data Complaint : Type 0 where
  contains_sector_0 head_too_large sector_too_large cylinder_too_large total_disagrees : Complaint

abbrev pub complain : Bool → Complaint → List Complaint
complain b c = if b then c ∷ [] else []

-- The `while` loop of `check`, on fuel: `real_c` and `total`.
unfoldable pub round_total : ℕ → ℕ → ℕ → ℕ → ℕ → Option (ℕ × ℕ)
round_total zero full start real_c total = none
round_total (suc fuel) full start real_c total = elim (leb (add32 total full) start) [
  | true ↦ round_total fuel full start (add32 real_c 1024) (add32 total full)
  | false ↦ some (real_c, total)
]

-- The messages, once the loop is through.
unfoldable pub complaints : Geometry → ℕ → ℕ → ℕ → ℕ → ℕ → List Complaint
complaints g h real_s start real_c total =
    complain (total == 0) Complaint.contains_sector_0
    ++ (complain (leb g.heads h) Complaint.head_too_large
        ++ (complain (leb g.sectors real_s) Complaint.sector_too_large
            ++ (complain (leb g.cylinders real_c) Complaint.cylinder_too_large
                ++ complain (leb g.cylinders 1024 && not (start == total))
                    Complaint.total_disagrees)))

-- `check(n, h, s, c, start)`; a sector 0 wraps.
unfoldable pub check : Geometry → Hsc → ℕ → Option (List Complaint)
check g p start =
    let real_s = sub32 (sector p.sector_byte) 1 in
    let real_c = cylinder p.sector_byte p.cyl in
    let total = ((real_c * g.sectors + real_s) * g.heads + p.head) % 2 ^ 32 in
    if g.full_bits == 0
    then some (complaints g p.head real_s start real_c total)
    else elim (round_total (suc (suc start)) g.full_bits start real_c total) [
      | none ↦ none
      | some (c, sum) ↦ some (complaints g p.head real_s start c sum)
    ]
