-- ===== src/Fdisk/Summing.antt =====
-- fdisk.c: `verify`, with its messages as values.
use mac_fdisk.Base.{
  ℕ, zero, suc, ◌+◌, ◌-◌, ◌*◌, ◌%◌, ◌^◌, Bool, ◌&&◌, ◌||◌, not, Option, none, some, List, [], ◌∷◌,
  ◌++◌, ◌==◌, leb, ltb, if◌then◌else◌,
}
use mac_fdisk.Base.Word.{add32, sub32}
use mac_fdisk.Fdisk.{Geometry, warn_geometry, overlaps}
use mac_fdisk.Fdisk.Entry.{Partition, Remark, is_unused, check_consistency, last_sect}
use mac_fdisk.Fdisk.Verify.{Complaint, check}
use mac_fdisk.Fdisk.Table.{Table, deref}
use mac_fdisk.Fdisk.Placing.{Slot, check_bounds}

-- The messages; partitions are numbered from 0.
pub data Notice : Type 0 where
  remarks : ℕ → List Remark → Notice
  bad_start : ℕ → Notice
  complaints : ℕ → List Complaint → Notice
  overlap : (first second : ℕ) → Notice
  empty_logical not_inside : ℕ → Notice
  too_many unallocated : ℕ → Notice

abbrev notice : Bool → Notice → List Notice
notice b x = if b then x ∷ [] else []

-- The comparison of entry `i` with the earlier ones from `j` on, with the sum of the sectors.
unfoldable pub compare_earlier : ℕ → Slot → ℕ → List Slot → ℕ → List Notice × ℕ
unfolding overlaps
compare_earlier i s j [] total = ([], total)
compare_earlier i s j (e ∷ l) total =
    let hit = overlaps s.first s.last e.first e.last in
    let more = add32 total (if leb e.first s.first then s.first else e.first) in
    let less = sub32 more (if leb s.last e.last then s.last else e.last) in
    let (rest, sum) = compare_earlier i s (suc j) l (if hit then less else total) in
    (notice hit (Notice.overlap j i) ++ rest, sum)

-- Entry `i`, which is in use.
unfoldable pub verify_entry :
    Table → ℕ → Partition → Slot → List Slot → ℕ → Option (List Notice × ℕ)
unfolding check_consistency check compare_earlier
verify_entry t i p s earlier total = elim (check t.geometry p.end_hsc s.last) [
  | none ↦ none
  | some found ↦
      let own = sub32 (add32 (add32 total s.last) 1) s.first in
      let (rest, sum) = compare_earlier i s 0 earlier own in
      some (
        Notice.remarks i (check_consistency t.geometry p i)
            ∷ (notice (ltb (add32 p.start_sect s.offset) s.first) (Notice.bad_start i)
                ++ (Notice.complaints i found ∷ rest)),
        sum,
      )
]

-- The first loop of `verify`, for the slots from entry `i` on, behind the earlier ones.
unfoldable pub verify_entries : Table → ℕ → List Slot → List Slot → ℕ → Option (List Notice × ℕ)
unfolding deref verify_entry
verify_entries t i earlier [] total = some ([], total)
verify_entries t i earlier (s ∷ l) total =
    let skipped = verify_entries t (suc i) (earlier ++ (s ∷ [])) l total in
    elim (deref t (t.part_table i)) [
      | none ↦ none
      | some p ↦ if is_unused p then skipped else elim (verify_entry t i p s earlier total) [
        | none ↦ none
        | some (found, sum) ↦ elim (verify_entries t (suc i) (earlier ++ (s ∷ [])) l sum) [
          | none ↦ none
          | some (rest, all) ↦ some (found ++ rest, all)
        ]
      ]
    ]

-- The second loop, for the logical partitions from entry `i` on, of an extended partition that ends
-- with the sector `e_last`.
unfoldable pub verify_logicals : Table → ℕ → ℕ → List Slot → Option (List Notice)
unfolding deref
verify_logicals t e_last i [] = some []
verify_logicals t e_last i (s ∷ l) = elim (deref t (t.part_table i)) [
  | none ↦ none
  | some p ↦
      let lone = i == 4 && not (ltb (i + 1) t.partitions) in
      let outside = ltb s.first t.extended_offset || ltb e_last s.last in
      let found =
        if p.sys_ind == 0
        then notice (not lone) (Notice.empty_logical i)
        else notice outside (Notice.not_inside i) in
      elim (verify_logicals t e_last (suc i) l) [ none ↦ none | some rest ↦ some (found ++ rest) ]
]

abbrev drop_slots : ℕ → List Slot → List Slot
drop_slots zero l = l
drop_slots (suc n) [] = []
drop_slots (suc n) (s ∷ l) = drop_slots n l

-- The message at the end.
unfoldable pub balance : Geometry → ℕ → List Notice
balance g total =
    let all = g.heads * g.sectors * g.cylinders % 2 ^ 32 in
    if ltb all total
    then Notice.too_many total ∷ []
    else notice (not (sub32 all total == 0)) (Notice.unallocated (sub32 all total))

-- `verify()`; one sector is counted for the first table and one for each logical partition.
unfoldable pub verify : Table → Option (List Notice)
unfolding check_bounds verify_entries verify_logicals deref balance
verify t = if warn_geometry t.geometry then some [] else elim (check_bounds t 0 t.partitions) [
  | none ↦ none
  | some l ↦ elim (verify_entries t 0 [] l 1) [
    | none ↦ none
    | some (found, total) ↦
        if t.extended_offset == 0
        then some (found ++ balance t.geometry total)
        else elim (deref t (t.part_table t.ext_index)) [
          | none ↦ none
          | some q ↦ elim (verify_logicals t (last_sect q) 4 (drop_slots 4 l)) [
            | none ↦ none
            | some inner ↦
                some (found ++ (inner ++ balance t.geometry (add32 total (t.partitions - 4))))
          ]
        ]
  ]
]
