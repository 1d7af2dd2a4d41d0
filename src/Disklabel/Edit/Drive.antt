-- ===== src/Disklabel/Edit/Drive.antt =====
-- `bsd_edit_disklabel` comes to its end.
use mac_fdisk.Base.{
  ℕ, zero, suc, ◌*◌, ◌%◌, ◌^◌, ◌≡◌, ◌≤◌, ◌<◌, refl, arith, true, some, List, [], ◌∷◌, leb, length,
  Bool-cases, inl, inr,
}
use mac_fdisk.Fdisk.Input.{Lines}
use mac_fdisk.Disklabel.{Disklabel}
use mac_fdisk.Disklabel.Edit.{edit_int, edit_secpercyl, edit_timing, bsd_edit_disklabel}

-- A question takes at least one of the lines that are left.
edit_int-shorter :
    (def : ℕ) (l : List ℕ) (ls : Lines) → length (edit_int def (l ∷ ls)).1 ≤ length ls
unfolding edit_int
edit_int-shorter def l [] = ground arith
edit_int-shorter def l (m ∷ ls) = ground (arith, edit_int-shorter def m ls)

edit_secpercyl-ends :
    (fuel most : ℕ) (ls : Lines)
    → length ls < fuel
    → (v : ℕ) × (rest : Lines) × (edit_secpercyl fuel most ls ≡ some (v, rest)) × (v ≤ most)
unfolding edit_secpercyl
edit_secpercyl-ends zero most ls enough = absurd (omega arith)
edit_secpercyl-ends (suc fuel) most [] enough =
    let self : leb most most ≡ true = ground arith in (most, [], rw self refl, omega arith)
edit_secpercyl-ends (suc fuel) most (l ∷ ls) enough =
    let (v, rest) = edit_int most (l ∷ ls) in
    elim (Bool-cases (leb v most)) [
      | inl fits ↦ (v, rest, rw fits refl, ground (arith, fits))
      | inr large ↦
          let (w, more, ends, low) =
            edit_secpercyl-ends fuel most rest (omega (arith, edit_int-shorter most l ls)) in
          (w, more, rw large ends, low)
    ]

-- Whatever the user types, `bsd_edit_disklabel` ends; the sectors of a cylinder are then at most those of
-- its tracks, the sectors of the disk are those of its cylinders, and the geometry that is not asked
-- for and the partitions are as they were. All products are taken in 32 bits.
pub bsd_edit_disklabel-ends :
    (d : Disklabel) (ls : Lines)
    → (e : Disklabel) × (rest : Lines) × (bsd_edit_disklabel d ls ≡ some (e, rest))
      × (e.d_secpercyl ≤ e.d_nsectors * e.d_ntracks % 2 ^ 32)
      × (e.d_secperunit ≡ e.d_secpercyl * e.d_ncylinders % 2 ^ 32)
      × (e.d_nsectors ≡ d.d_nsectors)
      × (e.d_ntracks ≡ d.d_ntracks)
      × (e.d_ncylinders ≡ d.d_ncylinders)
      × (e.d_npartitions ≡ d.d_npartitions)
      × (e.d_partitions ≡ d.d_partitions)
unfolding bsd_edit_disklabel
bsd_edit_disklabel-ends d ls =
    let most = d.d_nsectors * d.d_ntracks % 2 ^ 32 in
    let (v, rest, ends, low) = edit_secpercyl-ends (suc (length ls)) most ls (omega arith) in
    let (e, more) = edit_timing (record d { d_secpercyl = v }) rest in
    (
      record e { d_secperunit = e.d_secpercyl * e.d_ncylinders % 2 ^ 32 },
      more,
      rw (bsd_edit_disklabel, ends) refl,
      low,
      refl,
      refl,
      refl,
      refl,
      refl,
      refl,
    )
