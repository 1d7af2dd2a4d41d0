-- ===== src/Disklabel/Edit.antt =====
-- fdisklabel.c: what the commands change in a label, with the user's answers.
pub mod Drive
use mac_fdisk.Base.{
  ℕ, zero, suc, ◌+◌, ◌-◌, ◌*◌, ◌%◌, ◌^◌, Bool, true, false, ◌&&◌, ◌||◌, Option, none, some, List,
  [], ◌∷◌, ◌==◌, ltb, leb, if◌then◌else◌, get_elem?, set, length,
}
use mac_fdisk.Base.Run.{Run, pure, fail, ◌>>=◌}
use mac_fdisk.Base.Word.{add32, sub32}
use mac_fdisk.Fdisk.{Geometry}
use mac_fdisk.Fdisk.Entry.{Partition}
use mac_fdisk.Fdisk.Input.{Lines, Offset, first_char, isdigit, atoi, skip_blanks, read_int}
use mac_fdisk.Fdisk.Placing.{cround}
use mac_fdisk.Fdisk.Table.{Table, deref}
use mac_fdisk.Fdisk.Asking.{tolower, read_hex, get_partition}
use mac_fdisk.Disklabel.{
  Disklabel, BsdPartition, bsd_maxpartitions, bsd_fs_unused, bsd_fs_msdos, bsd_fs_hpfs,
  bsd_fs_other,
}

-- `bsd_get_part_index(max)`
unfoldable pub bsd_get_part_index : ℕ → Run Lines ℕ
unfolding skip_blanks
bsd_get_part_index max [] = none
bsd_get_part_index max (l ∷ ls) =
    let again = bsd_get_part_index max ls in
    elim (skip_blanks l) [
      | [] ↦ again
      | c ∷ text ↦
          if ltb (tolower c) 97 || leb (97 + max) (tolower c)
          then again
          else some (tolower c - 97, ls)
    ]

-- The loop of `bsd_delete_part`: `d_npartitions` for the value `n`. The size in front of the table lies
-- on the second magic number; from there on it is not followed.
unfoldable pub last_used : Disklabel → List BsdPartition → ℕ → Option ℕ
last_used d l zero = if d.d_magic2 == 0 then none else some 0
last_used d l (suc n) =
    let rest = last_used d l n in
    elim (get_elem? l n) [ none ↦ none | some p ↦ if p.p_size == 0 then rest else some (suc n) ]

abbrev pub emptied : BsdPartition → BsdPartition
emptied p = record p { p_size = 0; p_offset = 0; p_fstype = bsd_fs_unused }

-- The change that `bsd_delete_part` makes for index `i`.
unfoldable pub removed : ℕ → Disklabel → Option Disklabel
unfolding last_used
removed i d = elim (get_elem? d.d_partitions i) [
  | none ↦ none
  | some p ↦
      let l = set d.d_partitions i (emptied p) in
      if d.d_npartitions == i + 1
      then elim (last_used d l (i + 1)) [
        | none ↦ none
        | some n ↦ some (record d { d_npartitions = n; d_partitions = l })
      ]
      else some (record d { d_partitions = l })
]

-- An access behind the table is `none`.
abbrev pub stored : Option Disklabel → Run Lines Disklabel
stored none = fail
stored (some d) = pure d

unfoldable pub bsd_delete_part : Disklabel → Run Lines Disklabel
bsd_delete_part d = do i ← bsd_get_part_index d.d_npartitions; stored (removed i d)

-- A change of partition `i`.
unfoldable pub with_partition : ℕ → (BsdPartition → BsdPartition) → Disklabel → Option Disklabel
with_partition i f d = elim (get_elem? d.d_partitions i) [
  | none ↦ none
  | some p ↦ some (record d { d_partitions = set d.d_partitions i (f p) })
]

-- No partition of a full table has size 0.
unfoldable pub is_full : Disklabel → List BsdPartition → Bool
is_full d [] = d.d_npartitions == bsd_maxpartitions
is_full d (p ∷ l) = let rest = is_full d l in if p.p_size == 0 then false else rest

-- `bsd_check_new_partition(&i)` for index `i`: what becomes of the label, and the result.
unfoldable pub claimed : ℕ → Disklabel → Option (Disklabel × Bool)
claimed i d =
    let e = if leb d.d_npartitions i then record d { d_npartitions = i + 1 } else d in
    elim (get_elem? e.d_partitions i) [ none ↦ none | some p ↦ some (e, p.p_size == 0) ]

-- The index is `none` where nothing may be added.
unfoldable pub bsd_check_new_partition : Disklabel → Run Lines (Disklabel × Option ℕ)
unfolding is_full bsd_get_part_index claimed
bsd_check_new_partition d ls =
    if is_full d d.d_partitions
    then some ((d, none), ls)
    else elim (bsd_get_part_index bsd_maxpartitions ls) [
      | none ↦ none
      | some (i, rest) ↦ elim (claimed i d) [
        | none ↦ none
        | some (e, free) ↦ some ((e, if free then some i else none), rest)
      ]
    ]

-- The two sectors that `bsd_new_part` asks for, from the first and last of the Intel partition. The
-- second question starts from the answer to the first, which is in units already.
unfoldable pub ask_extent : Geometry → ℕ → ℕ → Run Lines (ℕ × ℕ)
unfolding read_int cround
ask_extent g first last = do
  begin ← read_int g (cround g first) (cround g first) (cround g last) Offset.ignore
  end ← read_int g (cround g begin) (cround g last) (cround g last) Offset.ignore
  pure (
      if g.unit_flag
      then (sub32 begin 1 * g.display_factor % 2 ^ 32, sub32 (end * g.display_factor % 2 ^ 32) 1)
      else (begin, end))

abbrev pub placed : ℕ → ℕ → BsdPartition → BsdPartition
placed begin end p = record p {
  p_size = add32 (sub32 end begin) 1;
  p_offset = begin;
  p_fstype = bsd_fs_unused;
}

-- What follows `bsd_check_new_partition`: a partition that is found by `find` is stored.
abbrev pub added :
    Run Lines (BsdPartition → BsdPartition) → Disklabel × Option ℕ → Run Lines Disklabel
added find (d, none) = pure d
added find (d, some i) = do change ← find; stored (with_partition i change d)

abbrev pub new_extent : Geometry → Partition → Run Lines (BsdPartition → BsdPartition)
new_extent g p = do
  e ← ask_extent g p.start_sect (sub32 (add32 p.start_sect p.nr_sects) 1)
  pure (placed e.0 e.1)

-- `bsd_new_part` in the Intel partition `p`.
unfoldable pub bsd_new_part : Geometry → Partition → Disklabel → Run Lines Disklabel
unfolding bsd_check_new_partition ask_extent with_partition
bsd_new_part g p d = do r ← bsd_check_new_partition d; added (new_extent g p) r

unfoldable pub bsd_translate_fstype : ℕ → ℕ
bsd_translate_fstype t =
    if (t == 0x01) || (t == 0x04) || (t == 0x06) || (t == 0xe1) || (t == 0xe3) || (t == 0xf2)
    then bsd_fs_msdos
    else if t == 0x07
    then bsd_fs_hpfs
    else bsd_fs_other

abbrev pub linked : Partition → BsdPartition → BsdPartition
linked q p = record p {
  p_size = q.nr_sects;
  p_offset = q.start_sect;
  p_fstype = bsd_translate_fstype q.sys_ind;
}

-- The Intel partition behind a pointer.
unfoldable pub link_to : Table → Option ℕ → Run Lines (BsdPartition → BsdPartition)
unfolding deref
link_to t o = elim (deref t o) [ none ↦ fail | some q ↦ pure (linked q) ]

unfoldable pub bsd_link_part : Table → Disklabel → Run Lines Disklabel
unfolding get_partition bsd_check_new_partition link_to with_partition bsd_translate_fstype
bsd_link_part t d = do
  k ← get_partition true t.partitions t
  r ← bsd_check_new_partition d
  added (link_to t (t.part_table k)) r

unfoldable pub bsd_change_fstype : Disklabel → Run Lines Disklabel
unfolding bsd_get_part_index read_hex with_partition
bsd_change_fstype d = do
  i ← bsd_get_part_index d.d_npartitions
  hex ← read_hex
  stored (with_partition i (λ p. record p { p_fstype = hex % 256 }) d)

-- `edit_int(def, mesg)`; a blank line and the end of the input give `def`.
unfoldable pub edit_int : ℕ → Lines → ℕ × Lines
unfolding skip_blanks atoi
edit_int def [] = (def, [])
edit_int def (l ∷ ls) =
    let again = edit_int def ls in
    elim (skip_blanks l) [
      | [] ↦ (def, ls)
      | c ∷ text ↦ if isdigit c then (atoi (c ∷ text), ls) else again
    ]

-- The loop of `bsd_edit_disklabel`, on fuel, where `most` is what the label's tracks hold.
unfoldable pub edit_secpercyl : ℕ → ℕ → Lines → Option (ℕ × Lines)
unfolding edit_int
edit_secpercyl zero most ls = none
edit_secpercyl (suc fuel) most ls =
    let (v, rest) = edit_int most ls in
    let again = edit_secpercyl fuel most rest in if leb v most then some (v, rest) else again

-- The questions behind that loop.
unfoldable pub edit_timing : Disklabel → Lines → Disklabel × Lines
unfolding edit_int
edit_timing d ls0 =
    let (rpm, ls1) = edit_int d.d_rpm ls0 in
    let (interleave, ls2) = edit_int d.d_interleave ls1 in
    let (trackskew, ls3) = edit_int d.d_trackskew ls2 in
    let (cylskew, ls4) = edit_int d.d_cylskew ls3 in
    let (headswitch, ls5) = edit_int d.d_headswitch ls4 in
    let (trkseek, ls6) = edit_int d.d_trkseek ls5 in
    (
      record d {
        d_rpm = rpm % 2 ^ 16;
        d_interleave = interleave % 2 ^ 16;
        d_trackskew = trackskew % 2 ^ 16;
        d_cylskew = cylskew % 2 ^ 16;
        d_headswitch = headswitch;
        d_trkseek = trkseek;
      },
      ls6,
    )

-- `bsd_edit_disklabel()`
unfoldable pub bsd_edit_disklabel : Disklabel → Run Lines Disklabel
unfolding edit_secpercyl edit_timing
bsd_edit_disklabel d ls =
    elim (edit_secpercyl (suc (length ls)) (d.d_nsectors * d.d_ntracks % 2 ^ 32) ls) [
      | none ↦ none
      | some (secpercyl, rest) ↦
          let (e, more) = edit_timing (record d { d_secpercyl = secpercyl }) rest in
          some (record e { d_secperunit = e.d_secpercyl * e.d_ncylinders % 2 ^ 32 }, more)
    ]
