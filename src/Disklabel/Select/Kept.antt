-- ===== src/Disklabel/Select/Kept.antt =====
-- The label stays valid through any number of commands.
use mac_fdisk.Base.{
  ℕ, ◌+◌, ◌≡◌, refl, sym, ap, ◌∙◌, subst, Option, none, some, List, ◌++◌, ◌==◌, Bool-cases,
  Option-cases, inl, inr,
}
use mac_fdisk.Base.Run.{Run, Yields}
use mac_fdisk.Fdisk.Entry.{Partition}
use mac_fdisk.Fdisk.Input.{Lines, first_char, read_char}
use mac_fdisk.Fdisk.Table.{Table}
use mac_fdisk.Fdisk.Asking.{tolower}
use mac_fdisk.Disklabel.{Disklabel, bsd_dkcksum}
use mac_fdisk.Disklabel.Edit.{
  bsd_delete_part, bsd_new_part, bsd_link_part, bsd_change_fstype, bsd_edit_disklabel,
}
use mac_fdisk.Base.Word.{add32, sub32}
use mac_fdisk.Base.Strings.{codes}
use mac_fdisk.Disklabel.Area.{
  Volume, BsdState, position, splice, label_at, label_size, label_bytes, label_part, all_zero,
  zeros, ask_basename, sealed, has_magic, bsd_writelabel, bsd_write_bootstrap, bsd_get_bootstrap,
  store_bootstrap,
}
use mac_fdisk.Disklabel.Valid.{IsValid}
use mac_fdisk.Disklabel.Valid.Commands.{
  bsd_delete_part-IsValid, bsd_new_part-IsValid, bsd_link_part-IsValid, bsd_change_fstype-IsValid,
  bsd_edit_disklabel-IsValid,
}
use mac_fdisk.Disklabel.Select.{After, on_label, bsd_command, bsd_round, Rounds, here, round}

abbrev label_or : Disklabel → Option Disklabel → Disklabel
label_or d none = d
label_or d (some e) = e

sealed-IsValid : (d e : Disklabel) → IsValid d → sealed d ≡ some e → IsValid e
unfolding sealed has_magic
sealed-IsValid d e valid h = cases (bsd_dkcksum (record d { d_checksum = 0 })) refl
  where
    cases : (o : Option ℕ) → bsd_dkcksum (record d { d_checksum = 0 }) ≡ o → IsValid e
    cases none f = let fails : sealed d ≡ none = rw (sealed, f) refl in absurd (cc (sym fails ∙ h))
    cases (some sum) f =
        let is : sealed d ≡ some (record d { d_checksum = sum }) = rw (sealed, f) refl in
        let same : record d { d_checksum = sum } ≡ e = ap (label_or d) (sym is ∙ h) in
        subst IsValid same (record {
          laid = record {
            typename = valid.laid.typename;
            packname = valid.laid.packname;
            drivedata = valid.laid.drivedata;
            spare = valid.laid.spare;
            partitions = valid.laid.partitions;
            types = valid.laid.types;
          };
          magic = valid.magic;
          few = valid.few;
          beyond = valid.beyond;
        })

module _ {D : Type 0} (v : Volume D) (device : List ℕ) (t : Table) (p : Partition) where
  -- If a command returns, it leaves a valid label.
  abbrev Leaves : Option (BsdState D × After × Lines) → Type 0
  Leaves none = Unit
  Leaves (some (u, after, rest)) = IsValid u.dlabel

  on_label-Leaves :
      (s : BsdState D) (ls : Lines) (change : Run Lines Disklabel)
      → Yields IsValid (change ls)
      → Leaves (on_label v device change s ls)
  on_label-Leaves s ls change h = cases (change ls) h
    where
      cases :
          (o : Option (Disklabel × Lines))
          → Yields IsValid o
          → Leaves (elim o as (λ x. Option (BsdState D × After × Lines)) [
            | none ↦ none
            | some (d, rest) ↦ some (record s { dlabel = d }, After.next_command, rest)
          ])
      cases none k = tt
      cases (some (d, rest)) k = k

  -- The same of what leaves no lines, and of what keeps the label of `s`.
  abbrev Written : Option (BsdState D) → Type 0
  Written none = Unit
  Written (some u) = IsValid u.dlabel

  abbrev SameStored : BsdState D → Option (BsdState D) → Type 0
  SameStored s none = Unit
  SameStored s (some u) = u.dlabel ≡ s.dlabel

  abbrev Same : BsdState D → Option (BsdState D × Lines) → Type 0
  Same s none = Unit
  Same s (some (u, rest)) = u.dlabel ≡ s.dlabel

  bsd_writelabel-Written :
      (s : BsdState D) → IsValid s.dlabel → Written (bsd_writelabel v p.start_sect s)
  unfolding bsd_writelabel
  bsd_writelabel-Written s valid = elim (Option-cases (sealed s.dlabel)) [
    | inl e ↦ rw (bsd_writelabel, e) tt
    | inr (d, e) ↦ elim (Option-cases (position (add32 p.start_sect 1))) [
      | inl f ↦ rw (bsd_writelabel, e, f) tt
      | inr (pos, f) ↦ elim (Option-cases (v.write_at s.disk (pos + 0) (label_bytes d))) [
        | inl g ↦ rw (bsd_writelabel, e, f, g) tt
        | inr (disk, g) ↦ rw (bsd_writelabel, e, f, g) (sealed-IsValid s.dlabel d valid e)
      ]
    ]
  ]

  store_bootstrap-SameStored :
      (start : ℕ) (dl : List ℕ) (s : BsdState D) → SameStored s (store_bootstrap v start dl s)
  unfolding store_bootstrap
  store_bootstrap-SameStored start dl s = elim (Bool-cases (all_zero (label_part s.buffer))) [
    | inr e ↦ rw (store_bootstrap, e) tt
    | inl e ↦ elim (Option-cases (position start)) [
      | inl f ↦ rw (store_bootstrap, e, f) tt
      | inr (pos, f) ↦ elim (Option-cases (v.write_at s.disk pos (splice label_at dl s.buffer))) [
        | inl g ↦ rw (store_bootstrap, e, f, g) tt
        | inr (disk, g) ↦ rw (store_bootstrap, e, f, g) refl
      ]
    ]
  ]

  bsd_write_bootstrap-Same :
      (s : BsdState D) (ls : Lines) → Same s (bsd_write_bootstrap v p.start_sect s ls)
  unfolding bsd_write_bootstrap
  bsd_write_bootstrap-Same s ls =
      let d = s.dlabel in
      let name = (ask_basename d ls).0 in
      let dir = codes "/usr/ucb/mdec/" in
      let one = bsd_get_bootstrap v (dir ++ (name ++ codes "boot")) 0 d.d_secsize s.disk s.buffer in
      elim (Option-cases one) [
        | inl e ↦ rw (bsd_write_bootstrap, e) tt
        | inr (none, e) ↦ rw (bsd_write_bootstrap, e) refl
        | inr (some first, e) ↦
            let bare = splice label_at (zeros label_size) first in
            elim (Option-cases (
              bsd_get_bootstrap v (dir ++ (codes "boot" ++ name)) d.d_secsize
                (sub32 d.d_bbsize d.d_secsize) s.disk bare)) [
                  | inl f ↦ rw (bsd_write_bootstrap, e, f) tt
                  | inr (none, f) ↦ rw (bsd_write_bootstrap, e, f) refl
                  | inr (some whole, f) ↦
                      let u : BsdState D = record s { buffer = whole } in
                      let kept = store_bootstrap-SameStored p.start_sect (label_part first) u in
                      elim (Option-cases (store_bootstrap v p.start_sect (label_part first) u)) [
                        | inl g ↦ rw (bsd_write_bootstrap, e, f, g) tt
                        | inr (w, g) ↦
                            rw (bsd_write_bootstrap, e, f, g) (subst (SameStored u) g kept)
                      ]
                ]
      ]

  bootstrap-Leaves :
      (s : BsdState D) (ls : Lines) (o : Option (BsdState D × Lines))
      → IsValid s.dlabel
      → Same s o
      → Leaves (elim o as (λ x. Option (BsdState D × After × Lines)) [
        | none ↦ none
        | some (u, rest) ↦ some (u, After.next_command, rest)
      ])
  bootstrap-Leaves s ls none valid same = tt
  bootstrap-Leaves s ls (some (u, rest)) valid same = subst IsValid (sym same) valid

  writelabel-Leaves :
      (ls : Lines) (o : Option (BsdState D))
      → Written o
      → Leaves (elim o as (λ x. Option (BsdState D × After × Lines)) [
        | none ↦ none
        | some u ↦ some (u, After.next_command, ls)
      ])
  writelabel-Leaves ls none written = tt
  writelabel-Leaves ls (some u) written = written

  bsd_command-Leaves :
      (c : ℕ) (s : BsdState D) (ls : Lines)
      → IsValid s.dlabel
      → Leaves (bsd_command v device t p c s ls)
  unfolding bsd_command
  bsd_command-Leaves c s ls valid =
      let d = s.dlabel in
      elim (Bool-cases (c == 100)) [
        | inl e ↦
            rw e (on_label-Leaves s ls (bsd_delete_part d) (bsd_delete_part-IsValid d ls valid))
        | inr e1 ↦ elim (Bool-cases (c == 101)) [
          | inl e ↦
              rw (e1, e)
                (on_label-Leaves s ls (bsd_edit_disklabel d)
                  (bsd_edit_disklabel-IsValid d ls valid))
          | inr e2 ↦ elim (Bool-cases (c == 105)) [
            | inl e ↦
                rw (e1, e2, e)
                  (bootstrap-Leaves s ls (bsd_write_bootstrap v p.start_sect s ls) valid
                    (bsd_write_bootstrap-Same s ls))
            | inr e3 ↦ elim (Bool-cases (c == 110)) [
              | inl e ↦
                  rw (e1, e2, e3, e)
                    (on_label-Leaves s ls (bsd_new_part t.geometry p d)
                      (bsd_new_part-IsValid t.geometry p d ls valid))
              | inr e4 ↦ elim (Bool-cases (c == 113)) [
                | inl e ↦ rw (e1, e2, e3, e4, e) valid
                | inr e5 ↦ elim (Bool-cases (c == 116)) [
                  | inl e ↦
                      rw (e1, e2, e3, e4, e5, e)
                        (on_label-Leaves s ls (bsd_change_fstype d)
                          (bsd_change_fstype-IsValid d ls valid))
                  | inr e6 ↦ elim (Bool-cases (c == 119)) [
                    | inl e ↦
                        rw (e1, e2, e3, e4, e5, e6, e)
                          (writelabel-Leaves ls (bsd_writelabel v p.start_sect s)
                            (bsd_writelabel-Written s valid))
                    | inr e7 ↦ elim (Bool-cases (c == 114)) [
                      | inl e ↦ rw (e1, e2, e3, e4, e5, e6, e7, e) valid
                      | inr e8 ↦ elim (Bool-cases (c == 120)) [
                        | inl e ↦
                            rw (e1, e2, e3, e4, e5, e6, e7, e8, e)
                              (on_label-Leaves s ls (bsd_link_part t d)
                                (bsd_link_part-IsValid t d ls valid))
                        | inr e9 ↦ rw (e1, e2, e3, e4, e5, e6, e7, e8, e9) valid
                      ]
                    ]
                  ]
                ]
              ]
            ]
          ]
        ]
      ]

  bsd_round-Leaves :
      (s : BsdState D) (ls : Lines) → IsValid s.dlabel → Leaves (bsd_round v device t p s ls)
  unfolding bsd_round
  bsd_round-Leaves s ls valid = elim (Option-cases (read_char ls)) [
    | inl e ↦ rw (bsd_round, e) tt
    | inr ((text, rest), e) ↦
        rw (bsd_round, e) (bsd_command-Leaves (tolower (first_char text)) s rest valid)
  ]

  -- After any number of commands, whatever is typed and whatever the disk answers, the label has the
  -- magic numbers and at most 8 partitions, and no entry behind them has a size, if this was so
  -- before.
  pub Rounds-IsValid :
      {s : BsdState D} {ls : Lines} {u : BsdState D} {ms : Lines}
      → IsValid s.dlabel
      → Rounds v device t p s ls u ms
      → IsValid u.dlabel
  Rounds-IsValid valid here = valid
  Rounds-IsValid valid (round {u = u} {ms = ms} before step) =
      subst Leaves step (bsd_round-Leaves u ms (Rounds-IsValid valid before))
