-- ===== src/Disklabel/Select.antt =====
-- fdisklabel.c: `bselect`. A command gives the state and the lines that are left; `none` is the end of
-- the program by an error, and the wait of `read_char` for a line behind the last one.
-- pub mod Opening
pub mod Kept
use mac_fdisk.Base.{
  ℕ, zero, suc, ◌≡◌, Bool, true, false, Option, none, some, List, [], ◌∷◌, ◌==◌, if◌then◌else◌,
}
use mac_fdisk.Base.Run.{Run}
use mac_fdisk.Fdisk.Entry.{Partition}
use mac_fdisk.Fdisk.Input.{Lines, skip_blanks, first_char, read_char}
use mac_fdisk.Fdisk.Table.{Table, deref}
use mac_fdisk.Fdisk.Asking.{tolower}
use mac_fdisk.Disklabel.{Disklabel}
use mac_fdisk.Disklabel.Edit.{
  bsd_delete_part, bsd_new_part, bsd_link_part, bsd_change_fstype, bsd_edit_disklabel,
}
use mac_fdisk.Disklabel.Area.{
  Volume, BsdState, bsd_readlabel, bsd_writelabel, bsd_initlabel, bsd_write_bootstrap,
}

abbrev pub netbsd_partition : ℕ
netbsd_partition = 0xa5

-- What follows a command: the next one, the main menu, or the end of the program.
pub data After : Type 0 where
  next_command main_menu quit : After

-- The search of `bselect` through the four primary partitions from `i` on, `k` of them.
unfoldable pub find_netbsd : Table → ℕ → ℕ → Option (Option (ℕ × Partition))
unfolding deref
find_netbsd t i zero = some none
find_netbsd t i (suc k) =
    let rest = find_netbsd t (suc i) k in
    elim (deref t (t.part_table i)) [
      | none ↦ none
      | some p ↦ if p.sys_ind == netbsd_partition then some (some (i, p)) else rest
    ]

module _ {D : Type 0} (v : Volume D) (device : List ℕ) where
  -- `bsd_create_disklabel()`, with its result.
  unfoldable pub bsd_create_disklabel :
      Partition → BsdState D → Lines → Option (BsdState D × Bool × Lines)
  unfolding skip_blanks bsd_initlabel
  bsd_create_disklabel p s [] = none
  bsd_create_disklabel p s (l ∷ ls) =
      let again = bsd_create_disklabel p s ls in
      let c = tolower (first_char (skip_blanks l)) in
      if c == 121
      then some ((bsd_initlabel v device p s).0, (bsd_initlabel v device p s).1, ls)
      else if c == 110
      then some (s, false, ls)
      else again

  -- `bselect` before its loop: the NetBSD partition, if there is a label in it to be edited.
  unfoldable pub bsd_open :
      Table → BsdState D → Lines → Option (BsdState D × Option Partition × Lines)
  unfolding find_netbsd
  bsd_open t s ls = elim (find_netbsd t 0 4) [
    | none ↦ none
    | some none ↦ some (s, none, ls)
    | some (some (i, p)) ↦
        if p.start_sect == 0 then some (s, none, ls) else elim (bsd_readlabel v p.start_sect s) [
          | none ↦ none
          | some (u, true) ↦ some (u, some p, ls)
          | some (u, false) ↦ elim (bsd_create_disklabel p u ls) [
            | none ↦ none
            | some (w, made, rest) ↦ some (w, if made then some p else none, rest)
          ]
        ]
  ]

  -- A command that changes the label alone.
  abbrev pub on_label :
      Run Lines Disklabel → BsdState D → Lines → Option (BsdState D × After × Lines)
  on_label change s ls = elim (change ls) [
    | none ↦ none
    | some (d, rest) ↦ some (record s { dlabel = d }, After.next_command, rest)
  ]

  -- The `switch` of `bselect` for the command `c`; `l`, `p`, `s` and the menu print only.
  unfoldable pub bsd_command :
      Table → Partition → ℕ → BsdState D → Lines → Option (BsdState D × After × Lines)
  bsd_command t p c s ls =
      if c == 100
      then on_label (bsd_delete_part s.dlabel) s ls
      else if c == 101
      then on_label (bsd_edit_disklabel s.dlabel) s ls
      else if c == 105
      then elim (bsd_write_bootstrap v p.start_sect s ls) [
        | none ↦ none
        | some (u, rest) ↦ some (u, After.next_command, rest)
      ]
      else if c == 110
      then on_label (bsd_new_part t.geometry p s.dlabel) s ls
      else if c == 113
      then some (s, After.quit, ls)
      else if c == 116
      then on_label (bsd_change_fstype s.dlabel) s ls
      else if c == 119
      then elim (bsd_writelabel v p.start_sect s) [
        | none ↦ none
        | some u ↦ some (u, After.next_command, ls)
      ]
      else if c == 114
      then some (s, After.main_menu, ls)
      else if c == 120
      then on_label (bsd_link_part t s.dlabel) s ls
      else some (s, After.next_command, ls)

  -- One round of the loop of `bselect`.
  unfoldable pub bsd_round :
      Table → Partition → BsdState D → Lines → Option (BsdState D × After × Lines)
  bsd_round t p s ls = elim (read_char ls) [
    | none ↦ none
    | some (text, rest) ↦ bsd_command t p (tolower (first_char text)) s rest
  ]

  -- Any number of rounds.
  pub data Rounds (t : Table) (p : Partition) (s : BsdState D) (ls : Lines)
      : BsdState D → Lines → Type 0 where
    here : Rounds t p s ls s ls
    round :
        {u w : BsdState D} {ms ns : Lines}
        → Rounds t p s ls u ms
        → bsd_round t p u ms ≡ some (w, After.next_command, ns)
        → Rounds t p s ls w ns
