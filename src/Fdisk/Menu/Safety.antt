-- ===== src/Fdisk/Menu/Safety.antt =====
-- fdisk.c: which commands of the two loops write to the disk.
use mac_fdisk.Base.{
  List, ℕ, ◌≡◌, ◌≢◌, refl, subst, arith, Bool, true, false, Option, none, some, ◌==◌, if◌then◌else◌,
}
use mac_fdisk.Fdisk.Input.{Lines, Offset, first_char, read_char, read_int}
use mac_fdisk.Fdisk.Table.{Table, toggle_active, delete_partition}
use mac_fdisk.Fdisk.Moving.{move_begin}
use mac_fdisk.Fdisk.Summing.{verify}
use mac_fdisk.Fdisk.Asking.{tolower, get_partition}
use mac_fdisk.Fdisk.Reading.{Sectors, Loaded}
use mac_fdisk.Fdisk.Menu.{
  Following, on_table, on_partition, quietly, checked, on_number, set_cylinders, set_heads,
  set_sectors, change_sysid, new_partition, main_command, xselect_command, menu_round,
}

module _ {D : Type 0} (v : Sectors D) (fuel fresh : ℕ) where
  abbrev SameDisk : Loaded D → Option (Loaded D × Following × Lines) → Type 0
  SameDisk u none = Unit
  SameDisk u (some (w, f, ls)) = w.disk ≡ u.disk

  either :
      (u : Loaded D) (b : Bool) (x y : Option (Loaded D × Following × Lines))
      → SameDisk u x
      → SameDisk u y
      → SameDisk u (if b then x else y)
  either u true x y p q = p
  either u false x y p q = q

  on_table-SameDisk :
      (u : Loaded D) (o : Option (Table × Lines)) → SameDisk u (on_table v fuel fresh u o)
  on_table-SameDisk u none = tt
  on_table-SameDisk u (some (t, ls)) = refl

  on_partition-SameDisk :
      (warn : Bool) (act : ℕ → Table → Lines → Option (Table × Lines)) (u : Loaded D) (ls : Lines)
      → SameDisk u (on_partition v fuel fresh warn act u ls)
  on_partition-SameDisk warn act u ls =
      elim (get_partition warn u.table.partitions u.table ls)
        as (λ o. SameDisk u (elim o [
          | none ↦ none
          | some (i, rest) ↦ on_table v fuel fresh u (act i u.table rest)
        ])) [ none ↦ tt | some (i, rest) ↦ on_table-SameDisk u (act i u.table rest) ]

  on_number-SameDisk :
      (default high : ℕ) (act : ℕ → Table → Table) (u : Loaded D) (ls : Lines)
      → SameDisk u (on_number v fuel fresh default high act u ls)
  on_number-SameDisk default high act u ls =
      elim (read_int u.table.geometry 1 default high Offset.deflt ls)
        as (λ o. SameDisk u (elim o [
          | none ↦ none
          | some (x, rest) ↦ on_table v fuel fresh u (some (act x u.table, rest))
        ])) [ none ↦ tt | some (x, rest) ↦ refl ]

  checked-SameDisk : (u : Loaded D) (ls : Lines) → SameDisk u (checked v fuel fresh u ls)
  checked-SameDisk u ls =
      elim (verify u.table)
        as (λ o.
          SameDisk u (elim o [ none ↦ none | some notices ↦ some (u, Following.same_menu, ls) ])) [
            | none ↦ tt
            | some notices ↦ refl
          ]

  main_command-SameDisk :
      (c : ℕ) (u : Loaded D) (ls : Lines)
      → (c == 119) ≡ false
      → SameDisk u (main_command v fuel fresh c u ls)
  unfolding main_command
  main_command-SameDisk c u ls other =
      either u (c == 97) _ _ (on_partition-SameDisk true (quietly v fuel fresh toggle_active) u ls)
        (either u (c == 98) _ _ refl (
          either u (c == 99) _ _ refl (
            either u (c == 100) _ _
              (on_partition-SameDisk true (quietly v fuel fresh delete_partition) u ls)
              (either u (c == 110) _ _ (on_table-SameDisk u (new_partition fuel fresh u.table ls)) (
                either u (c == 113) _ _ refl (
                  either u (c == 116) _ _ (on_table-SameDisk u (change_sysid u.table ls)) (
                    either u (c == 117) _ _ refl (
                      either u (c == 118) _ _ (checked-SameDisk u ls)
                        (rw other (either u (c == 120) _ _ refl refl))))))))))

  xselect_command-SameDisk :
      (c : ℕ) (u : Loaded D) (ls : Lines)
      → (c == 119) ≡ false
      → SameDisk u (xselect_command v fuel fresh c u ls)
  unfolding xselect_command
  xselect_command-SameDisk c u ls other =
      let g = u.table.geometry in
      either u (c == 98) _ _ (on_partition-SameDisk false move_begin u ls) (
        either u (c == 99) _ _ (on_number-SameDisk g.cylinders 65535 set_cylinders u ls) (
          either u (c == 104) _ _ (on_number-SameDisk g.heads 256 set_heads u ls) (
            either u (c == 113) _ _ refl (
              either u (c == 114) _ _ refl (
                either u (c == 115) _ _ (on_number-SameDisk g.sectors 63 set_sectors u ls)
                  (either u (c == 118) _ _ (checked-SameDisk u ls) (rw other refl)))))))

  -- One round of either loop leaves the disk as it was, unless the command is `w`; `b` ends the round
  -- where `bselect` begins.
  pub menu_round-disk :
      (expert : Bool) (u w : Loaded D) (next : Following) (ls more rest : Lines) (text : List ℕ)
      → read_char ls ≡ some (text, more)
      → tolower (first_char text) ≢ 119
      → menu_round v fuel fresh expert u ls ≡ some (w, next, rest)
      → w.disk ≡ u.disk
  unfolding menu_round
  menu_round-disk expert u w next ls more rest text typed other h =
      let c = tolower (first_char text) in
      let not_w : (c == 119) ≡ false = ground (arith, other) in
      let same : SameDisk u (menu_round v fuel fresh expert u ls) =
        rw (menu_round, typed)
          (either u expert (xselect_command v fuel fresh c u more)
            (main_command v fuel fresh c u more) (xselect_command-SameDisk c u more not_w)
            (main_command-SameDisk c u more not_w)) in
      subst (SameDisk u) h same
