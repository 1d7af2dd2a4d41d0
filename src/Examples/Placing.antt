-- ===== src/Examples/Placing.antt =====
-- Numbers typed for `read_int`, and the search for the sectors of a new partition.
use mac_fdisk.Base.{ℕ, ◌≡◌, ◌≤◌, inl, inr, refl, arith, some, [], ◌∷◌, All}
use mac_fdisk.Base.Word.{add32, sub32}
use mac_fdisk.Base.Strings.{codes}
use mac_fdisk.Fdisk.Input.{
  Lines, Offset, skip_blanks, atoi, digits_value, number_of, scaled, based, skip_digits, has_digits,
  value_of, read_lines, read_int,
}
use mac_fdisk.Fdisk.Input.Bounds.{SomeSuits, read_int-InRange}
use mac_fdisk.Fdisk.Placing.{
  Slot, Search, Choice, cround, skip_slots, ask_first, taken_back, rest_of_round, find_start,
  lower_limits, ask_last, adjusted, choose_sectors,
}
use mac_fdisk.Fdisk.Placing.Apart.{Apart}
use mac_fdisk.Fdisk.Placing.Chosen.{choose_sectors-Chosen}
use mac_fdisk.Examples.Chains.{disk}

-- A word, a number that is too large, and the number 7.
abbrev typed : Lines
typed = codes "help" ∷ codes "70" ∷ codes "  7" ∷ []

typed_suits : SomeSuits 1 60 typed
unfolding skip_blanks atoi digits_value
typed_suits = inr (inr (inl (refl, omega arith, omega arith)))

read_int-InRange_example :
    (i : ℕ) × (rest : Lines) × (read_int disk 1 60 60 Offset.ignore typed ≡ some (i, rest))
    × (1 ≤ i)
    × (i ≤ 60)
read_int-InRange_example = read_int-InRange disk 1 60 60 Offset.ignore refl typed typed_suits

-- One partition from sector 63 to 20159, and three entries that are not in use.
abbrev unused : Slot
unused = record { offset = 0; first = 4294967295; last = 0 }

abbrev first_used : Search
first_used = record {
  geometry = disk;
  sector_offset = 63;
  number = 1;
  slots = record { offset = 0; first = 63; last = 20159 } ∷ unused ∷ unused ∷ unused ∷ [];
  limit = 806399;
}

abbrev answers : Lines
answers = codes "30000" ∷ codes "+5000" ∷ []

chooses : choose_sectors 5 first_used 63 answers ≡ some (Choice.sectors 30000 35000, [])
unfolding choose_sectors find_start skip_slots taken_back rest_of_round ask_first cround
    lower_limits ask_last adjusted read_int read_lines value_of number_of has_digits skip_blanks
    atoi digits_value scaled based skip_digits add32 sub32
chooses = refl

choose_sectors-Chosen_example :
    (30000 ≤ 35000) × (35000 ≤ 806399) × All (Apart 30000 35000) first_used.slots
choose_sectors-Chosen_example =
    choose_sectors-Chosen first_used (record { some_factor = omega arith; sectors = λ e. refl })
      (omega arith)
      (
        (omega arith, omega arith),
        (
          (omega arith, omega arith),
          ((omega arith, omega arith), ((omega arith, omega arith), tt)),
        ),
      )
      (omega arith) 5 63 30000 35000 answers [] chooses
