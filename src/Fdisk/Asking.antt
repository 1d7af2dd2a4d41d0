-- ===== src/Fdisk/Asking.antt =====
-- fdisk.c: the questions for a partition and for a type.
use mac_fdisk.Base.{
  ℕ, ◌+◌, ◌-◌, ◌*◌, ◌%◌, ◌^◌, Bool, ◌&&◌, ◌||◌, Option, none, some, List, [], ◌∷◌, leb,
  if◌then◌else◌,
}
use mac_fdisk.Base.Word.{sub32}
use mac_fdisk.Fdisk.Input.{Lines, Offset, isdigit, skip_blanks, read_int}
use mac_fdisk.Fdisk.Table.{Table, deref}

abbrev pub tolower : ℕ → ℕ
tolower c = if leb 65 c && leb c 90 then c + 32 else c

abbrev pub isxdigit : ℕ → Bool
isxdigit c = isdigit c || (leb 97 (tolower c) && leb (tolower c) 102)

abbrev pub hex_val : ℕ → ℕ
hex_val c = if isdigit c then c - 48 else tolower c + 10 - 97

-- The hexadecimal digits in front.
unfoldable pub hex_digits : ℕ → List ℕ → ℕ
hex_digits hex [] = hex
hex_digits hex (c ∷ l) =
    let more = hex_digits ((hex * 16 + hex_val c) % 2 ^ 32) l in if isxdigit c then more else hex

-- `read_hex`; `l` lists the types and asks again.
unfoldable pub read_hex : Lines → Option (ℕ × Lines)
unfolding skip_blanks hex_digits
read_hex [] = none
read_hex (l ∷ ls) =
    let again = read_hex ls in
    elim (skip_blanks l) [
      | [] ↦ again
      | c ∷ text ↦ if isxdigit c then some (hex_digits 0 (c ∷ text), ls) else again
    ]

-- `get_partition(warn, max)`. With `warn` the entry is read for its type.
unfoldable pub get_partition : Bool → ℕ → Table → Lines → Option (ℕ × Lines)
unfolding deref read_int
get_partition warn max t ls = elim (read_int t.geometry 1 max max Offset.ignore ls) [
  | none ↦ none
  | some (v, rest) ↦
      let i = sub32 v 1 in
      if warn
      then elim (deref t (t.part_table i)) [ none ↦ none | some p ↦ some (i, rest) ]
      else some (i, rest)
]
