-- ===== src/Fdisk/Input.antt =====
-- fdisk.c: what the editor for Intel partition tables reads. The input is the list of the lines that
-- `fgets` still gives. `none` is the wait of `read_char` for a line behind the last one.
pub mod Bounds
use mac_fdisk.Base.{
  ℕ, zero, suc, ◌+◌, ◌-◌, ◌*◌, ◌/◌, ◌%◌, ◌^◌, Bool, true, false, ◌&&◌, ◌||◌, not, Option, none,
  some, List, [], ◌∷◌, ◌==◌, leb, ltb, if◌then◌else◌,
}
use mac_fdisk.Base.Word.{add32, sub32}
use mac_fdisk.Fdisk.{Geometry}

abbrev pub Lines : Type 0
Lines = List (List ℕ)

abbrev within : ℕ → ℕ → ℕ → Bool
within low high c = leb low c && leb c high

abbrev pub isgraph : ℕ → Bool
isgraph c = within 33 126 c

abbrev pub isdigit : ℕ → Bool
isdigit c = within 48 57 c

abbrev is_space : ℕ → Bool
is_space c = within 9 13 c || (c == 32)

-- `read_line` leaves `line_ptr` at the first character that is not blank.
unfoldable pub skip_blanks : List ℕ → List ℕ
skip_blanks [] = []
skip_blanks (c ∷ l) = let rest = skip_blanks l in if isgraph c then c ∷ l else rest

-- The character at `line_ptr`; 0 ends the text.
abbrev pub first_char : List ℕ → ℕ
first_char [] = 0
first_char (c ∷ l) = c

-- `read_char`, with the text from `line_ptr` on.
unfoldable pub read_char : Lines → Option (List ℕ × Lines)
unfolding skip_blanks
read_char [] = none
read_char (l ∷ ls) =
    let rest = read_char ls in elim (skip_blanks l) [ [] ↦ rest | (c ∷ text) ↦ some (c ∷ text, ls) ]

-- The digits in front, as `atoi` reads them; what does not fit an `int` is cut to 32 bits.
unfoldable pub digits_value : ℕ → List ℕ → ℕ
digits_value acc [] = acc
digits_value acc (c ∷ l) =
    let more = digits_value ((acc * 10 + (c - 48)) % 2 ^ 32) l in if isdigit c then more else acc

unfoldable pub atoi : List ℕ → ℕ
unfolding digits_value
atoi [] = 0
atoi (c ∷ l) =
    let later = atoi l in
    if is_space c
    then later
    else if c == 43
    then digits_value 0 l
    else if c == 45
    then sub32 0 (digits_value 0 l)
    else digits_value 0 (c ∷ l)

unfoldable pub skip_digits : List ℕ → List ℕ
skip_digits [] = []
skip_digits (c ∷ l) = let rest = skip_digits l in if isdigit c then rest else c ∷ l

-- `enum offset`
pub data Offset : Type 0 where
  ignore lower deflt upper : Offset

abbrev pub is_sign : ℕ → Bool
is_sign c = (c == 43) || (c == 45)

abbrev pub is_deflt : Offset → Bool
is_deflt Offset.ignore = false
is_deflt Offset.lower = false
is_deflt Offset.deflt = true
is_deflt Offset.upper = false

-- The letter behind a size.
unfoldable pub scaled : Geometry → ℕ → ℕ → ℕ
scaled g c i =
    if (c == 99) || (c == 67)
    then (if g.unit_flag then i else i * (g.heads * g.sectors) % 2 ^ 32)
    else if (c == 107) || (c == 75)
    then i * 2 % 2 ^ 32 / g.display_factor
    else if (c == 109) || (c == 77)
    then i * 2048 % 2 ^ 32 / g.display_factor
    else i

-- The second `switch`: what a size is added to.
unfoldable pub based : Offset → ℕ → ℕ → ℕ → ℕ → ℕ
based Offset.ignore low dflt high i = i
based Offset.lower low dflt high i = add32 i low
based Offset.deflt low dflt high i = add32 i dflt
based Offset.upper low dflt high i = add32 i high

-- The number that a text stands for, before the test of `use_default`.
unfoldable pub number_of : Geometry → Offset → ℕ → ℕ → ℕ → List ℕ → ℕ
unfolding scaled based atoi skip_digits
number_of g base low dflt high [] = 0
number_of g base low dflt high (c ∷ l) =
    let text = if c == 43 then l else c ∷ l in
    if is_sign c
    then based base low dflt high (scaled g (first_char (skip_digits text)) (atoi text))
    else atoi (c ∷ l)

-- A digit was skipped: behind a `+`, or at `line_ptr`.
unfoldable pub has_digits : List ℕ → Bool
has_digits [] = false
has_digits (c ∷ l) = if c == 43 then isdigit (first_char l) else isdigit c

-- `read_int`; `use_default` is kept from one line to the next.
module _ (g : Geometry) (low dflt high : ℕ) (base : Offset) where
  -- The value that a text gives, and `use_default` behind it.
  unfoldable pub value_of : Bool → List ℕ → ℕ × Bool
  unfolding number_of has_digits
  value_of use_default text =
      let still = use_default && not (has_digits text) in
      (if still then dflt else number_of g base low dflt high text, still)

  unfoldable pub read_lines : Bool → Lines → Option (ℕ × Lines)
  unfolding skip_blanks value_of
  read_lines use_default [] = if is_deflt base then some (dflt, []) else none
  read_lines use_default (l ∷ ls) =
      let text = skip_blanks l in
      let (i, still) = value_of use_default text in
      let skipped = read_lines use_default ls in
      let again = read_lines still ls in
      if isdigit (first_char text) || is_sign (first_char text)
      then (if leb low i && leb i high then some (i, ls) else again)
      else if is_deflt base && (first_char text == 0)
      then some (dflt, ls)
      else skipped

  unfoldable pub read_int : Lines → Option (ℕ × Lines)
  unfolding read_lines
  read_int ls = read_lines true ls
