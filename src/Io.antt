-- ===== src/Io.antt =====
-- io.c: input of characters, numbers and strings. `Input` holds the characters still to come: the
-- first `unget_count` of them stand in `unget_buf`, the others on the standard input. A character
-- that is not there is `EOF`. Prompts and messages are left out; `none` as a whole result is
-- the exit of the program by `fatal`.
pub mod Arguments
pub mod Digits
pub mod Numbers
use mac_fdisk.Base.{
  ℕ, zero, suc, ◌+◌, ◌-◌, ◌*◌, ◌/◌, ◌%◌, ◌^◌, Bool, true, false, ◌&&◌, ◌||◌, not, Option, none,
  some, List, [], ◌∷◌, ◌++◌, ◌==◌, leb, ltb, length as length_of, if◌then◌else◌, map,
}

pub record Input : Type 0 where
  pub pending : List (Option ℕ)
  pub unget_count : ℕ

abbrev pub input : List (Option ℕ) → ℕ → Input
input l n = record { pending = l; unget_count = n }

abbrev pub unget_max_count : ℕ
unget_max_count = 10

-- `getch()`
unfoldable pub getch : Input → Option ℕ × Input
getch s = elim s.pending [
  | [] ↦ (none, input [] (s.unget_count - 1))
  | c ∷ l ↦ (c, input l (s.unget_count - 1))
]

-- `ungetch(c)`
unfoldable pub ungetch : Option ℕ → Input → Option Input
ungetch c s =
    if ltb s.unget_count unget_max_count
    then some (input (c ∷ s.pending) (s.unget_count + 1))
    else none

-- `c <= 0`
unfoldable pub ends : Option ℕ → Bool
ends none = true
ends (some c) = c == 0

unfoldable pub is_char : ℕ → Option ℕ → Bool
is_char x none = false
is_char x (some c) = c == x

abbrev pub newline : ℕ
newline = 10

abbrev pub is_blank : Option ℕ → Bool
is_blank c = is_char 32 c || is_char 9 c

-- `lo <= c && c <= hi`
unfoldable pub between : ℕ → ℕ → Option ℕ → Bool
between lo hi none = false
between lo hi (some c) = leb lo c && leb c hi

-- `flush_to_newline(keep_newline)`, `n` counting the characters in `unget_buf`.
unfoldable pub flush : Bool → List (Option ℕ) → ℕ → Option Input
unfolding ends is_char ungetch
flush keep [] n = some (input [] (n - 1))
flush keep (c ∷ l) n = elim (ends c) [
  | true ↦ some (input l (n - 1))
  | false ↦ elim (is_char newline c) [
    | true ↦ if keep then ungetch c (input l (n - 1)) else some (input l (n - 1))
    | false ↦ flush keep l (n - 1)
  ]
]

abbrev pub flush_to_newline : Bool → Input → Option Input
flush_to_newline keep s = flush keep s.pending s.unget_count

-- What `get_okay` returns: 1, 0 or the default value, or -1.
pub data Answer : Type 0 where
  okay not_okay by_default ended : Answer

-- The loop of `get_okay`. `flushing` says that the call of `flush_to_newline` in the last branch is
-- under way.
unfoldable pub ask_okay : Bool → List (Option ℕ) → ℕ → Option (Answer × Input)
unfolding ends is_char ungetch
ask_okay flushing [] n = some (Answer.ended, input [] (n - 1))
ask_okay true (c ∷ l) n = elim (ends c || is_char newline c) [
  | true ↦ ask_okay false l (n - 1)
  | false ↦ ask_okay true l (n - 1)
]
ask_okay false (c ∷ l) n = elim (ends c) [
  | true ↦ some (Answer.ended, input l (n - 1))
  | false ↦ elim (is_blank c) [
    | true ↦ ask_okay false l (n - 1)
    | false ↦ elim (is_char newline c) [
      | true ↦ elim (ungetch c (input l (n - 1))) [
        | none ↦ none
        | some s ↦ some (Answer.by_default, s)
      ]
      | false ↦ elim (is_char 121 c || is_char 89 c) [
        | true ↦ some (Answer.okay, input l (n - 1))
        | false ↦ elim (is_char 110 c || is_char 78 c) [
          | true ↦ some (Answer.not_okay, input l (n - 1))
          | false ↦ ask_okay true l (n - 1)
        ]
      ]
    ]
  ]
]

-- `get_okay(prompt, default_value)`
unfoldable pub get_okay : Input → Option (Answer × Input)
unfolding flush ask_okay
get_okay s = elim (flush_to_newline false s) [
  | none ↦ none
  | some t ↦ ask_okay false t.pending t.unget_count
]

-- `get_command`: the command, where there is one.
unfoldable pub command_from : List (Option ℕ) → ℕ → Option ℕ × Input
unfolding ends is_char
command_from [] n = (none, input [] (n - 1))
command_from (c ∷ l) n = elim (ends c) [
  | true ↦ (none, input l (n - 1))
  | false ↦ elim (is_blank c || is_char newline c) [
    | true ↦ command_from l (n - 1)
    | false ↦ (c, input l (n - 1))
  ]
]

abbrev pub get_command : Input → Option ℕ × Input
get_command s = command_from s.pending s.unget_count

abbrev pub bad_digit : ℕ
bad_digit = 17

-- The digit that a character stands for.
unfoldable pub digit_of : Option ℕ → ℕ
unfolding between
digit_of none = bad_digit
digit_of (some c) =
    if between 48 57 (some c)
    then c - 48
    else if between 65 70 (some c)
    then 10 + (c - 65)
    else if between 97 102 (some c)
    then 10 + (c - 97)
    else bad_digit

-- The loop of `get_number` from the character `c`. The value is that of a 32-bit register: signed
-- overflow, which C leaves open, is taken to wrap.
unfoldable pub read_digits : ℕ → ℕ → Option ℕ → List (Option ℕ) → ℕ → Option (ℕ × Input)
unfolding digit_of ungetch
read_digits base value c [] n = elim (leb base (digit_of c)) [
  | true ↦ elim (ungetch c (input [] n)) [ none ↦ none | some s ↦ some (value, s) ]
  | false ↦ elim (ungetch none (input [] (n - 1))) [
    | none ↦ none
    | some s ↦ some ((value * base + digit_of c) % 2 ^ 32, s)
  ]
]
read_digits base value c (d ∷ l) n = elim (leb base (digit_of c)) [
  | true ↦ elim (ungetch c (input (d ∷ l) n)) [ none ↦ none | some s ↦ some (value, s) ]
  | false ↦ read_digits base ((value * base + digit_of c) % 2 ^ 32) d l (n - 1)
]

-- `get_number(first_char)`. In the last branch the character behind the zero is lost.
unfoldable pub get_number : Option ℕ → Input → Option (ℕ × Input)
unfolding read_digits getch is_char
get_number first_char s =
    if not (is_char 48 first_char)
    then read_digits 10 0 first_char s.pending s.unget_count
    else let (c, t) = getch s in
      if is_char 120 c || is_char 88 c
      then (let (d, u) = getch t in read_digits 16 0 d u.pending u.unget_count)
      else read_digits 8 0 first_char t.pending t.unget_count
