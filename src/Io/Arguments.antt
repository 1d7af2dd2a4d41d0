-- ===== src/Io/Arguments.antt =====
-- io.c: the arguments of a command.
use mac_fdisk.Base.{
  ℕ, ◌+◌, ◌-◌, ◌*◌, ◌/◌, ◌%◌, Bool, true, false, ◌&&◌, ◌||◌, not, Option, none, some, List, [], ◌∷◌,
  ◌++◌, ◌==◌, leb, ltb, length as length_of, if◌then◌else◌,
}
use mac_fdisk.Io.{
  Input, input, getch, ungetch, ends, is_char, is_blank, between, newline, get_number,
}

-- `get_number_argument(prompt, number, default_value)`, with `*number` as it is left: a call that
-- returns 0 may leave the old value. `none` as default value is a negative one.
unfoldable pub number_from : ℕ → Option ℕ → List (Option ℕ) → ℕ → Option ((Bool × ℕ) × Input)
unfolding ends is_char between ungetch
number_from old default_value [] n = some ((false, old), input [] (n - 1))
number_from old default_value (c ∷ l) n = elim (ends c) [
  | true ↦ some ((false, old), input l (n - 1))
  | false ↦ elim (is_blank c) [
    | true ↦ number_from old default_value l (n - 1)
    | false ↦ elim (is_char newline c) [
      | true ↦ elim default_value [
        | none ↦ number_from old default_value l (n - 1)
        | some v ↦ elim (ungetch c (input l (n - 1))) [ none ↦ none | some s ↦ some ((true, v), s) ]
      ]
      | false ↦ elim (between 48 57 c) [
        | true ↦ elim (get_number c (input l (n - 1))) [
          | none ↦ none
          | some (v, s) ↦ some ((true, v), s)
        ]
        | false ↦ elim (ungetch c (input l (n - 1))) [ none ↦ none | some s ↦ some ((false, 0), s) ]
      ]
    ]
  ]
]

abbrev pub get_number_argument : ℕ → Option ℕ → Input → Option ((Bool × ℕ) × Input)
get_number_argument old default_value s = number_from old default_value s.pending s.unget_count

abbrev pub string_chunk : ℕ
string_chunk = 16

-- The characters in front of the last one.
unfoldable pub but_last : List ℕ → List ℕ
but_last [] = []
but_last (x ∷ []) = []
but_last (x ∷ y ∷ l) = x ∷ but_last (y ∷ l)

unfoldable pub ends_string : ℕ → Option ℕ → Bool
unfolding ends is_char
ends_string eos c = ends c || (is_char eos c || ((eos == 32) && is_char 9 c))

module _ (malloc : ℕ → Bool) where
  -- A buffer that holds the characters `s` is full. `malloc n` is the outcome of an allocation of
  -- `n` bytes.
  unfoldable pub buffer_stuck : List ℕ → Bool
  buffer_stuck s =
      let n = length_of s in ltb 0 n && ((n % string_chunk == 0) && not (malloc (n + string_chunk)))

  unfoldable pub code_of : Option ℕ → ℕ
  code_of none = 0
  code_of (some c) = c

  -- The loop of `get_string` at the character `c`, after the characters `s`.
  unfoldable pub string_from : ℕ → List ℕ → Option ℕ → List (Option ℕ) → ℕ → Option (List ℕ × Input)
  unfolding ends_string is_char ungetch buffer_stuck code_of
  string_from eos s c [] n = elim (buffer_stuck s) [
    | true ↦ some (but_last s, input [] n)
    | false ↦ elim (ends_string eos c) [
      | true ↦ some (s, input [] n)
      | false ↦ elim (is_char newline c) [
        | true ↦ elim (ungetch c (input [] n)) [ none ↦ none | some t ↦ some (s, t) ]
        | false ↦
            let t = s ++ (code_of c ∷ []) in
            some (if buffer_stuck t then but_last t else t, input [] (n - 1))
      ]
    ]
  ]
  string_from eos s c (d ∷ l) n = elim (buffer_stuck s) [
    | true ↦ some (but_last s, input (d ∷ l) n)
    | false ↦ elim (ends_string eos c) [
      | true ↦ some (s, input (d ∷ l) n)
      | false ↦ elim (is_char newline c) [
        | true ↦ elim (ungetch c (input (d ∷ l) n)) [ none ↦ none | some t ↦ some (s, t) ]
        | false ↦ string_from eos (s ++ (code_of c ∷ [])) d l (n - 1)
      ]
    ]
  ]

  -- `get_string(eos)`: no string where the first buffer cannot be allocated.
  unfoldable pub get_string : ℕ → Input → Option (Option (List ℕ) × Input)
  unfolding string_from getch
  get_string eos s =
      if malloc string_chunk
      then (let (c, t) = getch s in
          elim (string_from eos [] c t.pending t.unget_count) [
            | none ↦ none
            | some (r, u) ↦ some (some r, u)
          ])
      else some (none, s)

  -- The characters that open a string without quotes.
  unfoldable pub opens_string : Option ℕ → Bool
  unfolding between is_char
  opens_string c = between 97 122 c || (between 65 90 c || (is_char 45 c || is_char 47 c))

  -- `get_string_argument(prompt, string, reprompt)`: what is returned, and the string.
  unfoldable pub string_argument_from :
      Bool → List (Option ℕ) → ℕ → Option ((Bool × Option (List ℕ)) × Input)
  unfolding ends is_char ungetch opens_string get_string
  string_argument_from reprompt [] n = some ((false, none), input [] (n - 1))
  string_argument_from reprompt (c ∷ l) n = elim (ends c) [
    | true ↦ some ((false, none), input l (n - 1))
    | false ↦ elim (is_blank c || (is_char newline c && reprompt)) [
      | true ↦ string_argument_from reprompt l (n - 1)
      | false ↦ elim (is_char 34 c || is_char 39 c) [
        | true ↦ elim (get_string (code_of c) (input l (n - 1))) [
          | none ↦ none
          | some (r, s) ↦ some ((true, r), s)
        ]
        | false ↦ elim (ungetch c (input l (n - 1))) [
          | none ↦ none
          | some t ↦ elim (opens_string c) [
            | true ↦ elim (get_string 32 t) [ none ↦ none | some (r, s) ↦ some ((true, r), s) ]
            | false ↦ some ((false, none), t)
          ]
        ]
      ]
    ]
  ]

  abbrev pub get_string_argument : Bool → Input → Option ((Bool × Option (List ℕ)) × Input)
  get_string_argument reprompt s = string_argument_from reprompt s.pending s.unget_count

-- The unit that a letter stands for, with the letter kept where it is none.
unfoldable pub unit_of : Option ℕ → ℕ
unfolding is_char
unit_of c =
    if is_char 103 c || is_char 71 c
    then 1024 * 1024 * 1024
    else if is_char 109 c || is_char 77 c
    then 1024 * 1024
    else if is_char 107 c || is_char 75 c
    then 1024
    else 1

-- `get_multiplier(divisor)`; 0 stands for every divisor that is not positive.
unfoldable pub get_multiplier : ℕ → Input → Option (ℕ × Input)
unfolding getch ends unit_of ungetch
get_multiplier divisor s =
    let (c, t) = getch s in
    if ends c || (divisor == 0)
    then some (0, t)
    else if unit_of c == 1
    then elim (ungetch c t) [ none ↦ none | some u ↦ some (1, u) ]
    else some (if leb divisor (unit_of c) then unit_of c / divisor else 1, t)
