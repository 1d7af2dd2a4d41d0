-- ===== src/Fdisk/Input/Bounds.antt =====
-- What `read_int` answers.
use mac_fdisk.Base.{
  ℕ, ◌≡◌, ◌==◌, ◌≤◌, ◌⊎◌, ◌∙◌, arith, Bool, true, false, ◌&&◌, ◌||◌, Option, none, some, sym, ap,
  List, [], ◌∷◌, leb, Bool-cases, inl, inr, refl,
}
use mac_fdisk.Fdisk.{Geometry}
use mac_fdisk.Fdisk.Input.{
  Lines, Offset, skip_blanks, first_char, isdigit, is_sign, is_deflt, atoi, number_of, has_digits,
  value_of, read_lines, read_int,
}

-- The line is a number from `low` to `high`.
abbrev pub Suits : ℕ → ℕ → List ℕ → Type 0
Suits low high l =
    (isdigit (first_char (skip_blanks l)) ≡ true)
    × (low ≤ atoi (skip_blanks l))
    × (atoi (skip_blanks l) ≤ high)

-- One of the lines is.
abbrev pub SomeSuits : ℕ → ℕ → Lines → Type 0
SomeSuits low high [] = ⊥
SomeSuits low high (l ∷ ls) = Suits low high l ⊎ SomeSuits low high ls

abbrev value_or : ℕ → Option (ℕ × Lines) → ℕ
value_or d none = d
value_or d (some r) = r.0

module _ (g : Geometry) (low dflt high : ℕ) (base : Offset) (plain : is_deflt base ≡ false) where
  -- A number without a sign stands for itself.
  value_of_number :
      (use_default : Bool) (text : List ℕ)
      → isdigit (first_char text) ≡ true
      → value_of g low dflt high base use_default text ≡ (atoi text, false)
  unfolding value_of number_of has_digits
  value_of_number use_default [] d = absurd (ground arith)
  value_of_number use_default (c ∷ l) d =
      let no_plus : (c == 43) ≡ false = ground arith in
      let no_minus : (c == 45) ≡ false = ground arith in
      let quits : (use_default && false) ≡ false = ground arith in
      rw (no_plus, no_minus, d, quits) refl

  abbrev InRange : Bool → Lines → Type 0
  InRange use_default ls =
      (i : ℕ) × (rest : Lines) × (read_lines g low dflt high base use_default ls ≡ some (i, rest))
      × (low ≤ i)
      × (i ≤ high)

  abbrev text_of : List ℕ → List ℕ
  text_of l = skip_blanks l

  abbrev value : Bool → List ℕ → ℕ × Bool
  value use_default l = value_of g low dflt high base use_default (skip_blanks l)

  abbrev starts : List ℕ → Bool
  starts l = isdigit (first_char (skip_blanks l)) || is_sign (first_char (skip_blanks l))

  abbrev fits : Bool → List ℕ → Bool
  fits use_default l = leb low (value use_default l).0 && leb (value use_default l).0 high

  module _ (use_default : Bool) (l : List ℕ) (ls : Lines) where
    answers : starts l ≡ true → fits use_default l ≡ true → InRange use_default (l ∷ ls)
    unfolding read_lines
    answers s f =
        ((value use_default l).0, ls, rw (read_lines, s, f) refl, ground arith, ground arith)

    again :
        starts l ≡ true
        → fits use_default l ≡ false
        → InRange (value use_default l).1 ls
        → InRange use_default (l ∷ ls)
    unfolding read_lines
    again s f (i, rest, e, b, c) = (i, rest, rw (read_lines, s, f) e, b, c)

    skips : starts l ≡ false → InRange use_default ls → InRange use_default (l ∷ ls)
    unfolding read_lines
    skips s (i, rest, e, b, c) = (i, rest, rw (read_lines, s, plain) e, b, c)

    Suits-fits : Suits low high l → (starts l ≡ true) × (fits use_default l ≡ true)
    Suits-fits (d, b, c) =
        let v = value_of_number use_default (skip_blanks l) d in (ground arith, rw v (ground arith))

  read_lines-InRange :
      (use_default : Bool) (ls : Lines) → SomeSuits low high ls → InRange use_default ls
  read_lines-InRange use_default [] h = absurd h
  read_lines-InRange use_default (l ∷ ls) (inl h) =
      let (s, f) = Suits-fits use_default l ls h in answers use_default l ls s f
  read_lines-InRange use_default (l ∷ ls) (inr h) = elim (Bool-cases (starts l)) [
    | inr s ↦ skips use_default l ls s (read_lines-InRange use_default ls h)
    | inl s ↦ elim (Bool-cases (fits use_default l)) [
      | inl f ↦ answers use_default l ls s f
      | inr f ↦ again use_default l ls s f (read_lines-InRange (value use_default l).1 ls h)
    ]
  ]

  -- Where some line of the input is a number from `low` to `high`, and no default is offered for an
  -- empty line: `read_int` returns, and the value that it returns lies from `low` to `high`.
  pub read_int-InRange :
      (ls : Lines)
      → SomeSuits low high ls
      → (i : ℕ) × (rest : Lines) × (read_int g low dflt high base ls ≡ some (i, rest))
        × (low ≤ i)
        × (i ≤ high)
  unfolding read_int
  read_int-InRange ls h = read_lines-InRange true ls h

  -- Whatever line it stops at.
  read_lines-range :
      (use_default : Bool) (ls : Lines) (i : ℕ) (rest : Lines)
      → read_lines g low dflt high base use_default ls ≡ some (i, rest)
      → (low ≤ i) × (i ≤ high)
  unfolding read_lines
  read_lines-range use_default [] i rest e = absurd (ground (arith, plain))
  read_lines-range use_default (l ∷ ls) i rest e = elim (Bool-cases (starts l)) [
    | inr s ↦
        let step : read_lines g low dflt high base use_default (l ∷ ls)
            ≡ read_lines g low dflt high base use_default ls =
          rw (read_lines, s, plain) refl in
        read_lines-range use_default ls i rest (sym step ∙ e)
    | inl s ↦ elim (Bool-cases (fits use_default l)) [
      | inl f ↦
          let step : read_lines g low dflt high base use_default (l ∷ ls)
              ≡ some ((value use_default l).0, ls) =
            rw (read_lines, s, f) refl in
          let same : (value use_default l).0 ≡ i = ap (λ o. value_or 0 o) (sym step ∙ e) in
          ground (arith, f, same)
      | inr f ↦
          let step : read_lines g low dflt high base use_default (l ∷ ls)
              ≡ read_lines g low dflt high base (value use_default l).1 ls =
            rw (read_lines, s, f) refl in
          read_lines-range (value use_default l).1 ls i rest (sym step ∙ e)
    ]
  ]

  pub read_int-range :
      (ls : Lines) (i : ℕ) (rest : Lines)
      → read_int g low dflt high base ls ≡ some (i, rest)
      → (low ≤ i) × (i ≤ high)
  unfolding read_int
  read_int-range ls i rest e = read_lines-range true ls i rest e
