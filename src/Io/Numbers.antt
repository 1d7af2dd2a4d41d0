-- ===== src/Io/Numbers.antt =====
-- The decimal numbers that `get_number` reads.
use mac_fdisk.Base.{
  ℕ, ◌+◌, ◌*◌, ◌%◌, ◌^◌, ◌≡◌, ◌≢◌, ◌≤◌, ◌<◌, refl, arith, true, false, Option, some, List, [], ◌∷◌,
  ◌++◌, map, All, leb,
}
use mac_fdisk.Io.{input, digit_of, between, is_char, getch, ungetch, read_digits, get_number}

-- The number written with the digits `ds` behind the digits of `v`.
unfoldable pub number : ℕ → List ℕ → ℕ
number v [] = v
number v (d ∷ ds) = number (v * 10 + d) ds

abbrev pub digits : List ℕ → List (Option ℕ)
digits ds = map (λ (d : ℕ). some (48 + d)) ds

digit_of-digit : (d : ℕ) → d < 10 → digit_of (some (48 + d)) ≡ d
unfolding digit_of between
digit_of-digit d h = ground arith

number_grows : (v : ℕ) (ds : List ℕ) → v ≤ number v ds
unfolding number
number_grows v [] = omega arith
number_grows v (d ∷ ds) = omega (arith, number_grows (v * 10 + d) ds)

read_digits-stop :
    (v : ℕ) (c : Option ℕ) (l : List (Option ℕ))
    → 10 ≤ digit_of c
    → read_digits 10 v c l 0 ≡ some (v, input (c ∷ l) 1)
unfolding read_digits ungetch
read_digits-stop v c [] h =
    let e : leb 10 (digit_of c) ≡ true = ground arith in rw (read_digits, e) refl
read_digits-stop v c (x ∷ l) h =
    let e : leb 10 (digit_of c) ≡ true = ground arith in rw (read_digits, e) refl

read_digits-number :
    (v d : ℕ) (ds : List ℕ) (c : Option ℕ) (rest : List (Option ℕ))
    → d < 10
    → All (λ x. x < 10) ds
    → 10 ≤ digit_of c
    → number v (d ∷ ds) < 2 ^ 32
    → read_digits 10 v (some (48 + d)) (digits ds ++ (c ∷ rest)) 0
      ≡ some (number v (d ∷ ds), input (c ∷ rest) 1)
unfolding read_digits number
read_digits-number v d [] c rest digit all stop small =
    let here : digit_of (some (48 + d)) ≡ d = digit_of-digit d digit in
    let go : leb 10 d ≡ false = ground arith in
    let exact : (v * 10 + d) % 2 ^ 32 ≡ v * 10 + d = omega (arith, small) in
    rw (read_digits, here, go, here, exact) (read_digits-stop (v * 10 + d) c rest stop)
read_digits-number v d (e ∷ ds) c rest digit all stop small =
    let here : digit_of (some (48 + d)) ≡ d = digit_of-digit d digit in
    let go : leb 10 d ≡ false = ground arith in
    let exact : (v * 10 + d) % 2 ^ 32 ≡ v * 10 + d =
      omega (arith, small, number_grows (v * 10 + d) (e ∷ ds)) in
    rw (read_digits, here, go, here, exact)
      (read_digits-number (v * 10 + d) e ds c rest all.0 all.1 stop small)

-- On decimal digits of which the first is not 0, that make a number below 2^32, and a character
-- behind them that is no decimal digit: `get_number` returns the number, and puts the
-- character back.
pub get_number-number :
    (d : ℕ) (ds : List ℕ) (c : Option ℕ) (rest : List (Option ℕ))
    → 0 < d
    → d < 10
    → All (λ x. x < 10) ds
    → 10 ≤ digit_of c
    → number 0 (d ∷ ds) < 2 ^ 32
    → get_number (some (48 + d)) (input (digits ds ++ (c ∷ rest)) 0)
      ≡ some (number 0 (d ∷ ds), input (c ∷ rest) 1)
unfolding get_number
get_number-number d ds c rest pos digit all stop small =
    let first : is_char 48 (some (48 + d)) ≡ false = unfold is_char in ground arith in
    rw first (read_digits-number 0 d ds c rest digit all stop small)

-- Behind a leading 0 a character other than `x` and `X` is lost: whatever two such characters
-- stand there, the number and the input left are the same.
pub get_number-zero :
    (a b : ℕ) (l : List (Option ℕ))
    → a ≢ 120
    → a ≢ 88
    → b ≢ 120
    → b ≢ 88
    → get_number (some 48) (input (some a ∷ l) 0) ≡ get_number (some 48) (input (some b ∷ l) 0)
unfolding get_number getch is_char
get_number-zero a b l p q r s = ground arith
