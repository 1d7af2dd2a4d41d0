-- ===== src/Fdisk/Placing/Found.antt =====
-- The first sector that the `do` loop of `add_partition` ends with.
use mac_fdisk.Base.{
  ℕ, zero, suc, ◌≡◌, ◌<◌, ◌⊎◌, ◌∙◌, ap, sym, refl, arith, Bool, true, false, Option, none, some,
  ◌==◌, ltb, if◌then◌else◌, Bool-cases, Option-cases, inl, inr,
}
use mac_fdisk.Base.Word.{add32}
use mac_fdisk.Fdisk.Placing.{Search, skip_slots, ask_first, taken_back, rest_of_round, find_start}
use mac_fdisk.Fdisk.Input.{Lines}

abbrev value_or : ℕ → Option (ℕ × Lines) → ℕ
value_or d none = d
value_or d (some r) = r.0

module _ (q : Search) where
  abbrev pub skip : ℕ → ℕ
  skip x = skip_slots (ltb q.number 4) q.sector_offset q.slots x

  -- The inner loop does not move the sector, or it lies behind the limit.
  abbrev pub Settled : ℕ → Type 0
  Settled r = (q.limit < r) ⊎ (skip_slots (ltb q.number 4) q.sector_offset q.slots r ≡ r)

  -- The last sector that was asked about was not moved.
  abbrev pub Steady : Bool → ℕ → Type 0
  Steady read stop = read ≡ true → skip stop ≡ stop

  abbrev pub Again : Type 0
  Again = ℕ → ℕ → Bool → Lines → Option (ℕ × Lines)

  -- What any number of further rounds settles.
  abbrev pub Settles : Again → Type 0
  Settles again =
      (start stop : ℕ) (read : Bool) (ls rest : Lines) (r : ℕ)
      → Steady read stop
      → again start stop read ls ≡ some (r, rest)
      → Settled r

  -- What the rest of a round settles, where going through the loop once more does.
  module _ (again : Again) (stop : ℕ) (settles : Settles again) where
    abbrev this_round : ℕ → ℕ → Bool → Lines → Option (ℕ × Lines)
    this_round now temp read ls = rest_of_round again q now temp stop read ls

    asks :
        (now : ℕ) (ls rest : Lines) (r : ℕ)
        → skip now ≡ now
        → this_round now now false ls ≡ some (r, rest)
        → Settled r
    unfolding rest_of_round
    asks now ls rest r steady e =
        let self : (now == now) ≡ true = ground arith in
        elim (Option-cases (ask_first q (add32 now (if ltb 4 q.number then 1 else 0)) ls)) [
          | inl fails ↦
              let step : this_round now now false ls ≡ none =
                rw (rest_of_round, self, fails) refl in
              absurd (cc (sym step ∙ e))
          | inr ((v, more), answers) ↦ elim (Bool-cases (v == now)) [
            | inl same ↦
                let step : this_round now now false ls ≡ some (v, more) =
                  rw (rest_of_round, self, answers, same) refl in
                let found : v ≡ r = ap (value_or 0) (sym step ∙ e) in
                let at : r ≡ now = ground arith in inr (rw at steady)
            | inr other ↦
                let step : this_round now now false ls ≡ again v now true more =
                  rw (rest_of_round, self, answers, other) refl in
                settles v now true more rest r (λ t. steady) (sym step ∙ e)
          ]
        ]

    accepts :
        (now : ℕ) (ls rest : Lines) (r : ℕ)
        → skip now ≡ now
        → this_round now now true ls ≡ some (r, rest)
        → Settled r
    unfolding rest_of_round
    accepts now ls rest r steady e =
        let self : (now == now) ≡ true = ground arith in
        let step : this_round now now true ls ≡ some (now, ls) = rw (rest_of_round, self) refl in
        let found : now ≡ r = ap (value_or 0) (sym step ∙ e) in inr (rw (sym found) steady)

    moves :
        (now temp : ℕ) (ls rest : Lines) (r : ℕ)
        → (now == temp) ≡ false
        → this_round now temp false ls ≡ some (r, rest)
        → Settled r
    unfolding rest_of_round
    moves now temp ls rest r other e =
        let step : this_round now temp false ls ≡ again now stop false ls =
          rw (rest_of_round, other) refl in
        settles now stop false ls rest r (λ t. absurd (cc t)) (sym step ∙ e)

  module _ (fuel start stop : ℕ) (ls : Lines) where
    abbrev started : Bool → Option (ℕ × Lines)
    started read = find_start (suc fuel) q start stop read ls

    ends_full :
        (read : Bool) → ltb q.limit (skip start) ≡ true → started read ≡ some (skip start, ls)
    unfolding find_start
    ends_full read full = rw (find_start, full) refl

    -- Where the message does not come.
    stays :
        (read : Bool)
        → ltb q.limit (skip start) ≡ false
        → skip start ≡ start
        → started read ≡ rest_of_round (find_start fuel q) q start start stop read ls
    unfolding find_start
    stays read room same =
        let kept : taken_back stop (skip start) start read ≡ (start, start, read) =
          not_taken read same in
        rw (find_start, room, kept) refl
      where
        not_taken :
            (read : Bool)
            → skip start ≡ start
            → taken_back stop (skip start) start read ≡ (start, start, read)
        not_taken read same =
            let self : (start == start) ≡ true = ground arith in
            unfold taken_back in rw (same, self) refl

    goes_back :
        ltb q.limit (skip start) ≡ false
        → (skip start == start) ≡ false
        → started true ≡ rest_of_round (find_start fuel q) q stop stop stop false ls
    unfolding find_start
    goes_back room moved =
        let taken : taken_back stop (skip start) start true ≡ (stop, stop, false) =
          unfold taken_back in rw moved refl in
        rw (find_start, room, taken) refl

    goes_on :
        ltb q.limit (skip start) ≡ false
        → (skip start == start) ≡ false
        → started false ≡ rest_of_round (find_start fuel q) q (skip start) start stop false ls
    unfolding find_start
    goes_on room moved =
        let kept : taken_back stop (skip start) start false ≡ (skip start, start, false) =
          unfold taken_back in rw moved refl in
        rw (find_start, room, kept) refl

  module _ (fuel start stop : ℕ) (ls rest : Lines) (r : ℕ) (go : Settles (find_start fuel q)) where
    here :
        (read : Bool)
        → skip start ≡ start
        → rest_of_round (find_start fuel q) q start start stop read ls ≡ some (r, rest)
        → Settled r
    here true kept e = accepts (find_start fuel q) stop go start ls rest r kept e
    here false kept e = asks (find_start fuel q) stop go start ls rest r kept e

    away :
        (read : Bool)
        → Steady read stop
        → ltb q.limit (skip start) ≡ false
        → (skip start == start) ≡ false
        → find_start (suc fuel) q start stop read ls ≡ some (r, rest)
        → Settled r
    away true h room moved e =
        asks (find_start fuel q) stop go stop ls rest r (h refl)
          (sym (goes_back fuel start stop ls room moved) ∙ e)
    away false h room moved e =
        moves (find_start fuel q) stop go (skip start) start ls rest r moved
          (sym (goes_on fuel start stop ls room moved) ∙ e)

    one_round :
        (read : Bool)
        → Steady read stop
        → find_start (suc fuel) q start stop read ls ≡ some (r, rest)
        → Settled r
    one_round read h e = elim (Bool-cases (ltb q.limit (skip start))) [
      | inl full ↦
          let found : skip start ≡ r =
            ap (value_or 0) (sym (ends_full fuel start stop ls read full) ∙ e) in
          inl (ground (arith, found, full))
      | inr room ↦ elim (Bool-cases (skip start == start)) [
        | inl same ↦
            let kept : skip start ≡ start = ground arith in
            here read kept (sym (stays fuel start stop ls read room kept) ∙ e)
        | inr moved ↦ away read h room moved e
      ]
    ]

  -- The loop ends with a sector that is settled.
  pub find_start-Settled : (fuel : ℕ) → Settles (find_start fuel q)
  unfolding find_start
  find_start-Settled zero start stop read ls rest r h e = cc
  find_start-Settled (suc fuel) start stop read ls rest r h e =
      one_round fuel start stop ls rest r (find_start-Settled fuel) read h e
