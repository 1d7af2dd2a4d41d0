-- ===== src/Fdisk/Placing/Chosen.antt =====
-- The sectors that `add_partition` chooses.
use native.Mathlib.Nat.{lt-div-mul-add, mul-le-mul_right, div-mul-le_self, div-one}
use mac_fdisk.Base.{
  ℕ, ◌+◌, ◌*◌, ◌/◌, ◌%◌, ◌^◌, ◌≡◌, ◌≤◌, ◌<◌, ◌∙◌, ap, sym, refl, arith, Bool, true, false, Option,
  none, some, ◌==◌, ltb, if◌then◌else◌, All, All-mono, Bool-cases, Option-cases, inl, inr, subst,
}
use mac_fdisk.Base.Word.{add32, sub32}
use mac_fdisk.Fdisk.{Geometry}
use mac_fdisk.Fdisk.Input.{Lines, Offset, read_int}
use mac_fdisk.Fdisk.Input.Bounds.{read_int-range}
use mac_fdisk.Fdisk.Placing.{
  Search, Choice, cround, lower_limits, adjusted, ask_last, find_start, choose_sectors,
}
use mac_fdisk.Fdisk.Placing.Apart.{
  Fits, Outside, Apart, Apart-mono, skip_slots-Outside, lower_limits-le, lower_limits-Apart,
  at_slot-All, at_slot-All_back,
}
use mac_fdisk.Fdisk.Placing.Found.{Settled, find_start-Settled}

-- The units of a geometry are set as `update_units` sets them.
pub record IsScaled (g : Geometry) : Type 0 where
  pub some_factor : 0 < g.display_factor
  pub sectors : g.unit_flag ≡ false → g.display_factor ≡ 1

abbrev value_or : ℕ → Option (ℕ × Lines) → ℕ
value_or d none = d
value_or d (some r) = r.0

module _ (g : Geometry) (w : IsScaled g) (start limit : ℕ) (ordered : start ≤ limit)
    (room : limit + g.display_factor < 2 ^ 32) where
  cround_sectors : (n : ℕ) → n ≤ limit → g.unit_flag ≡ false → cround g n ≡ n
  unfolding cround add32
  cround_sectors n h e = let one = w.sectors e in rw (e, one) (omega (arith, div-one (n % 2 ^ 32)))

  cround_units :
      (n : ℕ)
      → n ≤ limit
      → g.unit_flag ≡ true
      → cround g n ≡ (n + g.display_factor) / g.display_factor
  unfolding cround add32
  cround_units n h e =
      let sum : (n + g.display_factor) % 2 ^ 32 ≡ n + g.display_factor = omega arith in
      rw (e, sum) refl

  -- What the answer `v` to the last question stands for.
  abbrev last_of : ℕ → ℕ
  last_of v =
      let sector = sub32 (v * g.display_factor % 2 ^ 32) 1 in
      if g.unit_flag then (if ltb limit sector then limit else sector) else v

  last_of-bounds :
      (v : ℕ) → cround g start ≤ v → v ≤ cround g limit → (start ≤ last_of v) × (last_of v ≤ limit)
  unfolding sub32
  last_of-bounds v low high = elim (Bool-cases g.unit_flag) [
    | inr e ↦
        let a = cround_sectors start ordered e in
        let b = cround_sectors limit (omega arith) e in
        rw e (omega (arith, low, a), omega (arith, high, b))
    | inl e ↦
        let f = g.display_factor in
        let a = cround_units start ordered e in
        let b = cround_units limit (omega arith) e in
        let from : (start + f) / f * f ≤ v * f = mul-le-mul_right f (omega (arith, low, a)) in
        let to : v * f ≤ (limit + f) / f * f = mul-le-mul_right f (omega (arith, high, b)) in
        let above : start < v * f =
          omega (arith, from, lt-div-mul-add {a = start + f} {b = f} w.some_factor) in
        let below : v * f < 2 ^ 32 = omega (arith, to, div-mul-le_self (limit + f) f) in
        rw e (ground (arith, above, below), ground arith)
  ]

  pub ask_last-bounds :
      (ls rest : Lines) (v : ℕ)
      → ask_last g start limit ls ≡ some (v, rest)
      → (start ≤ v) × (v ≤ limit)
  unfolding ask_last
  ask_last-bounds ls rest v e = elim (Bool-cases (cround g start == cround g limit)) [
    | inl same ↦
        let step : ask_last g start limit ls ≡ some (start, ls) = rw (ask_last, same) refl in
        let found : start ≡ v = ap (value_or 0) (sym step ∙ e) in
        (omega (arith, found), omega (arith, found))
    | inr other ↦
        elim (Option-cases
          (read_int g (cround g start) (cround g limit) (cround g limit) Offset.lower ls)) [
            | inl fails ↦
                let step : ask_last g start limit ls ≡ none = rw (ask_last, other, fails) refl in
                absurd (cc (sym step ∙ e))
            | inr ((u, more), answers) ↦
                let step : ask_last g start limit ls ≡ some (last_of u, more) =
                  rw (ask_last, other, answers) refl in
                let found : last_of u ≡ v = ap (value_or 0) (sym step ∙ e) in
                let (low, high) =
                  read_int-range g (cround g start) (cround g limit) (cround g limit) Offset.lower
                    refl ls u more answers in
                let (a, b) = last_of-bounds u low high in
                (omega (arith, found, a), omega (arith, found, b))
          ]
  ]

start_of : Option (Choice × Lines) → ℕ
start_of none = 0
start_of (some (Choice.no_room start, rest)) = 0
start_of (some (Choice.sectors start stop, rest)) = start

stop_of : Option (Choice × Lines) → ℕ
stop_of none = 0
stop_of (some (Choice.no_room start, rest)) = 0
stop_of (some (Choice.sectors start stop, rest)) = stop

is_chosen : Option (Choice × Lines) → Bool
is_chosen none = false
is_chosen (some (Choice.no_room start, rest)) = false
is_chosen (some (Choice.sectors start stop, rest)) = true

module _ (q : Search) (w : IsScaled q.geometry) (some_offset : 0 < q.sector_offset)
    (fits : All (Fits q.sector_offset) q.slots)
    (room : q.limit + q.geometry.display_factor < 2 ^ 32) where
  abbrev lowered : ℕ → ℕ
  lowered start = lower_limits start (adjusted q start) q.limit

  -- The new offset of the slot itself makes no difference.
  lowered-Apart :
      (start : ℕ) → All (Outside start) q.slots → All (Apart start (lowered start)) q.slots
  unfolding adjusted
  lowered-Apart start h = elim (Bool-cases (ltb 4 q.number)) [
    | inr plain ↦ rw plain (lower_limits-Apart start q.slots q.limit h)
    | inl later ↦
        let o = sub32 start q.sector_offset in
        rw later (
          at_slot-All_back _ o q.number q.slots (λ s k. k)
            (lower_limits-Apart start _ q.limit
              (at_slot-All (Outside start) o q.number q.slots (λ s k. k) h)))
  ]

  abbrev Chosen : ℕ → ℕ → Type 0
  Chosen start stop = (start ≤ stop) × (stop ≤ q.limit) × All (Apart start stop) q.slots

  -- What follows of a settled sector and one up to the lowered limit.
  Settled-Chosen :
      (start stop : ℕ) → Settled q start → start ≤ stop → stop ≤ lowered start → Chosen start stop
  Settled-Chosen start stop settled ordered below =
      let within = lower_limits-le start (adjusted q start) q.limit in
      (
        ordered,
        omega (arith, below, within),
        All-mono _ _ q.slots (λ s h. Apart-mono start stop (lowered start) s below h)
            (lowered-Apart start outside),
      )
    where
      outside : All (Outside start) q.slots
      outside = elim settled [
        | inl beyond ↦ absurd (
            omega (arith, ordered, below, beyond, lower_limits-le start (adjusted q start) q.limit))
        | inr still ↦
            skip_slots-Outside (ltb q.number 4) q.sector_offset some_offset q.slots start fits still
      ]

  module _ (fuel from : ℕ) (ls : Lines) (s : ℕ) (more : Lines)
      (finds : find_start fuel q from 0 false ls ≡ some (s, more)) where
    full : ltb (lowered s) s ≡ true → choose_sectors fuel q from ls ≡ some (Choice.no_room s, more)
    unfolding choose_sectors
    full e = rw (choose_sectors, finds, e) refl

    waits :
        ltb (lowered s) s ≡ false
        → ask_last q.geometry s (lowered s) more ≡ none
        → choose_sectors fuel q from ls ≡ none
    unfolding choose_sectors
    waits e fails = rw (choose_sectors, finds, e, fails) refl

    answers :
        (v : ℕ) (rest : Lines)
        → ltb (lowered s) s ≡ false
        → ask_last q.geometry s (lowered s) more ≡ some (v, rest)
        → choose_sectors fuel q from ls ≡ some (Choice.sectors s v, rest)
    unfolding choose_sectors
    answers v rest e last = rw (choose_sectors, finds, e, last) refl

    from_start :
        (start stop : ℕ) (rest : Lines)
        → choose_sectors fuel q from ls ≡ some (Choice.sectors start stop, rest)
        → Chosen start stop
    unfolding start_of stop_of is_chosen
    from_start start stop rest e = elim (Bool-cases (ltb (lowered s) s)) [
      | inl none_left ↦ absurd (ground (arith, ap is_chosen (sym (full none_left) ∙ e)))
      | inr left_over ↦ elim (Option-cases (ask_last q.geometry s (lowered s) more)) [
        | inl fails ↦ absurd (ground (arith, ap is_chosen (sym (waits left_over fails) ∙ e)))
        | inr ((v, left), last) ↦
            let a : s ≡ start = ap start_of (sym (answers v left left_over last) ∙ e) in
            let b : v ≡ stop = ap stop_of (sym (answers v left left_over last) ∙ e) in
            let within = lower_limits-le s (adjusted q s) q.limit in
            let (low, high) =
              ask_last-bounds q.geometry w s (lowered s) (ground arith) (omega (arith, within)) more
                left v last in
            subst (λ x. Chosen x stop) a
              (subst (λ x. Chosen s x) b
                (Settled-Chosen s v
                  (find_start-Settled q fuel from 0 false ls more s (λ t. absurd (cc t)) finds) low
                  high))
      ]
    ]

  -- Where no sum with the bounds of an entry comes to 2^32 and the units are set: the sectors that
  -- `add_partition` chooses, whatever is typed, lie in order up to the limit, and no entry that
  -- `check_bounds` found has one of them.
  pub choose_sectors-Chosen :
      (fuel from start stop : ℕ) (ls rest : Lines)
      → choose_sectors fuel q from ls ≡ some (Choice.sectors start stop, rest)
      → (start ≤ stop) × (stop ≤ q.limit) × All (Apart start stop) q.slots
  unfolding is_chosen
  choose_sectors-Chosen fuel from start stop ls rest e =
      elim (Option-cases (find_start fuel q from 0 false ls)) [
        | inl fails ↦
            let step : choose_sectors fuel q from ls ≡ none =
              unfold choose_sectors in rw (choose_sectors, fails) refl in
            absurd (ground (arith, ap is_chosen (sym step ∙ e)))
        | inr ((s, more), finds) ↦ from_start fuel from ls s more finds start stop rest e
      ]
