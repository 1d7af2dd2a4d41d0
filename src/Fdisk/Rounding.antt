-- ===== src/Fdisk/Rounding.antt =====
-- `rounded` ends, with the multiple that it looks for.
use mac_fdisk.Base.{
  ℕ, zero, suc, ◌+◌, ◌*◌, ◌^◌, ◌≡◌, ◌≤◌, ◌<◌, ◌⊎◌, refl, sym, subst, inl, inr, arith, true, false,
  Option, some, leb, Bool-cases,
}
use mac_fdisk.Base.Word.{add32_exact}
use mac_fdisk.Fdisk.{Geometry, round_up, rounded}

-- The value returned is `calcul` and a number of times `full`, and the next one is beyond `start`.
pub record Rounded (full calcul start : ℕ) (r : Option ℕ) : Type 0 where
  pub value : ℕ
  pub times : ℕ
  pub returns : r ≡ some value
  pub multiple : value ≡ calcul + times * full
  pub beyond : start < value + full
  pub before : (value ≤ start) ⊎ (times ≡ 0)

module _ (f full calcul start : ℕ) (pos : 0 < full) (room : calcul + full < 2 ^ 32) where
  Rounded-stop :
      leb (calcul + full) start ≡ false
      → Rounded full calcul start (round_up (suc f) full calcul start)
  unfolding round_up
  Rounded-stop stop = record {
    value = calcul;
    times = 0;
    returns = rw (round_up, add32_exact calcul full room, stop);
    multiple = omega arith;
    beyond = ground arith;
    before = inr refl;
  }

  Rounded-more :
      leb (calcul + full) start ≡ true
      → Rounded full (calcul + full) start (round_up f full (calcul + full) start)
      → Rounded full calcul start (round_up (suc f) full calcul start)
  unfolding round_up
  Rounded-more more r = record {
    value = r.value;
    times = suc r.times;
    returns =
        rw (round_up, add32_exact calcul full room, more)
          (rw (add32_exact calcul full room) r.returns);
    multiple = omega (arith, r.multiple);
    beyond = r.beyond;
    before = inl (elim r.before [ inl h ↦ h | inr none_more ↦ ground (arith, r.multiple) ]);
  }

round_up-Rounded :
    (f full calcul start : ℕ)
    → 0 < full
    → start + full < 2 ^ 32
    → calcul + full < 2 ^ 32
    → start ≤ calcul + f
    → Rounded full calcul start (round_up (suc f) full calcul start)
round_up-Rounded zero full calcul start pos fits room fuel =
    Rounded-stop 0 full calcul start pos room (ground arith)
round_up-Rounded (suc f) full calcul start pos fits room fuel =
    elim (Bool-cases (leb (calcul + full) start)) [
      | inr stop ↦ Rounded-stop (suc f) full calcul start pos room stop
      | inl more ↦
          Rounded-more (suc f) full calcul start pos room more
            (round_up-Rounded f full (calcul + full) start pos fits (ground arith) (omega arith))
    ]

-- Where `full_bits` is not 0, and neither number comes to 2^32 when `full_bits` is added: the loop
-- of `rounded` ends, with `calcul` plus a multiple of `full_bits` that is at most `start`, or `calcul`
-- itself, and that comes beyond `start` when `full_bits` is added once more.
pub rounded-Rounded :
    (g : Geometry) (calcul start : ℕ)
    → 0 < g.full_bits
    → start + g.full_bits < 2 ^ 32
    → calcul + g.full_bits < 2 ^ 32
    → Rounded g.full_bits calcul start (rounded g calcul start)
unfolding rounded
rounded-Rounded g calcul start pos fits room =
    subst (Rounded g.full_bits calcul start) (sym set)
      (round_up-Rounded start g.full_bits calcul start pos fits room (omega arith))
  where
    set : rounded g calcul start ≡ round_up (suc start) g.full_bits calcul start
    set = ground arith
