-- ===== src/Fdisk/Placing/Apart.antt =====
-- The sectors that `add_partition` chooses belong to no other entry.
use mac_fdisk.Base.{
  ℕ, zero, suc, ◌+◌, ◌^◌, ◌≡◌, ◌≤◌, ◌<◌, ◌⊎◌, ◌∙◌, ap, sym, arith, Bool, List, [], ◌∷◌, All,
}
use mac_fdisk.Base.Word.{add32}
use mac_fdisk.Fdisk.Placing.{Slot, skip_slot, skip_slots, lower_limit, lower_limits, at_slot}

-- No sum with this slot comes to 2^32.
abbrev pub Fits : ℕ → Slot → Type 0
Fits sector_offset s = (s.offset + sector_offset < 2 ^ 32) × (s.last + sector_offset + 1 < 2 ^ 32)

abbrev pub Outside : ℕ → Slot → Type 0
Outside start s = (start < s.first) ⊎ (s.last < start)

module _ (primary : Bool) (sector_offset : ℕ) (some_offset : 0 < sector_offset) where
  skip_slot-le : (s : Slot) (x : ℕ) → Fits sector_offset s → x ≤ skip_slot primary sector_offset s x
  unfolding skip_slot add32
  skip_slot-le s x f = ground arith

  skip_slot-Outside :
      (s : Slot) (x : ℕ)
      → Fits sector_offset s
      → skip_slot primary sector_offset s x ≡ x
      → Outside x s
  unfolding skip_slot add32
  skip_slot-Outside s x f e = ground arith

  skip_slots-le :
      (l : List Slot) (x : ℕ)
      → All (Fits sector_offset) l
      → x ≤ skip_slots primary sector_offset l x
  unfolding skip_slots
  skip_slots-le [] x f = omega arith
  skip_slots-le (s ∷ l) x f =
      omega (arith, skip_slot-le s x f.0, skip_slots-le l (skip_slot primary sector_offset s x) f.1)

  -- A sector that the inner loop does not move lies in no slot.
  pub skip_slots-Outside :
      (l : List Slot) (x : ℕ)
      → All (Fits sector_offset) l
      → skip_slots primary sector_offset l x ≡ x
      → All (Outside x) l
  unfolding skip_slots
  skip_slots-Outside [] x f e = tt
  skip_slots-Outside (s ∷ l) x f e =
      let kept : skip_slot primary sector_offset s x ≡ x = omega (
        arith,
        e,
        skip_slot-le s x f.0,
        skip_slots-le l (skip_slot primary sector_offset s x) f.1,
      ) in
      (
        skip_slot-Outside s x f.0 kept,
        skip_slots-Outside l x f.1 (ap (skip_slots primary sector_offset l) (sym kept) ∙ e),
      )

lower_limit-le : (start : ℕ) (s : Slot) (limit : ℕ) → lower_limit start s limit ≤ limit
unfolding lower_limit
lower_limit-le start s limit = ground arith

pub lower_limits-le : (start : ℕ) (l : List Slot) (limit : ℕ) → lower_limits start l limit ≤ limit
unfolding lower_limits
lower_limits-le start [] limit = omega arith
lower_limits-le start (s ∷ l) limit =
    omega (arith, lower_limit-le start s limit, lower_limits-le start l (lower_limit start s limit))

-- Behind the lowered limit or in front of `start`.
abbrev pub Apart : ℕ → ℕ → Slot → Type 0
Apart start stop s = (stop < s.first) ⊎ (s.last < start)

lower_limit-Apart :
    (start : ℕ) (s : Slot) (limit : ℕ) → Outside start s → Apart start (lower_limit start s limit) s
unfolding lower_limit
lower_limit-Apart start s limit h = ground arith

pub Apart-mono : (start a b : ℕ) (s : Slot) → a ≤ b → Apart start b s → Apart start a s
Apart-mono start a b s h k = ground arith

pub lower_limits-Apart :
    (start : ℕ) (l : List Slot) (limit : ℕ)
    → All (Outside start) l
    → All (Apart start (lower_limits start l limit)) l
unfolding lower_limits
lower_limits-Apart start [] limit h = tt
lower_limits-Apart start (s ∷ l) limit h = (
  Apart-mono start _ (lower_limit start s limit) s
      (lower_limits-le start l (lower_limit start s limit)) (lower_limit-Apart start s limit h.0),
  lower_limits-Apart start l (lower_limit start s limit) h.1,
)

-- A change of an offset moves no slot.
module _ (P : Slot → Type 0) (o : ℕ) where
  pub at_slot-All :
      (n : ℕ) (l : List Slot)
      → ((s : Slot) → P s → P (record s { offset = o }))
      → All P l
      → All P (at_slot n (λ s. record s { offset = o }) l)
  unfolding at_slot
  at_slot-All n [] k h = tt
  at_slot-All zero (s ∷ l) k h = (k s h.0, h.1)
  at_slot-All (suc n) (s ∷ l) k h = (h.0, at_slot-All n l k h.1)

  pub at_slot-All_back :
      (n : ℕ) (l : List Slot)
      → ((s : Slot) → P (record s { offset = o }) → P s)
      → All P (at_slot n (λ s. record s { offset = o }) l)
      → All P l
  unfolding at_slot
  at_slot-All_back n [] k h = tt
  at_slot-All_back zero (s ∷ l) k h = (k s h.0, h.1)
  at_slot-All_back (suc n) (s ∷ l) k h = (h.0, at_slot-All_back n l k h.1)
