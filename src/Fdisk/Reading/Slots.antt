-- ===== src/Fdisk/Reading/Slots.antt =====
-- The entry and the link that `read_extended` picks in a sector.
use mac_fdisk.Base.{
  ℕ, zero, suc, ◌+◌, ◌≡◌, ◌≢◌, ◌≤◌, ◌<◌, refl, sym, subst, arith, Bool, true, false, Option, none,
  some, ◌==◌, Bool-cases, inl, inr,
}
use mac_fdisk.Fdisk.Entry.{Partition, extended}
use mac_fdisk.Fdisk.Reading.{or_first, scan_slots, data_slot, link_slot}

-- A slot below 4 that passes a test of its entry.
abbrev pub Slotted : (ℕ → Partition) → Bool → Option ℕ → Type 0
Slotted e b none = Unit
Slotted e b (some j) = (j < 4) × (((e j).sys_ind == extended) ≡ b)

Slotted-or_first :
    (e : ℕ → Partition) (b : Bool) (o : Option ℕ) (i : ℕ)
    → Slotted e b o
    → i < 4
    → ((e i).sys_ind == extended) ≡ b
    → Slotted e b (or_first o i)
Slotted-or_first e b none i h low is = (low, is)
Slotted-or_first e b (some j) i h low is = h

abbrev pub Scanned : (ℕ → Partition) → Option ℕ × Option ℕ → Type 0
Scanned e r = Slotted e true r.0 × Slotted e false r.1

pub scan_slots-Scanned :
    (e : ℕ → Partition) (i n : ℕ) (link kept : Option ℕ)
    → i + n ≤ 4
    → Slotted e true link
    → Slotted e false kept
    → Scanned e (scan_slots e i n link kept)
unfolding scan_slots
scan_slots-Scanned e i zero link kept low a b = (a, b)
scan_slots-Scanned e i (suc n) link kept low a b = elim (Bool-cases ((e i).sys_ind == extended)) [
  | inl is ↦
      let step : scan_slots e i (suc n) link kept ≡ scan_slots e (suc i) n (or_first link i) kept =
        rw (scan_slots, is) refl in
      subst (Scanned e) (sym step) (
        scan_slots-Scanned e (suc i) n (or_first link i) kept (omega arith)
          (Slotted-or_first e true link i a (omega arith) is) b)
  | inr other ↦ elim (Bool-cases ((e i).sys_ind == 0)) [
    | inl empty ↦
        let step : scan_slots e i (suc n) link kept ≡ scan_slots e (suc i) n link kept =
          rw (scan_slots, other, empty) refl in
        subst (Scanned e) (sym step) (scan_slots-Scanned e (suc i) n link kept (omega arith) a b)
    | inr used ↦
        let step : scan_slots e i (suc n) link kept
            ≡ scan_slots e (suc i) n link (or_first kept i) =
          rw (scan_slots, other, used) refl in
        subst (Scanned e) (sym step) (
          scan_slots-Scanned e (suc i) n link (or_first kept i) (omega arith) a
            (Slotted-or_first e false kept i b (omega arith) other))
  ]
]

pub slots-differ :
    (e : ℕ → Partition) (link kept : Option ℕ)
    → Slotted e true link
    → Slotted e false kept
    → let d = data_slot link kept in let l = link_slot link d in (d < 4) × (l < 4) × (d ≢ l)
unfolding data_slot link_slot
slots-differ e none none a b = (omega arith, omega arith, λ h. omega arith)
slots-differ e none (some j) a b = (b.0, ground arith, ground arith)
slots-differ e (some l) none a b = (ground arith, a.0, ground arith)
slots-differ e (some l) (some j) a b = (b.0, a.0, λ h. ground (arith, a.1, b.1, h))
