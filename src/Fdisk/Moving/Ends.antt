-- ===== src/Fdisk/Moving/Ends.antt =====
-- Where partitions end, once `move_begin` is through.
use mac_fdisk.Base.{
  ℕ, ◌≡◌, ◌<◌, ◌^◌, ◌/◌, ◌||◌, refl, sym, ap, ◌∙◌, arith, Option, none, some, ◌==◌, Bool-cases,
  Option-cases, inl, inr,
}
use mac_fdisk.Base.Word.{add32, sub32}
use mac_fdisk.Fdisk.{warn_geometry}
use mac_fdisk.Fdisk.Entry.{Partition, extended, last_sect}
use mac_fdisk.Fdisk.Input.{Lines}
use mac_fdisk.Fdisk.Table.{Table, deref, store, mark}
use mac_fdisk.Fdisk.Moving.{begun, begin_at, ask_begin, move_begin}

last_sect-begun : (p : Partition) (new : ℕ) → new < 2 ^ 32 → last_sect (begun p new) ≡ last_sect p
unfolding begun add32 sub32
last_sect-begun p new h = omega (arith, h)

-- The last sector of entry `k` in what a call leaves, or in `t` where it leaves nothing.
abbrev last_in : Table → ℕ → Option Table → ℕ
last_in t k none = last_sect (t.entry k)
last_in t k (some u) = last_sect (u.entry k)

abbrev last_after : Table → ℕ → Option (Table × Lines) → ℕ
last_after t k none = last_sect (t.entry k)
last_after t k (some (u, rest)) = last_sect (u.entry k)

abbrev last_or : Partition → Option Partition → ℕ
last_or d none = last_sect d
last_or d (some p) = last_sect p

store-last :
    (t : Table) (o : Option ℕ) (p x : Partition) (k : ℕ)
    → deref t o ≡ some p
    → last_sect x ≡ last_sect p
    → last_in t k (store o x t) ≡ last_sect (t.entry k)
unfolding store deref
store-last t none p x k at same = refl
store-last t (some a) p x k at same = elim (Bool-cases (t.freed (a / 4))) [
  | inl gone ↦ rw (store, gone) refl
  | inr there ↦
      let own : some (t.entry a) ≡ some p = sym (rw (deref, there) refl) ∙ at in
      elim (Bool-cases (k == a)) [
        | inl here ↦
            let it : k ≡ a = ground (arith, here) in
            let before : last_sect (t.entry k) ≡ last_sect p =
              ap (λ (j : ℕ). last_sect (t.entry j)) it ∙ ap (last_or p) own in
            rw (store, there, here) (same ∙ sym before)
        | inr other ↦ rw (store, there, other) refl
      ]
]

begin_at-last :
    (i : ℕ) (p : Partition) (v : ℕ) (t : Table) (k : ℕ)
    → deref t (t.part_table i) ≡ some p
    → last_in t k (begin_at i p v t) ≡ last_sect (t.entry k)
unfolding begin_at mark sub32
begin_at-last i p v t k at =
    let new = sub32 v (t.offsets i) in
    let small : new < 2 ^ 32 = omega arith in
    let stored = store-last t (t.part_table i) p (begun p new) k at (last_sect-begun p new small) in
    elim (Bool-cases (new == p.nr_sects)) [
      | inl same ↦ rw (begin_at, same) refl
      | inr other ↦ elim (Option-cases (store (t.part_table i) (begun p new) t)) [
        | inl fails ↦ rw (begin_at, other, fails) refl
        | inr (u, e) ↦ rw (begin_at, other, e) (ap (last_in t k) (sym e) ∙ stored)
      ]
    ]

move_begin-after :
    (i : ℕ) (t : Table) (ls : Lines) (k : ℕ)
    → last_after t k (move_begin i t ls) ≡ last_sect (t.entry k)
unfolding move_begin
move_begin-after i t ls k = elim (Bool-cases (warn_geometry t.geometry)) [
  | inl unknown ↦ rw (move_begin, unknown) refl
  | inr known ↦ elim (Option-cases (deref t (t.part_table i))) [
    | inl wild ↦ rw (move_begin, known, wild) refl
    | inr (p, at) ↦
        elim (Bool-cases ((p.sys_ind == 0) || ((p.nr_sects == 0) || (p.sys_ind == extended)))) [
          | inl unused ↦ rw (move_begin, known, at, unused) refl
          | inr used ↦ elim (Option-cases (ask_begin i p t ls)) [
            | inl fails ↦ rw (move_begin, known, at, used, fails) refl
            | inr ((v, rest), asked) ↦
                let kept = begin_at-last i p v t k at in
                elim (Option-cases (begin_at i p v t)) [
                  | inl fails ↦ rw (move_begin, known, at, used, asked, fails) refl
                  | inr (u, e) ↦
                      rw (move_begin, known, at, used, asked, e) (ap (last_in t k) (sym e) ∙ kept)
                ]
          ]
        ]
  ]
]

-- However `move_begin` is answered, the last sector that every entry has by its first sector and
-- its size, in 32 bits, is what it was.
pub move_begin-last :
    (i : ℕ) (t u : Table) (ls rest : Lines) (k : ℕ)
    → move_begin i t ls ≡ some (u, rest)
    → last_sect (u.entry k) ≡ last_sect (t.entry k)
move_begin-last i t u ls rest k e = ap (last_after t k) (sym e) ∙ move_begin-after i t ls k
