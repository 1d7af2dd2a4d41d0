-- ===== src/Fdisk/Types.antt =====
-- The types of Intel partitions: the table, and the search in it.
use mac_fdisk.Base.{
  ℕ, zero, suc, ◌+◌, ◌-◌, ◌/◌, ◌≡◌, ◌<◌, refl, ap, arith, Bool, true, false, Option, none, some,
  List, [], ◌∷◌, ◌==◌, leb, ltb, if◌then◌else◌, get_or, ==_iff, holds_up_to, holds_up_to_lem,
}
use mac_fdisk.Base.Strings.{codes}

-- `struct systypes`
pub record SysType : Type 0 where
  pub index : ℕ
  pub name : List ℕ

abbrev pub sys_type : ℕ → List ℕ → SysType
sys_type i n = record { index = i; name = n }

-- `sys_types`
unfoldable pub sys_types : List SysType
sys_types =
    sys_type 0 (codes "Empty")
    ∷ sys_type 1 (codes "DOS 12-bit FAT")
    ∷ sys_type 2 (codes "XENIX root")
    ∷ sys_type 3 (codes "XENIX usr")
    ∷ sys_type 4 (codes "DOS 16-bit <32M")
    ∷ sys_type 5 (codes "Extended")
    ∷ sys_type 6 (codes "DOS 16-bit >=32M")
    ∷ sys_type 7 (codes "OS/2 HPFS")
    ∷ sys_type 8 (codes "AIX")
    ∷ sys_type 9 (codes "AIX bootable")
    ∷ sys_type 10 (codes "OS/2 Boot Manager")
    ∷ sys_type 0x40 (codes "Venix 80286")
    ∷ sys_type 0x51 (codes "Novell?")
    ∷ sys_type 0x52 (codes "Microport")
    ∷ sys_type 0x63 (codes "GNU HURD")
    ∷ sys_type 0x64 (codes "Novell Netware 286")
    ∷ sys_type 0x65 (codes "Novell Netware 386")
    ∷ sys_type 0x75 (codes "PC/IX")
    ∷ sys_type 0x80 (codes "Old MINIX")
    ∷ sys_type 0x81 (codes "Linux/MINIX")
    ∷ sys_type 0x82 (codes "Linux swap")
    ∷ sys_type 0x83 (codes "Linux native")
    ∷ sys_type 0x93 (codes "Amoeba")
    ∷ sys_type 0x94 (codes "Amoeba BBT")
    ∷ sys_type 0xa5 (codes "BSD/386")
    ∷ sys_type 0xb7 (codes "BSDI fs")
    ∷ sys_type 0xb8 (codes "BSDI swap")
    ∷ sys_type 0xc7 (codes "Syrinx")
    ∷ sys_type 0xdb (codes "CP/M")
    ∷ sys_type 0xe1 (codes "DOS access")
    ∷ sys_type 0xe3 (codes "DOS R/O")
    ∷ sys_type 0xf2 (codes "DOS secondary")
    ∷ sys_type 0xff (codes "BBT")
    ∷ []

-- `sys_types[mid].index`
unfoldable pub index_at : ℕ → ℕ
unfolding sys_types
index_at mid = (get_or sys_types mid (sys_type 0 [])).index

-- The search from `low` to `high`, on fuel: the place of the type, if it has one. `none` is a read
-- behind the table.
unfoldable pub find_slot : ℕ → ℕ → ℕ → ℕ → Option (Option ℕ)
unfolding index_at
find_slot zero low high type = none
find_slot (suc fuel) low high type =
    let mid = (high + low) / 2 in
    let above = find_slot fuel (mid + 1) high type in
    let below = if mid == 0 then some none else find_slot fuel low (mid - 1) type in
    if ltb high low
    then some none
    else if leb 33 mid
    then none
    else if index_at mid == type
    then some (some mid)
    else if ltb (index_at mid) type
    then above
    else below

abbrev pub name_at : Option ℕ → Option (List ℕ)
name_at none = none
name_at (some slot) = some (get_or sys_types slot (sys_type 0 [])).name

-- `partition_type(type)`: the name, or no name.
unfoldable pub partition_type : ℕ → Option (Option (List ℕ))
unfolding find_slot
partition_type type = elim (find_slot 7 0 33 type) [ none ↦ none | some slot ↦ some (name_at slot) ]

-- The first entry for `type`, from the place `at`.
unfoldable pub first_slot : List SysType → ℕ → ℕ → Option ℕ
first_slot [] at type = none
first_slot (t ∷ l) at type = if t.index == type then some at else first_slot l (at + 1) type

same_slot : Option ℕ → Option ℕ → Bool
same_slot none none = true
same_slot none (some b) = false
same_slot (some a) none = false
same_slot (some a) (some b) = a == b

agrees : Option (Option ℕ) → Option ℕ → Bool
agrees none slot = false
agrees (some found) slot = same_slot found slot

agree_all :
    holds_up_to (λ type. agrees (find_slot 7 0 33 type) (first_slot sys_types 0 type)) 255 ≡ true
unfolding holds_up_to agrees same_slot find_slot index_at sys_types first_slot
agree_all = refl

same_slot_lem : (a b : Option ℕ) → same_slot a b ≡ true → a ≡ b
unfolding same_slot
same_slot_lem none none h = refl
same_slot_lem none (some b) h = cc
same_slot_lem (some a) none h = cc
same_slot_lem (some a) (some b) h = ap some ((==_iff a b).0 h)

agrees_lem :
    (found : Option (Option ℕ)) (slot : Option ℕ) → agrees found slot ≡ true → found ≡ some slot
unfolding agrees
agrees_lem none slot h = cc
agrees_lem (some found) slot h = ap some (same_slot_lem found slot h)

-- For every value of an `unsigned char` the search ends without a read behind the table, and gives
-- the name of the table's first entry for it, or no name where the table has no such entry.
pub partition_type-first_slot :
    (type : ℕ) → type < 256 → partition_type type ≡ some (name_at (first_slot sys_types 0 type))
unfolding partition_type
partition_type-first_slot type small = rw (
  partition_type,
  agrees_lem (find_slot 7 0 33 type) (first_slot sys_types 0 type) (
      holds_up_to_lem (λ t. agrees (find_slot 7 0 33 t) (first_slot sys_types 0 t)) 255 type
        (omega arith) agree_all),
)
