-- ===== src/Fdisk/Placing.antt =====
-- fdisk.c: `check_bounds`, the search of `add_partition` for sectors that no other entry has, and the
-- rest of `add_partition`.
pub mod Apart
pub mod Found
pub mod Chosen
use mac_fdisk.Base.{
  ℕ, zero, suc, ◌+◌, ◌-◌, ◌*◌, ◌/◌, ◌%◌, ◌^◌, Bool, true, false, ◌&&◌, ◌||◌, not, Option, none,
  some, List, [], ◌∷◌, ◌==◌, leb, ltb, if◌then◌else◌,
}
use mac_fdisk.Base.Word.{add32, sub32}
use mac_fdisk.Fdisk.{Geometry}
use mac_fdisk.Fdisk.Entry.{Partition, extended, bounds_of, last_sect}
use mac_fdisk.Fdisk.Table.{Table, assign, deref, set_partition, free_buffer}
use mac_fdisk.Fdisk.Input.{Lines, Offset, read_int}

-- Entry `i` for the search: `offsets[i]`, `first[i]` and `last[i]`.
pub record Slot : Type 0 where
  pub offset : ℕ
  pub first : ℕ
  pub last : ℕ

-- The loop of `check_bounds` for `n` entries from `i` on.
unfoldable pub check_bounds : Table → ℕ → ℕ → Option (List Slot)
unfolding deref bounds_of
check_bounds t i zero = some []
check_bounds t i (suc n) =
    let rest = check_bounds t (suc i) n in
    elim (deref t (t.part_table i)) [
      | none ↦ none
      | some p ↦ elim (bounds_of t.geometry (t.offsets i) p) [
        | none ↦ none
        | some (a, b) ↦ elim rest [
          | none ↦ none
          | some l ↦ some (record { offset = t.offsets i; first = a; last = b } ∷ l)
        ]
      ]
    ]

-- A change of slot `i`.
unfoldable pub at_slot : ℕ → (Slot → Slot) → List Slot → List Slot
at_slot i f [] = []
at_slot zero f (s ∷ l) = f s ∷ l
at_slot (suc i) f (s ∷ l) = s ∷ at_slot i f l

unfoldable pub each_slot : (Slot → Slot) → List Slot → List Slot
each_slot f [] = []
each_slot f (s ∷ l) = f s ∷ each_slot f l

unfoldable pub cround : Geometry → ℕ → ℕ
cround g n = add32 n (if g.unit_flag then g.display_factor else 0) / g.display_factor

-- The first sector of a slot is moved down to the start of its unit.
unfoldable pub to_unit : Geometry → Slot → Slot
unfolding cround
to_unit g s = record s { first = sub32 (cround g s.first) 1 * g.display_factor % 2 ^ 32 }

-- One round of the inner `for` loop.
unfoldable pub skip_slot : Bool → ℕ → Slot → ℕ → ℕ
skip_slot primary sector_offset s start =
    let from = if start == s.offset then add32 start sector_offset else start in
    if leb s.first from && leb from s.last
    then add32 s.last (if primary then 1 else sector_offset)
    else from

unfoldable pub skip_slots : Bool → ℕ → List Slot → ℕ → ℕ
unfolding skip_slot
skip_slots primary sector_offset [] start = start
skip_slots primary sector_offset (s ∷ l) start =
    skip_slots primary sector_offset l (skip_slot primary sector_offset s start)

-- What the loops of `add_partition` need and do not change.
pub record Search : Type 0 where
  pub geometry : Geometry
  pub sector_offset : ℕ
  pub number : ℕ
  pub slots : List Slot
  pub limit : ℕ

-- The question for the first sector, with `i` its least value.
unfoldable pub ask_first : Search → ℕ → Lines → Option (ℕ × Lines)
unfolding cround read_int
ask_first q i ls =
    let g = q.geometry in
    elim (read_int g (cround g i) (cround g i) (cround g q.limit) Offset.ignore ls) [
      | none ↦ none
      | some (v, rest) ↦
          let sector = sub32 v 1 * g.display_factor % 2 ^ 32 in
          some (if g.unit_flag then (if ltb sector i then i else sector) else v, rest)
    ]

-- `start`, `temp` and `read` behind the message that a sector is already allocated.
unfoldable pub taken_back : ℕ → ℕ → ℕ → Bool → ℕ × ℕ × Bool
taken_back stop start temp read =
    if not (start == temp) && read then (stop, stop, false) else (start, temp, read)

-- The rest of a round, where `again` goes through the loop once more.
unfoldable pub rest_of_round :
    (ℕ → ℕ → Bool → Lines → Option (ℕ × Lines))
    → Search
    → ℕ
    → ℕ
    → ℕ
    → Bool
    → Lines
    → Option (ℕ × Lines)
rest_of_round again q start temp stop read ls =
    if not read && start == temp
    then elim (ask_first q (add32 start (if ltb 4 q.number then 1 else 0)) ls) [
      | none ↦ none
      | some (v, rest) ↦ if v == temp then some (v, rest) else again v start true rest
    ]
    else if start == temp
    then some (start, ls)
    else again start stop read ls

-- The `do` loop of `add_partition`, on fuel: the first sector, which lies behind the limit where there
-- is no room.
unfoldable pub find_start : ℕ → Search → ℕ → ℕ → Bool → Lines → Option (ℕ × Lines)
find_start zero q start stop read ls = none
find_start (suc fuel) q start stop read ls =
    let next = skip_slots (ltb q.number 4) q.sector_offset q.slots start in
    let (now, temp, asked) = taken_back stop next start read in
    if ltb q.limit next
    then some (next, ls)
    else rest_of_round (find_start fuel q) q now temp stop asked ls

-- One round of the loop that lowers the limit, and the loop.
unfoldable pub lower_limit : ℕ → Slot → ℕ → ℕ
lower_limit start s limit =
    let l = if ltb start s.offset && leb s.offset limit then s.offset - 1 else limit in
    if ltb start s.first && leb s.first l then s.first - 1 else l

unfoldable pub lower_limits : ℕ → List Slot → ℕ → ℕ
unfolding lower_limit
lower_limits start [] limit = limit
lower_limits start (s ∷ l) limit = lower_limits start l (lower_limit start s limit)

-- The question for the last sector.
unfoldable pub ask_last : Geometry → ℕ → ℕ → Lines → Option (ℕ × Lines)
unfolding cround read_int
ask_last g start limit ls =
    if cround g start == cround g limit
    then some (start, ls)
    else elim (read_int g (cround g start) (cround g limit) (cround g limit) Offset.lower ls) [
      | none ↦ none
      | some (v, rest) ↦
          let sector = sub32 (v * g.display_factor % 2 ^ 32) 1 in
          some (if g.unit_flag then (if ltb limit sector then limit else sector) else v, rest)
    ]

-- What `add_partition` finds: no room behind a sector, or the first and last sector.
pub data Choice : Type 0 where
  no_room : (start : ℕ) → Choice
  sectors : (start stop : ℕ) → Choice

-- `if (n > 4) offsets[n] = start - sector_offset`
unfoldable pub adjusted : Search → ℕ → List Slot
adjusted q start =
    if ltb 4 q.number
    then at_slot q.number (λ s. record s { offset = sub32 start q.sector_offset }) q.slots
    else q.slots

-- From the search on, up to the two sectors.
unfoldable pub choose_sectors : ℕ → Search → ℕ → Lines → Option (Choice × Lines)
choose_sectors fuel q from ls = elim (find_start fuel q from 0 false ls) [
  | none ↦ none
  | some (start, rest) ↦
      let limit = lower_limits start (adjusted q start) q.limit in
      if ltb limit start
      then some (Choice.no_room start, rest)
      else elim (ask_last q.geometry start limit rest) [
        | none ↦ none
        | some (stop, more) ↦ some (Choice.sectors start stop, more)
      ]
]
