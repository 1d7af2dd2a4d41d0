-- ===== src/Extents.antt =====
-- The abstract view of a map, and what each operation promises on it: the extents of the disk from
-- the lowest first block to the highest, each with what its type says it is used for.
pub mod Laws
pub mod Release
pub mod Joined
use mac_fdisk.Base.{
  ℕ, ◌+◌, ◌-◌, ◌≡◌, ◌<◌, Bool, true, false, ◌&&◌, Option, none, some, List, [], ◌∷◌, ◌++◌, leb, ltb,
  ◌==◌, if◌then◌else◌,
}
use mac_fdisk.PartitionMap.State.{PartitionMap, PartitionMapHeader, is_free, is_map}

pub data Kind : Type 0 where
  free map other : Kind

abbrev pub kind_of : List ℕ → Kind
kind_of t = if is_free t then Kind.free else if is_map t then Kind.map else Kind.other

pub record Extent : Type 0 where
  pub first : ℕ
  pub size : ℕ
  pub kind : Kind

abbrev pub extent : ℕ → ℕ → Kind → Extent
extent a n k = record { first = a; size = n; kind = k }

abbrev pub extent_of : PartitionMap → Extent
extent_of e = extent e.contents.pblock_start e.contents.pblocks (kind_of e.contents.type_name)

unfoldable pub extents : (ℕ → PartitionMap) → List ℕ → List Extent
extents f [] = []
extents f (i ∷ l) = extent_of (f i) ∷ extents f l

abbrev pub extents_of : PartitionMapHeader → List Extent
extents_of m = extents m.entry m.base_order

-- The extents are not empty and follow one another without gap or overlap from `lo` to `hi`.
abbrev pub Tiled : ℕ → ℕ → List Extent → Type 0
Tiled lo hi [] = lo ≡ hi
Tiled lo hi (x ∷ l) = (x.first ≡ lo) × (0 < x.size) × Tiled (lo + x.size) hi l

abbrev pub is_free_kind : Kind → Bool
is_free_kind Kind.free = true
is_free_kind Kind.map = false
is_free_kind Kind.other = false

-- What is left of the free extent `x` below and above the blocks taken from it.
abbrev pub low_part : Extent → ℕ → List Extent
low_part x base = if ltb x.first base then extent x.first (base - x.first) Kind.free ∷ [] else []

abbrev pub high_part : Extent → ℕ → List Extent
high_part x end =
    if ltb end (x.first + x.size) then extent end (x.first + x.size - end) Kind.free ∷ [] else []

abbrev pub holds : Extent → ℕ → ℕ → Bool
holds x base length = leb x.first base && leb (base + length) (x.first + x.size)

-- The extents in place of the free extent `x`, and those above it.
abbrev pub pieces : Kind → Extent → ℕ → ℕ → List Extent → List Extent
pieces k x base length l =
    low_part x base ++ (extent base length k ∷ (high_part x (base + length) ++ l))

-- Taking `length` blocks from `base` out of the extent that holds them, if it is free.
unfoldable pub carve : Kind → ℕ → ℕ → List Extent → Option (List Extent)
carve k base length [] = none
carve k base length (x ∷ l) =
    let rest = carve k base length l in
    if holds x base length
    then (if is_free_kind x.kind then some (pieces k x base length l) else none)
    else elim rest [ none ↦ none | some r ↦ some (x ∷ r) ]
