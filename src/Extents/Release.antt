-- ===== src/Extents/Release.antt =====
-- The abstract operation that deleting a partition implements: an extent becomes free and is joined
-- with its free neighbours. A list of extents is given here by the extents below one, that one, and
-- the extents above.
use mac_fdisk.Base.{
  ℕ, ◌+◌, ◌≡◌, arith, Bool, true, false, ◌&&◌, List, [], ◌∷◌, ◌++◌, if◌then◌else◌, refl, sym, subst,
  ◌∙◌, inl, inr, Bool-cases,
}
use mac_fdisk.Extents.{Kind, Extent, extent, Tiled, is_free_kind}
use mac_fdisk.Extents.Laws.{Tiled-start}

-- The free extent `x` with the extent above it, where that is free.
abbrev pub join_next : Extent → List Extent → List Extent
join_next x [] = x ∷ []
join_next x (y ∷ l) =
    if is_free_kind y.kind then extent x.first (x.size + y.size) x.kind ∷ l else x ∷ y ∷ l

-- The same with the last one of the extents below it.
abbrev pub join_prev : List Extent → List Extent → List Extent
join_prev [] l = l
join_prev (y ∷ []) [] = y ∷ []
join_prev (y ∷ []) (x ∷ l) =
    if is_free_kind y.kind then extent y.first (x.size + y.size) x.kind ∷ l else y ∷ x ∷ l
join_prev (y ∷ z ∷ r) l = y ∷ join_prev (z ∷ r) l

abbrev pub freed : Extent → Extent
freed x = extent x.first x.size Kind.free

unfoldable pub release : List Extent → Extent → List Extent → List Extent
release xs x ys = join_prev xs (join_next (freed x) ys)

pub join_next-Tiled :
    (lo hi : ℕ) (x : Extent) (ys : List Extent)
    → Tiled lo hi (x ∷ ys)
    → Tiled lo hi (join_next x ys)
join_next-Tiled lo hi x [] h = h
join_next-Tiled lo hi x (y ∷ l) h = elim (Bool-cases (is_free_kind y.kind)) [
  | inl free ↦ rw free (h.0, omega arith, Tiled-start hi l (omega arith) h.2.2)
  | inr used ↦ rw used h
]

join_prev-Tiled :
    (lo mid hi : ℕ) (xs l : List Extent)
    → Tiled lo mid xs
    → Tiled mid hi l
    → Tiled lo hi (join_prev xs l)
join_prev-Tiled lo mid hi [] l h k = Tiled-start hi l (sym h) k
join_prev-Tiled lo mid hi (y ∷ []) [] h k = omega arith
join_prev-Tiled lo mid hi (y ∷ []) (x ∷ l) h k = elim (Bool-cases (is_free_kind y.kind)) [
  | inl free ↦ rw free (h.0, omega arith, Tiled-start hi l (omega arith) k.2)
  | inr used ↦ rw used (h.0, h.1, Tiled-start hi (x ∷ l) (sym h.2) k)
]
join_prev-Tiled lo mid hi (y ∷ z ∷ r) l h k =
    (h.0, h.1, join_prev-Tiled (lo + y.size) mid hi (z ∷ r) l h.2 k)

-- Releasing an extent of a tiled list leaves a list that tiles the same blocks.
pub release-Tiled :
    (lo mid hi : ℕ) (xs : List Extent) (x : Extent) (ys : List Extent)
    → Tiled lo mid xs
    → Tiled mid hi (x ∷ ys)
    → Tiled lo hi (release xs x ys)
unfolding release
release-Tiled lo mid hi xs x ys h k =
    join_prev-Tiled lo mid hi xs (join_next (freed x) ys) h (join_next-Tiled mid hi (freed x) ys k)

-- No two neighbours are both free.
abbrev pub IsJoined : List Extent → Type 0
IsJoined [] = Unit {0}
IsJoined (x ∷ []) = Unit {0}
IsJoined (x ∷ y ∷ l) = ((is_free_kind x.kind && is_free_kind y.kind) ≡ false) × IsJoined (y ∷ l)

pub IsJoined-left : (xs ys : List Extent) → IsJoined (xs ++ ys) → IsJoined xs
IsJoined-left [] ys h = tt
IsJoined-left (x ∷ []) ys h = tt
IsJoined-left (x ∷ y ∷ xs) ys h = (h.0, IsJoined-left (y ∷ xs) ys h.1)

pub IsJoined-tail : (x : Extent) (l : List Extent) → IsJoined (x ∷ l) → IsJoined l
IsJoined-tail x [] h = tt
IsJoined-tail x (y ∷ l) h = h.1

pub IsJoined-right : (xs ys : List Extent) → IsJoined (xs ++ ys) → IsJoined ys
IsJoined-right [] ys h = h
IsJoined-right (x ∷ xs) ys h = IsJoined-right xs ys (IsJoined-tail x (xs ++ ys) h)

-- The head of a list is free or not as `free` says, and the list is joined.
record Headed (free : Bool) (l : List Extent) : Type 0 where
  head : Extent
  rest : List Extent
  is : l ≡ head ∷ rest
  kind : is_free_kind head.kind ≡ free
  joined : IsJoined (head ∷ rest)

IsJoined-head :
    (x y : Extent) (l : List Extent)
    → is_free_kind x.kind ≡ is_free_kind y.kind
    → IsJoined (x ∷ l)
    → IsJoined (y ∷ l)
IsJoined-head x y [] e h = tt
IsJoined-head x y (z ∷ l) e h = (ground arith, h.1)

join_next-Headed :
    (x : Extent) (ys : List Extent)
    → is_free_kind x.kind ≡ true
    → IsJoined ys
    → Headed true (join_next x ys)
join_next-Headed x [] free h = record { head = x; rest = []; is = refl; kind = free; joined = tt }
join_next-Headed x (y ∷ l) free h = elim (Bool-cases (is_free_kind y.kind)) [
  | inl both ↦ record {
    head = extent x.first (x.size + y.size) x.kind;
    rest = l;
    is = rw both;
    kind = free;
    joined = IsJoined-head y (extent x.first (x.size + y.size) x.kind) l (both ∙ sym free) h;
  }
  | inr used ↦ record {
    head = x;
    rest = y ∷ l;
    is = rw used;
    kind = free;
    joined = (ground arith, h);
  }
]

join_one :
    (y x : Extent) (l : List Extent)
    → is_free_kind x.kind ≡ true
    → IsJoined (x ∷ l)
    → Headed (is_free_kind y.kind) (join_prev (y ∷ []) (x ∷ l))
join_one y x l free h = elim (Bool-cases (is_free_kind y.kind)) [
  | inl both ↦ record {
    head = extent y.first (x.size + y.size) x.kind;
    rest = l;
    is = rw both;
    kind = free ∙ sym both;
    joined = IsJoined-head x (extent y.first (x.size + y.size) x.kind) l refl h;
  }
  | inr used ↦ record {
    head = y;
    rest = x ∷ l;
    is = rw used;
    kind = refl;
    joined = (ground arith, h);
  }
]

-- In front of a list with a free head.
join_prev-Headed :
    (y : Extent) (xs l : List Extent)
    → IsJoined (y ∷ xs)
    → Headed true l
    → Headed (is_free_kind y.kind) (join_prev (y ∷ xs) l)
join_prev-Headed y [] l h k =
    subst (λ (t : List Extent). Headed (is_free_kind y.kind) (join_prev (y ∷ []) t)) (sym k.is)
      (join_one y k.head k.rest k.kind k.joined)
join_prev-Headed y (z ∷ r) l h k =
    let k' = join_prev-Headed z r l h.1 k in
    record {
      head = y;
      rest = join_prev (z ∷ r) l;
      is = refl;
      kind = refl;
      joined = rw k'.is (ground (arith, k'.kind), k'.joined);
    }

-- Releasing an extent of a list without neighbouring free extents leaves such a list.
pub release-IsJoined :
    (xs : List Extent) (x : Extent) (ys : List Extent)
    → IsJoined (xs ++ x ∷ ys)
    → IsJoined (release xs x ys)
unfolding release
release-IsJoined [] x ys h =
    let k = join_next-Headed (freed x) ys refl (IsJoined-tail x ys h) in
    subst IsJoined (sym k.is) k.joined
release-IsJoined (y ∷ xs) x ys h =
    let k =
      join_next-Headed (freed x) ys refl
        (IsJoined-tail x ys (IsJoined-right (y ∷ xs) (x ∷ ys) h)) in
    let r = join_prev-Headed y xs (join_next (freed x) ys) (IsJoined-left (y ∷ xs) (x ∷ ys) h) k in
    subst IsJoined (sym r.is) r.joined
