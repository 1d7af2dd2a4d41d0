-- ===== src/PartitionMap/Add/Refines.antt =====
-- `add_partition_to_map` against its abstract specification.
use mac_fdisk.Base.{
  ℕ, suc, ◌+◌, ◌^◌, ◌≡◌, ◌≢◌, ◌≤◌, ◌<◌, ◌∙◌, inl, inr, arith, Bool, true, false, Option, none, some,
  List, ◌∷◌, ◌++◌, length as length_of, refl, sym, ap, subst, All, All-mono, All-append_left,
  All-append_right, Bool-cases, length-append, ltb,
}
use mac_fdisk.Base.Strings.{strncpy}
use mac_fdisk.Dpme.{Dpme, dpistrlen}
use mac_fdisk.PartitionMap.State.{
  PartitionMapHeader, start_of, size_of, type_of, is_free, created, create_data,
}
use mac_fdisk.PartitionMap.Orders.{renumber_disk_addresses}
use mac_fdisk.PartitionMap.Orders.Frame.{renumber-extents, extents-append, extents_cons}
use mac_fdisk.PartitionMap.Add.{
  AddAction, AddResult, choose_action, carry_out, limit_of, overflows, act_value, find_holding,
  add_partition_to_map,
}
use mac_fdisk.PartitionMap.Add.Find.{Holding, find_cases, Tiled-below, Tiled-above}
use mac_fdisk.PartitionMap.Add.View.{View}
use mac_fdisk.PartitionMap.Add.Carves
use mac_fdisk.PartitionMap.Add.Carves.{created-extent}
use mac_fdisk.Extents.Laws.{carve-Tiled}
use mac_fdisk.Extents.{Extent, Kind, extent_of, extents, extents_of, kind_of, Tiled, pieces, carve}

-- A map whose entries cover the blocks from `lo` to `hi` once each, and have names in use.
pub record IsTiledMap (m : PartitionMapHeader) (lo hi : ℕ) : Type 0 where
  pub tiled : Tiled lo hi (extents_of m)
  pub fits : hi < 2 ^ 32
  pub known : All (λ j. j < m.allocs) m.base_order

-- The map has room for the extents `out` in place of those it has: `blocks_in_map` and the limit
-- are compared as the sizes before and after tell.
abbrev pub Room : PartitionMapHeader → List Extent → Type 0
Room m out = elim (limit_of m) [
  | none ↦ ⊥
  | some n ↦ m.blocks_in_map + length_of out ≤ n + length_of (extents_of m)
]

-- What the addition promises: the three results that can occur when memory suffices, with what
-- becomes of the map.
pub data Carved (k : Kind) (base length : ℕ) (m : PartitionMapHeader)
    (r : PartitionMapHeader × AddResult) : Type 0 where
  carved :
      r.1 ≡ AddResult.added
      → carve k base length (extents_of m) ≡ some (extents_of r.0)
      → Room m (extents_of r.0)
      → Carved k base length m r
  not_free :
      r.1 ≡ AddResult.not_free
      → r.0 ≡ m
      → carve k base length (extents_of m) ≡ none
      → Carved k base length m r
  no_room :
      r.1 ≡ AddResult.map_full
      → r.0 ≡ m
      → (out : List Extent) → carve k base length (extents_of m) ≡ some out
      → ¬ Room m out
      → Carved k base length m r

module _ (malloc : ℕ → Bool) (ok : (n : ℕ) → malloc n ≡ true) (name dptype : List ℕ)
    (base length lo hi : ℕ) (m : PartitionMapHeader) (w : IsTiledMap m lo hi) (pos : 0 < length)
    (exact : base + length < 2 ^ 32) where
  abbrev k : Kind
  k = kind_of (strncpy dpistrlen dptype)

  module _ (h : Holding m.entry base length lo hi m.base_order)
      (free : is_free (type_of m.entry h.cur) ≡ true) where
    abbrev n : PartitionMapHeader
    n = record m { allocs = m.allocs + 1 }

    abbrev d : Dpme
    d = created name dptype base length

    abbrev act : AddAction
    act = choose_action (m.entry h.cur).contents base length

    abbrev out : List Extent
    out =
        extents m.entry h.pre
        ++ pieces k (extent_of (m.entry h.cur)) base length (extents m.entry h.post)

    named : All (λ j. j < m.allocs) (h.pre ++ (h.cur ∷ h.post))
    named = subst (All (λ j. j < m.allocs)) h.splits w.known

    view :
        View n h.pre
          (h.cur ∷ h.post)
          (extents m.entry h.pre)
          (extent_of (m.entry h.cur) ∷ extents m.entry h.post)
    view = record {
      splits = h.splits;
      before = refl;
      after = extents_cons m.entry h.cur h.post;
      old_pre =
          All-mono _ _ h.pre (λ j q. omega arith) (All-append_left _ h.pre (h.cur ∷ h.post) named);
      old_post =
          All-mono _ _ (h.cur ∷ h.post) (λ j q. omega arith)
            (All-append_right _ h.pre (h.cur ∷ h.post) named);
    }

    apart_pre : All (λ j. j ≢ h.cur) h.pre
    apart_pre =
        All-mono (λ j. start_of m.entry j < start_of m.entry h.cur) _ h.pre (λ j q e. ground arith)
          (Tiled-below m.entry lo _ h.pre h.below)

    apart_post : All (λ j. j ≢ h.cur) h.post
    apart_post =
        All-mono (λ j. start_of m.entry h.cur + size_of m.entry h.cur ≤ start_of m.entry j) _ h.post
          (λ j q e. ground (arith, h.end_le, h.first_le)) (Tiled-above m.entry _ hi h.post h.above)

    at_base : d.pblock_start ≡ base
    at_base = unfold created in refl

    carries : extents_of (carry_out malloc h.cur d act n) ≡ out
    carries =
        Carves.carried malloc ok n h.cur base length lo hi h.pre h.post _ _ view apart_pre
          apart_post free h.below h.above pos w.fits h.first_le h.end_le d k at_base
          (created-extent name dptype base length)

    gains : length_of out ≡ act_value act + length_of (extents_of m)
    gains = omega (
      arith,
      before,
      length-append (extents m.entry h.pre)
          (pieces k (extent_of (m.entry h.cur)) base length (extents m.entry h.post)),
      Carves.length-pieces malloc ok n h.cur base length lo hi h.pre h.post _ _ view apart_pre
          apart_post free h.below h.above pos w.fits h.first_le h.end_le d k at_base
          (created-extent name dptype base length),
    )
      where
        before :
            length_of (extents_of m)
            ≡ length_of (extents m.entry h.pre) + suc (length_of (extents m.entry h.post))
        before =
            rw (h.splits, extents-append, extents_cons) (length-append (extents m.entry h.pre) _)

    carves : carve k base length (extents_of m) ≡ some out
    carves = rw (h.carved k, free)

    abbrev moved : PartitionMapHeader
    moved = carry_out malloc h.cur d act n

    abbrev result : PartitionMapHeader
    result = record (renumber_disk_addresses (carry_out malloc h.cur d act n)) { changed = true }

    result_extents : extents_of result ≡ out
    result_extents =
        unfold renumber_disk_addresses in
        renumber-extents moved.blocks_in_map 1 moved.disk_order moved.base_order moved.entry
        ∙ carries

    abbrev Within : Option ℕ → Type 0
    Within lim = elim lim [
      | none ↦ ⊥
      | some l ↦ m.blocks_in_map + length_of out ≤ l + length_of (extents_of m)
    ]

    abbrev exceeds : Option ℕ → Bool
    exceeds lim = elim lim [ none ↦ true | some l ↦ ltb l (m.blocks_in_map + act_value act) ]

    space : (lim : Option ℕ) → exceeds lim ≡ false → Within lim
    space none e = ground arith
    space (some l) e = ground (arith, gains)

    no_space : (lim : Option ℕ) → exceeds lim ≡ true → ¬ Within lim
    no_space none e = λ r. r
    no_space (some l) e = λ r. ground (arith, gains)

    ends_full :
        overflows m act ≡ true
        → Carved k base length m (add_partition_to_map malloc name dptype base length m)
    unfolding overflows
    ends_full over =
        subst (Carved k base length m) (sym ends)
          (no_room refl refl out carves (no_space (limit_of m) over))
      where
        ends : add_partition_to_map malloc name dptype base length m ≡ (m, AddResult.map_full)
        ends = unfold add_partition_to_map in rw (add_partition_to_map, h.found, free, over)

    ends_added :
        overflows m act ≡ false
        → Carved k base length m (add_partition_to_map malloc name dptype base length m)
    unfolding overflows
    ends_added fine = subst (Carved k base length m) (sym ends) (
        carved refl (carves ∙ ap some (sym result_extents))
          (subst (Room m) (sym result_extents) (space (limit_of m) fine)))
      where
        ends : add_partition_to_map malloc name dptype base length m ≡ (result, AddResult.added)
        ends =
            unfold add_partition_to_map create_data in
            rw (add_partition_to_map, h.found, free, fine, create_data, ok m.allocs)

  ends_used :
      (h : Holding m.entry base length lo hi m.base_order)
      → is_free (type_of m.entry h.cur) ≡ false
      → Carved k base length m (add_partition_to_map malloc name dptype base length m)
  ends_used h used =
      subst (Carved k base length m) (sym ends) (not_free refl refl (rw (h.carved k, used)))
    where
      ends : add_partition_to_map malloc name dptype base length m ≡ (m, AddResult.not_free)
      ends = unfold add_partition_to_map in rw (add_partition_to_map, h.found, used)

  ends_missing :
      find_holding m.entry base length m.base_order ≡ none
      → carve k base length (extents_of m) ≡ none
      → Carved k base length m (add_partition_to_map malloc name dptype base length m)
  ends_missing fails alone = subst (Carved k base length m) (sym ends) (not_free refl refl alone)
    where
      ends : add_partition_to_map malloc name dptype base length m ≡ (m, AddResult.not_free)
      ends = unfold add_partition_to_map in rw (add_partition_to_map, fails)

  pub add_partition_to_map-Carved :
      Carved k base length m (add_partition_to_map malloc name dptype base length m)
  add_partition_to_map-Carved =
      elim (find_cases m.entry base length hi w.fits exact lo m.base_order w.tiled) [
        | inl (fails, alone) ↦ ends_missing fails (alone k)
        | inr h ↦ elim (Bool-cases (is_free (type_of m.entry h.cur))) [
          | inl free ↦ elim (Bool-cases (overflows m (act h free))) [
            | inl over ↦ ends_full h free over
            | inr fine ↦ ends_added h free fine
          ]
          | inr used ↦ ends_used h used
        ]
      ]

  -- On a map whose entries tile the blocks from `lo` to `hi`, with every allocation granted, a
  -- length above 0 and an end below 2^32: whatever the function answers, the entries of the map
  -- that it leaves tile the same blocks.
  pub add_partition_to_map-Tiled :
      Tiled lo hi (extents_of (add_partition_to_map malloc name dptype base length m).0)
  add_partition_to_map-Tiled =
      still_tiled (add_partition_to_map malloc name dptype base length m)
        add_partition_to_map-Carved
    where
      still_tiled :
          (r : PartitionMapHeader × AddResult)
          → Carved k base length m r
          → Tiled lo hi (extents_of r.0)
      still_tiled r (carved _ out _) =
          carve-Tiled k base length lo hi (extents_of m) (extents_of r.0) pos w.tiled out
      still_tiled r (not_free _ same _) =
          subst (λ (n : PartitionMapHeader). Tiled lo hi (extents_of n)) (sym same) w.tiled
      still_tiled r (no_room _ same _ _ _) =
          subst (λ (n : PartitionMapHeader). Tiled lo hi (extents_of n)) (sym same) w.tiled
