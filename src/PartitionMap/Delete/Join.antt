-- ===== src/PartitionMap/Delete/Join.antt =====
-- `combine_entry` on a tiled map: both halves together.
use mac_fdisk.Base.{
  ℕ, ◌+◌, ◌^◌, ◌≡◌, ◌<◌, ◌≤◌, ◌∙◌, arith, true, List, [], ◌∷◌, ◌++◌, refl, sym, ap, subst, All,
  All-append, All-append_left, All-append_right,
}
use mac_fdisk.PartitionMap.State.{PartitionMapHeader, start_of, size_of, type_of, is_free}
use mac_fdisk.PartitionMap.Orders.{next_in, prev_in}
use mac_fdisk.PartitionMap.Add.View.{View, View-extents_of}
use mac_fdisk.PartitionMap.Delete.{absorb_next, absorb_prev, combine_entry}
use mac_fdisk.PartitionMap.Delete.Cut.{Cut, cut_at}
use mac_fdisk.PartitionMap.Delete.Combine.{AfterNext, absorb_next_lem}
use mac_fdisk.PartitionMap.Delete.CombineBack.{AfterPrev, absorb_prev_lem}
use mac_fdisk.Extents.{Extent, extent_of, extents, extents_of, Tiled}
use mac_fdisk.Extents.Laws.{Tiled-le}
use mac_fdisk.Extents.Release.{join_next, join_prev, join_next-Tiled}

-- A map with a free entry `e` joins it with both neighbours.
module _ (m : PartitionMapHeader) (lo hi e : ℕ) (fits : hi < 2 ^ 32) (pre post : List ℕ)
    (c : Cut m.entry lo hi pre e post) (splits : m.base_order ≡ pre ++ (e ∷ post))
    (known : All (λ j. j < m.allocs) m.base_order) where
  known' : All (λ j. j < m.allocs) (pre ++ (e ∷ post))
  known' = subst (All (λ j. j < m.allocs)) splits known

  whole : View m pre (e ∷ post) (extents m.entry pre) (extents m.entry (e ∷ post))
  whole = record {
    splits = splits;
    before = refl;
    after = refl;
    old_pre = All-append_left _ pre (e ∷ post) known';
    old_post = All-append_right _ pre (e ∷ post) known';
  }

  upper : Tiled (start_of m.entry e) hi (extents m.entry (e ∷ post))
  unfolding extents
  upper = (refl, c.filled, c.above)

  first_step :
      AfterNext m e pre (extents m.entry pre) (extent_of (m.entry e)) (extents m.entry post)
  first_step = absorb_next_lem m e hi fits pre c.apart_pre post whole c.apart_post c.apart upper

  abbrev half : PartitionMapHeader
  half = absorb_next e (next_in e m.base_order) m

  joined_upper : Tiled (start_of m.entry e) hi (first_step.joined ∷ first_step.above)
  joined_upper = subst (Tiled (start_of m.entry e) hi) first_step.is (
      join_next-Tiled (start_of m.entry e) hi (extent_of (m.entry e)) (extents m.entry post)
        (unfold extents in upper))

  head : extent_of (half.entry e) ≡ first_step.joined
  unfolding extents
  head = ground (arith, first_step.view.after)

  half_start : start_of half.entry e ≡ start_of m.entry e
  half_start = ap (λ (x : Extent). x.first) head ∙ joined_upper.0

  half_end : start_of m.entry e + size_of half.entry e ≤ hi
  half_end = omega (
    arith,
    ap (λ (x : Extent). x.size) head,
    Tiled-le (start_of m.entry e + first_step.joined.size) hi first_step.above joined_upper.2,
  )

  lower :
      (q : ℕ) (init : List ℕ)
      → pre ≡ init ++ (q ∷ [])
      → Cut half.entry lo (start_of m.entry e) init q []
  lower q init ends = cut_at half.entry lo (start_of m.entry e) init q [] (
      subst (λ l. Tiled lo (start_of m.entry e) (extents half.entry l)) ends
        (subst (Tiled lo (start_of m.entry e)) (sym first_step.view.before) c.below))

  second_step : AfterPrev half e (extents m.entry pre) first_step.joined first_step.above
  unfolding extents
  second_step =
      absorb_prev_lem half e first_step.post first_step.apart first_step.joined first_step.above pre
        (extents m.entry pre) c.apart_pre first_step.view
        (λ q init ends.
          let below = lower q init ends in
          (
            below.apart_pre,
            below.above ∙ sym half_start,
            omega (arith, half_end, half_start, below.above),
          ))
        (omega (arith, half_start, half_end))

  abbrev merged : PartitionMapHeader
  merged = absorb_prev e (prev_in e half.base_order) half

  abbrev Merged : PartitionMapHeader → Type 0
  Merged n =
      (extents_of n
        ≡ join_prev (extents m.entry pre)
            (join_next (extent_of (m.entry e)) (extents m.entry post)))
      × All (λ j. j < n.allocs) n.base_order

  -- Joining a free entry with its neighbours, on a tiled map.
  pub combine_entry_lem : is_free (type_of m.entry e) ≡ true → Merged (combine_entry e m)
  combine_entry_lem free = subst Merged (sym joins) (
    View-extents_of merged second_step.pre second_step.post second_step.below second_step.above
          second_step.view
        ∙ sym second_step.is
        ∙ ap (join_prev (extents m.entry pre)) (sym first_step.is),
    subst (All (λ j. j < merged.allocs)) (sym second_step.view.splits) (
        All-append _ second_step.pre second_step.post second_step.view.old_pre
          second_step.view.old_post),
  )
    where
      joins : combine_entry e m ≡ merged
      joins = unfold combine_entry in rw free
