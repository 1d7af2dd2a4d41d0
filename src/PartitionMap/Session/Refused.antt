-- ===== src/PartitionMap/Session/Refused.antt =====
-- What becomes of the map's own entry where `resize_map` cannot delete it, since it holds a driver.
use mac_fdisk.Base.{
  ℕ, ◌+◌, ◌^◌, ◌≡◌, ◌<◌, ◌∙◌, arith, Bool, true, false, some, none, List, [], ◌∷◌, ap, ap₂, sym,
  subst, Bool-cases, inl, inr, refl, Option, ◌==◌, set, leb, if◌then◌else◌,
}
use mac_fdisk.Base.Strings.{codes, strncpy}
use mac_fdisk.Dpme.{dpistrlen, block0_signature}
use mac_fdisk.PartitionMap.State.{PartitionMap, PartitionMapHeader, type_of, is_map, k_map_type}
use mac_fdisk.PartitionMap.Orders.{next_in}
use mac_fdisk.PartitionMap.Orders.Frame.{put_self, extents_cons}
use mac_fdisk.PartitionMap.Add.{AddResult, add_partition_to_map}
use mac_fdisk.PartitionMap.Add.Refines.{
  IsTiledMap, Carved, carved, not_free, no_room, add_partition_to_map-Carved,
}
use mac_fdisk.PartitionMap.Delete.{
  DeleteResult, ResizeResult, clear_type, find_map, delete_partition_from_map, contains_driver,
  any_driver, resize_check, resize_map,
}
use mac_fdisk.PartitionMap.Session.Cleared.{clear_type-IsTiledMap, is_free-set, used_kind}
use mac_fdisk.PartitionMap.Session.Resize.{resize_map-outcome, outcome, resized_from}
use mac_fdisk.Extents.{
  Extent, Kind, extent_of, extents, extents_of, Tiled, carve, holds, is_free_kind, kind_of,
}

-- Nothing is carved out in front of the extents.
carve-above :
    (k : Kind) (base length lo hi : ℕ) (l : List Extent)
    → Tiled lo hi l
    → base < lo
    → carve k base length l ≡ none
unfolding carve
carve-above k base length lo hi [] h low = refl
carve-above k base length lo hi (x ∷ l) h low =
    let out : leb x.first base ≡ false = ground (arith, h.0) in
    rw (out, carve-above k base length (lo + x.size) hi l h.2 (omega arith)) refl

-- Nor from the first extent on, where that one is in use.
carve-used :
    (k : Kind) (length lo hi : ℕ) (x : Extent) (l : List Extent)
    → Tiled lo hi (x ∷ l)
    → is_free_kind x.kind ≡ false
    → carve k lo length (x ∷ l) ≡ none
unfolding carve
carve-used k length lo hi x l h used =
    rw (used, carve-above k lo length (lo + x.size) hi l h.2 (omega arith))
      (elim (Bool-cases (holds x lo length)) [ inl e ↦ rw e refl | inr e ↦ rw e refl ])

is_map-set : (t : List ℕ) → is_map (set t 0 0) ≡ false
unfolding is_map
is_map-set [] = refl
is_map-set (c ∷ t) = refl

module _ (malloc : ℕ → Bool) (ok : (n : ℕ) → malloc n ≡ true) (new_size hi e : ℕ) (post : List ℕ)
    (m : PartitionMapHeader) (w : IsTiledMap m 1 hi) (is_first : m.base_order ≡ e ∷ post)
    (own : is_map (type_of m.entry e) ≡ true) (driver : contains_driver e m ≡ some true)
    (checked : resize_check new_size e (next_in e m.base_order) m ≡ ResizeResult.resized_map)
    (pos : 0 < new_size) (exact : 1 + new_size < 2 ^ 32) where
  abbrev left : PartitionMapHeader
  left = clear_type e m

  found : find_map m.entry m.base_order ≡ some e
  unfolding find_map
  found = rw is_first (rw own refl)

  abbrev unnamed : PartitionMap
  unnamed = record (m.entry e) {
    contents = record (m.entry e).contents { type_name = set (type_of m.entry e) 0 0 };
  }

  at_e : left.entry e ≡ unnamed
  unfolding clear_type
  at_e = put_self m.entry e unnamed

  -- The search for a driver in the blocks `size` from `start` on.
  abbrev driver_in : ℕ → ℕ → Option Bool
  driver_in start size = elim m.misc [
    | none ↦ some false
    | some p ↦
        if p.sb_sig == block0_signature
        then any_driver start size p.sb_drvr_count p.sb_map
        else some false
  ]

  same_driver : contains_driver e left ≡ some true
  unfolding contains_driver clear_type
  same_driver =
      ap₂ driver_in (ap (λ (x : PartitionMap). x.contents.pblock_start) at_e)
        (ap (λ (x : PartitionMap). x.contents.pblocks) at_e)
      ∙ driver

  nameless : is_map (type_of left.entry e) ≡ false
  nameless =
      ap (λ (x : PartitionMap). is_map x.contents.type_name) at_e ∙ is_map-set (type_of m.entry e)

  refuses : delete_partition_from_map malloc e left ≡ some (left, DeleteResult.has_driver)
  unfolding delete_partition_from_map
  refuses = rw (nameless, same_driver) refl

  kept : IsTiledMap left 1 hi
  kept = clear_type-IsTiledMap 1 hi e m w

  nothing : (k : Kind) → carve k 1 new_size (extents_of left) ≡ none
  nothing k =
      let order : left.base_order ≡ e ∷ post = unfold clear_type in is_first in
      let view : extents_of left ≡ extent_of unnamed ∷ extents left.entry post =
        ap (extents left.entry) order
        ∙ extents_cons left.entry e post
        ∙ ap (λ (x : PartitionMap). extent_of x ∷ extents left.entry post) at_e in
      ap (carve k 1 new_size) view
      ∙ carve-used k new_size 1 hi (extent_of unnamed) (extents left.entry post)
          (subst (Tiled 1 hi) view kept.tiled) (used_kind _ (is_free-set (type_of m.entry e)))

  refused :
      (r : PartitionMapHeader × AddResult)
      → Carved (kind_of (strncpy dpistrlen k_map_type)) 1 new_size left r
      → r.0 ≡ left
  refused r (carved _ out _) = absurd (cc (sym (nothing _) ∙ out))
  refused r (not_free _ same _) = same
  refused r (no_room _ same _ _ _) = same

  -- On a tiled map from block 1 whose first entry is the map's own and holds a driver, with every
  -- allocation granted, for a size from 1 to 2^32 - 2 that the checks of `resize_map` let pass: the
  -- answer is that of a map with a new size, but all that happens is that the type of the map's own
  -- entry is cleared, so that it is no longer known as the map's own.
  pub resize_map-refused :
      (resize_map malloc new_size m ≡ some (clear_type e m, ResizeResult.resized_map))
      × (is_map (type_of (clear_type e m).entry e) ≡ false)
  resize_map-refused =
      let stays : (add_partition_to_map malloc (codes "Apple") k_map_type 1 new_size left).0
          ≡ left =
        refused _ (
          add_partition_to_map-Carved malloc ok (codes "Apple") k_map_type 1 new_size 1 hi left kept
            pos exact) in
      (
        resize_map-outcome malloc ok 1 hi new_size m e found
            ∙ ap (outcome malloc ok 1 hi new_size e m) checked
            ∙ ap (resized_from malloc ok 1 hi new_size) refuses
            ∙ ap (λ (x : PartitionMapHeader). some (x, ResizeResult.resized_map)) stays,
        nameless,
      )
