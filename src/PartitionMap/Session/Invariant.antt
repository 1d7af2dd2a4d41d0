-- ===== src/PartitionMap/Session/Invariant.antt =====
-- What every sequence of edits keeps.
use mac_fdisk.Base.{ℕ, ◌≡◌, Bool, true, sym, subst}
use mac_fdisk.PartitionMap.State.{PartitionMapHeader}
use mac_fdisk.PartitionMap.Add.Refines.{IsTiledMap}
use mac_fdisk.PartitionMap.Session.{
  Edit, Edits, Uses, AllUse, adds, deletes, moves, resizes, begins, goes_on,
}
use mac_fdisk.PartitionMap.Session.Calls.{
  move-kept, move-IsTiledMap, add-IsTiledMap, add-IsJoined, delete-IsTiledMap, delete-IsJoined,
}
use mac_fdisk.PartitionMap.Session.Resize.{resize-kept}
use mac_fdisk.Extents.{extents_of}
use mac_fdisk.Extents.Release.{IsJoined}

module _ (malloc : ℕ → Bool) (ok : (n : ℕ) → malloc n ≡ true) (lo hi : ℕ) where
  Edit-IsTiledMap :
      (m n : PartitionMapHeader) → Edit malloc m n → IsTiledMap m lo hi → IsTiledMap n lo hi
  Edit-IsTiledMap m _ (adds _ name dptype base length pos exact) w =
      add-IsTiledMap malloc ok lo hi name dptype base length m pos exact w
  Edit-IsTiledMap m n (deletes _ _ r e pre post splits ends) w =
      delete-IsTiledMap malloc ok lo hi m n r e pre post w splits ends
  Edit-IsTiledMap m _ (moves _ old_index index) w =
      move-IsTiledMap malloc ok lo hi old_index index m w
  Edit-IsTiledMap m n (resizes _ _ r new_size pos exact ends) w =
      (resize-kept malloc ok lo hi new_size pos exact m n r ends w).0

  Edit-IsJoined :
      (m n : PartitionMapHeader) (e : Edit malloc m n)
      → Uses e
      → IsTiledMap m lo hi
      → IsJoined (extents_of m)
      → IsJoined (extents_of n)
  Edit-IsJoined m _ (adds _ name dptype base length pos exact) used w j =
      add-IsJoined malloc ok lo hi name dptype base length m pos exact w used j
  Edit-IsJoined m n (deletes _ _ r e pre post splits ends) used w j =
      delete-IsJoined malloc ok lo hi m n r e pre post w splits ends j
  Edit-IsJoined m _ (moves _ old_index index) used w j =
      subst IsJoined (sym (move-kept old_index index m).0) j
  Edit-IsJoined m n (resizes _ _ r new_size pos exact ends) used w j =
      (resize-kept malloc ok lo hi new_size pos exact m n r ends w).1 j

  -- Where every allocation is granted, any sequence of additions of at least one block that end
  -- below 2^32, of deletions of entries of the map, of moves and of changes of the map's size to one
  -- from 1 to 2^32 - 2, whatever each of them answers, leaves a map whose entries tile the blocks
  -- that they tiled at the start.
  pub Edits-IsTiledMap :
      (m n : PartitionMapHeader) → Edits malloc m n → IsTiledMap m lo hi → IsTiledMap n lo hi
  Edits-IsTiledMap m _ (begins _) w = w
  Edits-IsTiledMap m n (goes_on _ k _ es e) w = Edit-IsTiledMap k n e (Edits-IsTiledMap m k es w)

  -- Where such a sequence adds nothing under the type of free space, and no two neighbours in the
  -- map are both free at its start, then no two are at its end.
  pub Edits-IsJoined :
      (m n : PartitionMapHeader) (es : Edits malloc m n)
      → AllUse es
      → IsTiledMap m lo hi
      → IsJoined (extents_of m)
      → IsJoined (extents_of n)
  Edits-IsJoined m _ (begins _) used w j = j
  Edits-IsJoined m n (goes_on _ k _ es e) used w j =
      Edit-IsJoined k n e used.1 (Edits-IsTiledMap m k es w) (Edits-IsJoined m k es used.0 w j)
