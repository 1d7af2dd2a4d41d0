-- ===== src/PartitionMap/Add/Link.antt =====
-- What linking a new entry into the map does to the list by first block, and to the extents.
use mac_fdisk.Base.{ℕ, ◌≡◌, ◌≢◌, ◌<◌, ◌∙◌, arith, List, [], ◌∷◌, ◌++◌, ap, All}
use mac_fdisk.Dpme.{Dpme}
use mac_fdisk.PartitionMap.State.{PartitionMap, PartitionMapHeader, start_of, put}
use mac_fdisk.PartitionMap.Orders.{insert_in_disk_order, insert_in_base_order, insert_by}
use mac_fdisk.PartitionMap.Orders.Insert.{Front, insert_by_at}
use mac_fdisk.PartitionMap.Orders.Frame.{put_self, put_ne, extents-put, extents-append}
use mac_fdisk.PartitionMap.Add.{link_data}
use mac_fdisk.Extents.{extent_of, extents}

-- The entry that `add_data_to_map` fills in.
abbrev pub entry_for : Dpme → ℕ → PartitionMap
entry_for d index = record { disk_address = index; contents = d }

module _ (f : ℕ → PartitionMap) (e : ℕ) (x : PartitionMap) where
  below_put :
      (l : List ℕ)
      → All (λ j. j ≢ e) l
      → All (λ j. start_of f j < x.contents.pblock_start) l
      → All (λ j. start_of (put f e x) j < start_of (put f e x) e) l
  below_put [] new h = tt
  below_put (y ∷ l) new h = (ground (arith, put_ne f e y x, put_self f e x), below_put l new.1 h.1)

  Front-put :
      (l : List ℕ)
      → All (λ j. j ≢ e) l
      → Front (start_of f) x.contents.pblock_start l
      → Front (start_of (put f e x)) (start_of (put f e x) e) l
  Front-put [] new h = tt
  Front-put (y ∷ l) new h = ground (arith, put_ne f e y x, put_self f e x)

module _ (e : ℕ) (d : Dpme) (index : ℕ) (m : PartitionMapHeader) where
  pub link_data-entry : (link_data e d index m).entry ≡ put m.entry e (entry_for d index)
  unfolding link_data insert_in_disk_order insert_in_base_order
  link_data-entry = ground arith

  pub link_data-allocs : (link_data e d index m).allocs ≡ m.allocs
  unfolding link_data insert_in_disk_order insert_in_base_order
  link_data-allocs = ground arith

  pub link_data-insert :
      (link_data e d index m).base_order
      ≡ insert_by (start_of (put m.entry e (entry_for d index))) e m.base_order
  unfolding link_data insert_in_disk_order insert_in_base_order
  link_data-insert = ground arith

  module _ (pre post : List ℕ) (splits : m.base_order ≡ pre ++ post)
      (new_pre : All (λ j. j ≢ e) pre) (new_post : All (λ j. j ≢ e) post)
      (below : All (λ j. start_of m.entry j < d.pblock_start) pre)
      (above : Front (start_of m.entry) d.pblock_start post) where
    pub link_data-base_order : (link_data e d index m).base_order ≡ pre ++ (e ∷ post)
    link_data-base_order =
        link_data-insert
        ∙ ap (insert_by (start_of g) e) splits
        ∙ insert_by_at (start_of g) e pre post
            (below_put m.entry e (entry_for d index) pre new_pre below)
            (Front-put m.entry e (entry_for d index) post new_post above)
      where
        g : ℕ → PartitionMap
        g = put m.entry e (entry_for d index)

    pub link_data-extents :
        extents (link_data e d index m).entry (link_data e d index m).base_order
        ≡ extents m.entry pre ++ (extent_of (entry_for d index) ∷ extents m.entry post)
    unfolding extents
    link_data-extents = rw (
      link_data-base_order,
      link_data-entry,
      extents-append,
      extents-put m.entry e (entry_for d index) pre new_pre,
      extents-put m.entry e (entry_for d index) post new_post,
      put_self m.entry e (entry_for d index),
    )
