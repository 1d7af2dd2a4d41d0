-- ===== src/PartitionMap/Add/Carves.antt =====
-- `add_partition_to_map` carves the requested blocks out of the free extent that holds them.
use mac_fdisk.Base.{
  ℕ, ◌+◌, ◌-◌, ◌^◌, ◌≡◌, ◌≢◌, ◌≤◌, ◌<◌, ◌∙◌, inl, inr, arith, Bool, true, List, [], ◌∷◌, ◌++◌,
  length as length_of, ◌==◌, refl, ap, ap₂, subst, All, All-mono, All-append, Bool-cases,
}
use mathlib.Core.List.{append_assoc}
use mac_fdisk.Base.Word.{add32_exact, sub32_exact}
use mac_fdisk.Base.Strings.{strncpy}
use mac_fdisk.Dpme.{Dpme, dpistrlen}
use mac_fdisk.PartitionMap.State.{
  PartitionMap, PartitionMapHeader, start_of, size_of, type_of, address_of, put, put_contents,
  is_free, created, create_data, k_free_name, k_free_type,
}
use mac_fdisk.PartitionMap.Orders.Frame.{extents_cons, put_self, extents-put}
use mac_fdisk.PartitionMap.Add.{
  AddAction, choose_action, carry_out, add_low_part, add_data_to_map, adjust, act_value,
}
use mac_fdisk.PartitionMap.Add.Link.{entry_for}
use mac_fdisk.PartitionMap.Add.View.{
  View, View-extents_of, View-add, View-adjust, View-shift, View-alloc, FrontExtent,
  add_data_to_map-ok,
}
use mac_fdisk.Extents.{Extent, Kind, extent, extent_of, extents, extents_of, kind_of, Tiled, pieces}
use mac_fdisk.Extents.Laws.{Tiled-le}

-- The extents below a tiling's end start below it.
below_of_Tiled :
    (lo hi : ℕ) (xs : List Extent) → Tiled lo hi xs → All (λ (x : Extent). x.first < hi) xs
below_of_Tiled lo hi [] t = tt
below_of_Tiled lo hi (x ∷ xs) t =
    let rest = Tiled-le (lo + x.size) hi xs t.2 in
    (omega arith, below_of_Tiled (lo + x.size) hi xs t.2)

Front_of_Tiled : (k lo hi : ℕ) (xs : List Extent) → k ≤ lo → Tiled lo hi xs → FrontExtent k xs
Front_of_Tiled k lo hi [] h t = tt
Front_of_Tiled k lo hi (x ∷ xs) h t = omega arith

below_mono :
    (a b : ℕ) (xs : List Extent)
    → a ≤ b
    → All (λ (x : Extent). x.first < a) xs
    → All (λ (x : Extent). x.first < b) xs
below_mono a b xs h = All-mono _ _ xs (λ x k. omega arith)

pub created-extent :
    (name dptype : List ℕ) (base length index : ℕ)
    → extent_of (entry_for (created name dptype base length) index)
      ≡ extent base length (kind_of (strncpy dpistrlen dptype))
unfolding created
created-extent name dptype base length index = refl

pub free_extent :
    (base length index : ℕ)
    → extent_of (entry_for (created k_free_name k_free_type base length) index)
      ≡ extent base length Kind.free
unfolding created is_free strncpy
free_extent base length index = refl

module _ (malloc : ℕ → Bool) (ok : (n : ℕ) → malloc n ≡ true) where
  add_low_part-ok :
      (cur c n : ℕ) (m : PartitionMapHeader)
      → add_low_part malloc cur c n m
        ≡ (add_data_to_map malloc
            (created k_free_name k_free_type c n)
            (address_of m.entry cur)
            (record m { allocs = m.allocs + 1 })).0
  unfolding add_low_part create_data
  add_low_part-ok cur c n m = rw (add_low_part, ok m.allocs)

  -- The low part of a split goes between the two parts.
  add_low_part-extents :
      (cur c n : ℕ) (m : PartitionMapHeader) (pre post : List ℕ) (xs ys : List Extent)
      → View m pre post xs ys
      → All (λ (x : Extent). x.first < c) xs
      → FrontExtent c ys
      → extents_of (add_low_part malloc cur c n m) ≡ xs ++ (extent c n Kind.free ∷ ys)
  add_low_part-extents cur c n m pre post xs ys v below front = rw (add_low_part-ok cur c n m) (
      View-extents_of _ pre _ xs _ (
        View-add malloc ok (record m { allocs = m.allocs + 1 }) low (address_of m.entry cur) pre
          post xs ys (View-alloc m pre post xs ys v) (unfold created in below)
          (unfold created in front))
      ∙ ap (λ (x : Extent). xs ++ (x ∷ ys)) (free_extent c n (address_of m.entry cur)))
    where
      low : Dpme
      low = created k_free_name k_free_type c n

module _ (malloc : ℕ → Bool) (ok : (n : ℕ) → malloc n ≡ true) (m : PartitionMapHeader)
    (cur base length lo hi : ℕ) (pre post : List ℕ) (xs ys : List Extent)
    (v : View m pre (cur ∷ post) xs (extent_of (m.entry cur) ∷ ys))
    (apart_pre : All (λ j. j ≢ cur) pre) (apart_post : All (λ j. j ≢ cur) post)
    (free : is_free (type_of m.entry cur) ≡ true) (below : Tiled lo (start_of m.entry cur) xs)
    (above : Tiled (start_of m.entry cur + size_of m.entry cur) hi ys) (pos : 0 < length)
    (fits : hi < 2 ^ 32) (first_le : start_of m.entry cur ≤ base)
    (end_le : base + length ≤ start_of m.entry cur + size_of m.entry cur) (d : Dpme) (k : Kind)
    (at_base : d.pblock_start ≡ base)
    (new : (i : ℕ) → extent_of (entry_for d i) ≡ extent base length k) where
  abbrev s : ℕ
  s = start_of m.entry cur

  abbrev z : ℕ
  z = size_of m.entry cur

  pub end_small : start_of m.entry cur + size_of m.entry cur < 2 ^ 32
  end_small = omega (arith, Tiled-le (start_of m.entry cur + size_of m.entry cur) hi ys above)

  kind_free : (extent_of (m.entry cur)).kind ≡ Kind.free
  kind_free = ground arith

  adjusted : (a b : ℕ) → View (adjust cur a b m) pre (cur ∷ post) xs (extent a b Kind.free ∷ ys)
  adjusted a b =
      subst (λ q. View (adjust cur a b m) pre (cur ∷ post) xs (extent a b q ∷ ys)) kind_free
        (View-adjust m cur a b pre post (extent_of (m.entry cur)) xs ys apart_pre apart_post v)

  -- The new entry in front of what is left.
  View-low :
      (a b index : ℕ)
      → base ≤ a
      → View
          (add_data_to_map malloc d index (adjust cur a b m)).0
          pre
          (m.allocs ∷ cur ∷ post)
          xs
          (extent base length k ∷ extent a b Kind.free ∷ ys)
  unfolding adjust
  View-low a b index h =
      subst
        (λ (x : Extent).
          View (add_data_to_map malloc d index (adjust cur a b m)).0 pre (m.allocs ∷ cur ∷ post) xs
            (x ∷ extent a b Kind.free ∷ ys))
        (new index)
        (View-add malloc ok (adjust cur a b m) d index pre (cur ∷ post) xs _ (adjusted a b)
          (below_mono _ _ xs (omega arith) (below_of_Tiled lo _ xs below)) (omega arith))

  -- The new entry behind what is left.
  extents-high :
      (a b index : ℕ)
      → a < base
      → extents_of (add_data_to_map malloc d index (adjust cur a b m)).0
        ≡ xs ++ (extent a b Kind.free ∷ extent base length k ∷ ys)
  extents-high a b index h =
      View-extents_of _ (pre ++ (cur ∷ [])) _ (xs ++ (extent a b Kind.free ∷ [])) _ (
        View-add malloc ok (adjust cur a b m) d index (pre ++ (cur ∷ [])) post _ ys
          (View-shift _ cur pre post _ xs ys (adjusted a b))
          (All-append _ xs _ (below_mono _ _ xs (omega arith) (below_of_Tiled lo _ xs below))
            (omega arith))
          (Front_of_Tiled _ (start_of m.entry cur + size_of m.entry cur) hi ys (omega arith) above))
      ∙ append_assoc xs _ _
      ∙ ap (λ (x : Extent). xs ++ (extent a b Kind.free ∷ x ∷ ys)) (new index)

  -- The low part of a split, in front of both.
  extents-split :
      (a b c n index : ℕ)
      → base ≤ a
      → c ≡ start_of m.entry cur
      → c < base
      → extents_of
          (add_low_part malloc cur c n (add_data_to_map malloc d index (adjust cur a b m)).0)
        ≡ xs ++ (extent c n Kind.free ∷ extent base length k ∷ extent a b Kind.free ∷ ys)
  extents-split a b c n index h at low =
      add_low_part-extents malloc ok cur c n _ pre _ xs _ (View-low a b index h)
        (below_mono _ _ xs (omega arith) (below_of_Tiled lo _ xs below)) (omega arith)

  -- The whole entry is replaced.
  extents-replace :
      extents_of (record m { entry = put_contents m.entry cur d })
      ≡ xs ++ (extent base length k ∷ ys)
  extents-replace =
      View-extents_of (record m { entry = put_contents m.entry cur d }) pre (cur ∷ post) xs
        (extent base length k ∷ ys)
        (record {
          splits = v.splits;
          before = extents-put m.entry cur whole pre apart_pre ∙ v.before;
          after =
              extents_cons (put m.entry cur whole) cur post
              ∙ ap₂ (λ (x : Extent) (t : List Extent). x ∷ t)
                  (ap extent_of (put_self m.entry cur whole) ∙ new (address_of m.entry cur))
                  (extents-put m.entry cur whole post apart_post ∙ tail);
          old_pre = v.old_pre;
          old_post = v.old_post;
        })
    where
      whole : PartitionMap
      whole = record (m.entry cur) { contents = d }

      tail : extents m.entry post ≡ ys
      tail = unfold extents in ground (arith, v.after)

  abbrev old : Dpme
  old = (m.entry cur).contents

  abbrev x : Extent
  x = extent_of (m.entry cur)

  carried_at_base :
      s ≡ base
      → extents_of (carry_out malloc cur d (choose_action old base length) m)
        ≡ xs ++ pieces k x base length ys
  unfolding carry_out choose_action
  carried_at_base at = elim (Bool-cases (z == length)) [
    | inl all ↦
        let act : choose_action old base length ≡ AddAction.replace = ground arith in
        let parts : pieces k x base length ys ≡ extent base length k ∷ ys = ground arith in
        rw (act, parts) extents-replace
    | inr part ↦
        let act : choose_action old base length ≡ AddAction.add (base + length) (z - length) =
          ground (arith, add32_exact base length, sub32_exact z length, end_small) in
        let parts : pieces k x base length ys
            ≡ extent base length k ∷ extent (base + length) (z - length) Kind.free ∷ ys =
          ground arith in
        rw (act, parts)
          (View-extents_of _ pre _ xs _ (View-low (base + length) (z - length) _ (omega arith)))
  ]

  carried_above_base :
      s < base
      → extents_of (carry_out malloc cur d (choose_action old base length) m)
        ≡ xs ++ pieces k x base length ys
  unfolding carry_out choose_action
  carried_above_base low = elim (Bool-cases (s + z == base + length)) [
    | inl all ↦
        let act : choose_action old base length ≡ AddAction.add s (base - s) =
          ground (arith, add32_exact base length, add32_exact s z, sub32_exact base s, end_small) in
        let parts : pieces k x base length ys
            ≡ extent s (base - s) Kind.free ∷ extent base length k ∷ ys =
          ground arith in
        rw (act, parts) (extents-high s (base - s) _ low)
    | inr part ↦
        let rest = s + z - (base + length) in
        let act : choose_action old base length
            ≡ AddAction.split (base + length) rest s (base - s) =
          ground (
            arith,
            add32_exact base length,
            add32_exact s z,
            sub32_exact base s,
            add32_exact length (base - s),
            sub32_exact z (length + (base - s)),
            end_small,
          ) in
        let parts : pieces k x base length ys
            ≡ extent s (base - s) Kind.free
              ∷ extent base length k
              ∷ extent (base + length) rest Kind.free
              ∷ ys =
          ground arith in
        let linked : (add_data_to_map malloc d (address_of m.entry cur)
              (adjust cur (base + length) rest m)).1
            ≡ true =
          ap (λ (r : PartitionMapHeader × Bool). r.1) (add_data_to_map-ok malloc ok _ _ _) in
        rw (act, parts, linked)
          (extents-split (base + length) rest s (base - s) (address_of m.entry cur) (omega arith)
            refl low)
  ]

  -- Whatever is chosen, the pieces stand where the free extent stood.
  pub carried :
      extents_of (carry_out malloc cur d (choose_action old base length) m)
      ≡ xs ++ pieces k x base length ys
  carried = elim (Bool-cases (s == base)) [
    | inl at ↦ carried_at_base (ground arith)
    | inr above_base ↦ carried_above_base (ground arith)
  ]

  -- The number that the overflow test adds is the number of extents gained.
  pub length-pieces :
      length_of (pieces k x base length ys)
      ≡ act_value (choose_action old base length) + 1 + length_of ys
  unfolding act_value choose_action
  length-pieces = ground (arith, add32_exact base length, add32_exact s z, end_small)
