-- ===== src/PartitionMap/Delete/CombineBack.antt =====
-- The second half of `combine_entry`: the neighbour in front.
use mac_fdisk.Base.{
  ℕ, ◌+◌, ◌^◌, ◌≡◌, ◌≢◌, ◌<◌, ◌∙◌, arith, true, false, some, List, [], ◌∷◌, ◌++◌, ◌==◌, refl, sym,
  ap, ap₂, subst, inl, inr, All, All-append_left, All-append_right, All-append, Bool-cases,
  last_cases,
}
use mathlib.Core.List.{append_assoc}
use mac_fdisk.Base.Word.{add32, add32_exact}
use mac_fdisk.PartitionMap.State.{PartitionMapHeader, start_of, size_of, type_of, is_free}
use mac_fdisk.PartitionMap.Orders.{delete_entry, prev_in}
use mac_fdisk.PartitionMap.Orders.Neighbours.{prev_in_first, prev_in_at}
use mac_fdisk.PartitionMap.Orders.Frame.{extents-append, extents-put}
use mac_fdisk.PartitionMap.Add.{adjust, resized}
use mac_fdisk.PartitionMap.Add.View.{View, View-adjust}
use mac_fdisk.PartitionMap.Delete.{absorb_prev}
use mac_fdisk.PartitionMap.Delete.Combine.{View-delete, kind_test}
use mac_fdisk.Extents.{Extent, extent, extent_of, extents, is_free_kind}
use mac_fdisk.Extents.Release.{join_prev}

join_prev-last :
    (xs : List Extent) (y x : Extent) (ys : List Extent)
    → join_prev (xs ++ (y ∷ [])) (x ∷ ys) ≡ xs ++ join_prev (y ∷ []) (x ∷ ys)
join_prev-last [] y x ys = refl
join_prev-last (z ∷ []) y x ys = refl
join_prev-last (z ∷ w ∷ xs) y x ys =
    ap (λ (t : List Extent). z ∷ t) (join_prev-last (w ∷ xs) y x ys)

-- The cut of a view moved in front of the last entry of the first part.
View-recut :
    (m : PartitionMapHeader) (a b c : List ℕ) (xs ys : List Extent)
    → View m (a ++ b) c xs ys
    → View m a (b ++ c) (extents m.entry a) (extents m.entry (b ++ c))
View-recut m a b c xs ys v = record {
  splits = v.splits ∙ append_assoc a b c;
  before = refl;
  after = refl;
  old_pre = All-append_left _ a b v.old_pre;
  old_post = All-append _ b c (All-append_right _ a b v.old_pre) v.old_post;
}

-- The map after the entry `e` took over the blocks of the one in front of it, where that is free.
pub record AfterPrev (m : PartitionMapHeader) (e : ℕ) (xs : List Extent) (x : Extent)
    (ys : List Extent) : Type 0 where
  pub pre : List ℕ
  pub post : List ℕ
  pub below : List Extent
  pub above : List Extent
  pub is : join_prev xs (x ∷ ys) ≡ below ++ above
  pub view : View (absorb_prev e (prev_in e m.base_order) m) pre post below above

module _ (m : PartitionMapHeader) (e : ℕ) (post : List ℕ) (apart : All (λ j. j ≢ e) post)
    (x : Extent) (ys : List Extent) where
  absorb_prev_none : (xs : List Extent) → View m [] (e ∷ post) xs (x ∷ ys) → AfterPrev m e xs x ys
  unfolding absorb_prev extents
  absorb_prev_none (y ∷ xs) v = absurd (ground (arith, v.before))
  absorb_prev_none [] v = record {
    pre = [];
    post = e ∷ post;
    below = [];
    above = x ∷ ys;
    is = refl;
    view =
        subst (λ o. View (absorb_prev e o m) [] (e ∷ post) [] (x ∷ ys))
          (sym (ap (prev_in e) v.splits ∙ prev_in_first e post apart)) v;
  }

  module _ (q : ℕ) (init : List ℕ) (apart_pre : All (λ j. j ≢ e) (init ++ (q ∷ [])))
      (xs : List Extent) (v : View m (init ++ (q ∷ [])) (e ∷ post) xs (x ∷ ys)) where
    prev : prev_in e m.base_order ≡ some q
    prev =
        ap (prev_in e) (v.splits ∙ append_assoc init (q ∷ []) (e ∷ post))
        ∙ prev_in_at e q init post (All-append_left _ init (q ∷ []) apart_pre)
            (All-append_right _ init (q ∷ []) apart_pre).0

    parts : xs ≡ extents m.entry init ++ (extent_of (m.entry q) ∷ [])
    unfolding extents
    parts = sym v.before ∙ extents-append m.entry init (q ∷ [])

    last_joins :
        join_prev xs (x ∷ ys)
        ≡ extents m.entry init ++ join_prev (extent_of (m.entry q) ∷ []) (x ∷ ys)
    last_joins =
        ap (λ (t : List Extent). join_prev t (x ∷ ys)) parts
        ∙ join_prev-last (extents m.entry init) (extent_of (m.entry q)) x ys

    remains : is_free_kind (extent_of (m.entry q)).kind ≡ false → AfterPrev m e xs x ys
    remains used = record {
      pre = init ++ (q ∷ []);
      post = e ∷ post;
      below = xs;
      above = x ∷ ys;
      is =
          last_joins
          ∙ rw used
              (sym (append_assoc (extents m.entry init) (extent_of (m.entry q) ∷ []) (x ∷ ys)))
          ∙ ap (λ (t : List Extent). t ++ (x ∷ ys)) (sym parts);
      view =
          subst (λ n. View n (init ++ (q ∷ [])) (e ∷ post) xs (x ∷ ys))
            (sym (ap (λ o. absorb_prev e o m) prev ∙ same)) v;
    }
      where
        same : absorb_prev e (some q) m ≡ m
        same =
            let f : is_free (type_of m.entry q) ≡ false = sym (kind_test (m.entry q)) ∙ used in
            unfold absorb_prev in rw f

    abbrev sum : ℕ
    sum = size_of m.entry e + size_of m.entry q

    absorbs :
        is_free_kind (extent_of (m.entry q)).kind ≡ true
        → start_of m.entry q + size_of m.entry q ≡ start_of m.entry e
        → start_of m.entry e < 2 ^ 32
        → sum < 2 ^ 32
        → absorb_prev e (some q) m ≡ delete_entry q (adjust e (start_of m.entry q) sum m)
    unfolding absorb_prev adjust
    absorbs free touch small exact =
        let f : is_free (type_of m.entry q) ≡ true = sym (kind_test (m.entry q)) ∙ free in
        let g : add32 (start_of m.entry q) (size_of m.entry q) ≡ start_of m.entry e =
          add32_exact _ _ (omega arith) ∙ touch in
        let h : add32 (size_of m.entry e) (size_of m.entry q) ≡ sum = add32_exact _ _ exact in
        let k : (start_of m.entry e == start_of m.entry e) ≡ true = ground arith in rw (f, g, h, k)

    swallows :
        is_free_kind (extent_of (m.entry q)).kind ≡ true
        → All (λ j. j ≢ q) init
        → start_of m.entry q + size_of m.entry q ≡ start_of m.entry e
        → start_of m.entry e < 2 ^ 32
        → sum < 2 ^ 32
        → AfterPrev m e xs x ys
    unfolding extents
    swallows free apart_q touch small exact =
        let a = start_of m.entry q in
        let n = adjust e a sum m in
        let adjusted = View-adjust m e a sum (init ++ (q ∷ [])) post x xs ys apart_pre apart v in
        let kept : extents n.entry init ≡ extents m.entry init =
          unfold adjust in
          extents-put m.entry e
            (record (m.entry e) { contents = resized a sum (m.entry e).contents }) init
            (All-append_left _ init (q ∷ []) apart_pre) in
        let size : x.size ≡ size_of m.entry e = ground (arith, v.after) in
        let joined : join_prev (extent_of (m.entry q) ∷ []) (x ∷ ys) ≡ extent a sum x.kind ∷ ys =
          rw (free, size) in
        let cut = View-recut n init (q ∷ []) (e ∷ post) xs (extent a sum x.kind ∷ ys) adjusted in
        record {
          pre = init;
          post = e ∷ post;
          below = extents n.entry init;
          above = extents n.entry (e ∷ post);
          is =
              last_joins
              ∙ ap₂ (λ (b t : List Extent). b ++ t) (sym kept) (joined ∙ sym adjusted.after);
          view =
              subst
                (λ t. View t init (e ∷ post) (extents n.entry init) (extents n.entry (e ∷ post)))
                (sym (ap (λ o. absorb_prev e o m) prev ∙ absorbs free touch small exact))
                (View-delete n q init (e ∷ post) (extent_of (n.entry q)) (extents n.entry init)
                  (extents n.entry (e ∷ post)) apart_q cut);
        }

  -- All the cases.
  pub absorb_prev_lem :
      (pre : List ℕ) (xs : List Extent)
      → All (λ j. j ≢ e) pre
      → View m pre (e ∷ post) xs (x ∷ ys)
      → ((q : ℕ) (init : List ℕ)
          → pre ≡ init ++ (q ∷ [])
          → All (λ j. j ≢ q) init
            × (start_of m.entry q + size_of m.entry q ≡ start_of m.entry e)
            × (size_of m.entry e + size_of m.entry q < 2 ^ 32))
      → start_of m.entry e < 2 ^ 32
      → AfterPrev m e xs x ys
  absorb_prev_lem pre xs apart_pre v touch small = elim (last_cases pre) [
    | inl nothing ↦ absorb_prev_none xs (subst (λ l. View m l (e ∷ post) xs (x ∷ ys)) nothing v)
    | inr (init, q, ends) ↦
        let v' = subst (λ l. View m l (e ∷ post) xs (x ∷ ys)) ends v in
        let apart' = subst (All (λ j. j ≢ e)) ends apart_pre in
        let (other, touches, exact) = touch q init ends in
        elim (Bool-cases (is_free_kind (extent_of (m.entry q)).kind)) [
          | inl free ↦ swallows q init apart' xs v' free other touches small exact
          | inr used ↦ remains q init apart' xs v' used
        ]
  ]
