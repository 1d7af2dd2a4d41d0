-- ===== src/PartitionMap/Delete/Combine.antt =====
-- `combine_entry` joins a free entry with its free neighbours.
use mac_fdisk.Base.{
  ℕ, ◌+◌, ◌^◌, ◌≡◌, ◌≢◌, ◌<◌, ◌∙◌, arith, true, false, some, List, [], ◌∷◌, ◌++◌, ◌==◌, refl, sym,
  ap, subst, inl, inr, All, All-append, Bool-cases,
}
use mathlib.Core.List.{append_assoc}
use mac_fdisk.Base.Word.{add32, add32_exact}
use mac_fdisk.PartitionMap.State.{
  PartitionMap, PartitionMapHeader, start_of, size_of, type_of, is_free,
}
use mac_fdisk.PartitionMap.Orders.{delete_entry, remove_from_disk_order, unlink, next_in}
use mac_fdisk.PartitionMap.Orders.Neighbours.{unlink_at, next_in_last, next_in_at}
use mac_fdisk.PartitionMap.Add.{adjust}
use mac_fdisk.PartitionMap.Add.View.{View, View-adjust}
use mac_fdisk.PartitionMap.Delete.{absorb_next}
use mac_fdisk.Extents.{Extent, extent, extent_of, extents, Tiled, is_free_kind}
use mac_fdisk.Extents.Laws.{Tiled-le}
use mac_fdisk.Extents.Release.{join_next}

-- The first entry of the second part is deleted.
pub View-delete :
    (m : PartitionMapHeader) (p : ℕ) (pre post : List ℕ) (y : Extent) (xs ys : List Extent)
    → All (λ j. j ≢ p) pre
    → View m pre (p ∷ post) xs (y ∷ ys)
    → View (delete_entry p m) pre post xs ys
unfolding delete_entry remove_from_disk_order extents
View-delete m p pre post y xs ys apart v = record {
  splits = ap (unlink p) v.splits ∙ unlink_at p pre post apart;
  before = v.before;
  after = ground (arith, v.after);
  old_pre = v.old_pre;
  old_post = v.old_post.1;
}

-- The second entry of the second part is deleted.
View-delete_second :
    (m : PartitionMapHeader) (e p : ℕ) (pre post : List ℕ) (x y : Extent) (xs ys : List Extent)
    → All (λ j. j ≢ p) pre
    → e ≢ p
    → View m pre (e ∷ p ∷ post) xs (x ∷ y ∷ ys)
    → View (delete_entry p m) pre (e ∷ post) xs (x ∷ ys)
unfolding delete_entry remove_from_disk_order extents
View-delete_second m e p pre post x y xs ys apart ne v = record {
  splits =
      ap (unlink p) (v.splits ∙ sym (append_assoc pre (e ∷ []) (p ∷ post)))
      ∙ unlink_at p (pre ++ (e ∷ [])) post (All-append _ pre (e ∷ []) apart (ne, tt))
      ∙ append_assoc pre (e ∷ []) post;
  before = v.before;
  after = ground (arith, v.after);
  old_pre = v.old_pre;
  old_post = (v.old_post.0, v.old_post.1.1);
}

pub kind_test : (f : PartitionMap) → is_free_kind (extent_of f).kind ≡ is_free f.contents.type_name
kind_test f = ground arith

-- The map after the entry `e` took over the blocks of the one behind it, where that is free.
pub record AfterNext (m : PartitionMapHeader) (e : ℕ) (pre : List ℕ) (xs : List Extent) (x : Extent)
    (ys : List Extent) : Type 0 where
  pub post : List ℕ
  pub joined : Extent
  pub above : List Extent
  pub is : join_next x ys ≡ joined ∷ above
  pub apart : All (λ j. j ≢ e) post
  pub view : View (absorb_next e (next_in e m.base_order) m) pre (e ∷ post) xs (joined ∷ above)

module _ (m : PartitionMapHeader) (e hi : ℕ) (fits : hi < 2 ^ 32) (pre : List ℕ)
    (apart_pre : All (λ j. j ≢ e) pre) where
  abbrev Old : List ℕ → List ℕ → Type 0
  Old l k = View m l k (extents m.entry l) (extents m.entry k)

  module _ (p : ℕ) (post : List ℕ) (v : Old pre (e ∷ p ∷ post)) where
    abbrev sum : ℕ
    sum = size_of m.entry e + size_of m.entry p

    absorbs :
        is_free_kind (extent_of (m.entry p)).kind ≡ true
        → start_of m.entry e + size_of m.entry e ≡ start_of m.entry p
        → start_of m.entry p < 2 ^ 32
        → sum < 2 ^ 32
        → absorb_next e (some p) m ≡ delete_entry p (adjust e (start_of m.entry e) sum m)
    unfolding absorb_next adjust
    absorbs free touch small exact =
        let f : is_free (type_of m.entry p) ≡ true = sym (kind_test (m.entry p)) ∙ free in
        let g : add32 (start_of m.entry e) (size_of m.entry e) ≡ start_of m.entry p =
          add32_exact _ _ (omega arith) ∙ touch in
        let h : add32 (size_of m.entry e) (size_of m.entry p) ≡ sum = add32_exact _ _ exact in
        let k : (start_of m.entry p == start_of m.entry p) ≡ true = ground arith in rw (f, g, h, k)

    module _ (apart : All (λ j. j ≢ e) (p ∷ post)) where
      abbrev AfterThis : Type 0
      AfterThis =
          AfterNext m e pre (extents m.entry pre) (extent_of (m.entry e))
            (extents m.entry (p ∷ post))

      abbrev ViewOf : PartitionMapHeader → List ℕ → Extent → List Extent → Type 0
      ViewOf n l x ys = View n pre (e ∷ l) (extents m.entry pre) (x ∷ ys)

      next : next_in e m.base_order ≡ some p
      next = ap (next_in e) v.splits ∙ next_in_at e p pre post apart_pre

      stays : is_free_kind (extent_of (m.entry p)).kind ≡ false → AfterThis
      unfolding extents
      stays used = record {
        post = p ∷ post;
        joined = extent_of (m.entry e);
        above = extents m.entry (p ∷ post);
        is = rw used;
        apart = apart;
        view =
            subst (λ n. ViewOf n (p ∷ post) (extent_of (m.entry e)) (extents m.entry (p ∷ post)))
              (sym (ap (λ o. absorb_next e o m) next ∙ same)) v;
      }
        where
          same : absorb_next e (some p) m ≡ m
          same =
              let f : is_free (type_of m.entry p) ≡ false = sym (kind_test (m.entry p)) ∙ used in
              unfold absorb_next in rw f

      takes :
          is_free_kind (extent_of (m.entry p)).kind ≡ true
          → All (λ j. j ≢ p) pre
          → start_of m.entry e + size_of m.entry e ≡ start_of m.entry p
          → start_of m.entry p < 2 ^ 32
          → sum < 2 ^ 32
          → AfterThis
      unfolding extents
      takes free apart_p touch small exact =
          let a = start_of m.entry e in
          let x = extent_of (m.entry e) in
          let view =
            View-delete_second (adjust e a sum m) e p pre post (extent a sum x.kind)
              (extent_of (m.entry p)) (extents m.entry pre) (extents m.entry post) apart_p
              (λ (h : e ≡ p). apart.0 (sym h))
              (View-adjust m e a sum pre (p ∷ post) x (extents m.entry pre)
                (extents m.entry (p ∷ post)) apart_pre apart v) in
          record {
            post = post;
            joined = extent a sum x.kind;
            above = extents m.entry post;
            is = rw free;
            apart = apart.1;
            view =
                subst (λ n. ViewOf n post (extent a sum x.kind) (extents m.entry post))
                  (sym (ap (λ o. absorb_next e o m) next ∙ absorbs free touch small exact)) view;
          }

  absorb_next_none :
      Old pre (e ∷ []) → AfterNext m e pre (extents m.entry pre) (extent_of (m.entry e)) []
  unfolding absorb_next extents
  absorb_next_none v = record {
    post = [];
    joined = extent_of (m.entry e);
    above = [];
    is = refl;
    apart = tt;
    view =
        subst
          (λ o.
            View (absorb_next e o m) pre (e ∷ []) (extents m.entry pre)
              (extent_of (m.entry e) ∷ []))
          (sym (ap (next_in e) v.splits ∙ next_in_last e pre apart_pre)) v;
  }

  pub absorb_next_lem :
      (post : List ℕ)
      → Old pre (e ∷ post)
      → All (λ j. j ≢ e) post
      → All (λ p. All (λ j. j ≢ p) pre) post
      → Tiled (start_of m.entry e) hi (extents m.entry (e ∷ post))
      → AfterNext m e pre (extents m.entry pre) (extent_of (m.entry e)) (extents m.entry post)
  unfolding extents
  absorb_next_lem [] v apart apart_post t = absorb_next_none v
  absorb_next_lem (p ∷ post) v apart apart_post t =
      let inside =
        Tiled-le (start_of m.entry e + size_of m.entry e + size_of m.entry p) hi
          (extents m.entry post) t.2.2 in
      elim (Bool-cases (is_free_kind (extent_of (m.entry p)).kind)) [
        | inl free ↦ takes p post v apart free apart_post.0 (sym t.2.0) (omega arith) (omega arith)
        | inr used ↦ stays p post v apart used
      ]
