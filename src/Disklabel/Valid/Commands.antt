-- ===== src/Disklabel/Valid/Commands.antt =====
-- Every command on a label keeps it valid.
use mac_fdisk.Base.{
  ℕ, suc, ◌+◌, ◌-◌, ◌*◌, ◌%◌, ◌^◌, ◌≡◌, ◌<◌, refl, arith, Bool, true, false, Option, none, some,
  List, [], ◌∷◌, ltb, leb, if◌then◌else◌, ◌||◌, Bool-cases, inl, inr, length,
}
use mac_fdisk.Base.Run.{Run, pure, fail, ◌>>=◌, Yields, Yields-bind, Yields-any}
use mac_fdisk.Base.Word.{add32, sub32}
use mac_fdisk.Fdisk.{Geometry}
use mac_fdisk.Fdisk.Entry.{Partition}
use mac_fdisk.Fdisk.Input.{Lines, skip_blanks}
use mac_fdisk.Fdisk.Table.{Table, deref}
use mac_fdisk.Fdisk.Asking.{tolower, read_hex, get_partition}
use mac_fdisk.Disklabel.{Disklabel, BsdPartition, bsd_maxpartitions}
use mac_fdisk.Disklabel.Edit.{
  bsd_get_part_index, removed, stored, with_partition, claimed, is_full, bsd_check_new_partition,
  ask_extent, placed, added, bsd_translate_fstype, linked, link_to, new_extent, bsd_delete_part,
  bsd_new_part, bsd_link_part, bsd_change_fstype, bsd_edit_disklabel, edit_secpercyl,
}
use mac_fdisk.Disklabel.Valid.{
  IsValid, Keeps, with_partition-IsValid, removed-IsValid, claimed-IsValid,
}
use mac_fdisk.Disklabel.Area.{has_magic}

abbrev Below : ℕ → ℕ → Type 0
Below max i = i < max

index-lt : (x max : ℕ) → (ltb x 97 || leb (97 + max) x) ≡ false → x - 97 < max
index-lt x max h = ground arith

pub bsd_get_part_index-Below :
    (max : ℕ) (ls : Lines) → Yields (Below max) (bsd_get_part_index max ls)
unfolding bsd_get_part_index
bsd_get_part_index-Below max [] = tt
bsd_get_part_index-Below max (l ∷ ls) = cases (skip_blanks l) refl (bsd_get_part_index-Below max ls)
  where
    cases :
        (text : List ℕ)
        → skip_blanks l ≡ text
        → Yields (Below max) (bsd_get_part_index max ls)
        → Yields (Below max) (bsd_get_part_index max (l ∷ ls))
    cases [] e rest = rw (bsd_get_part_index, e) rest
    cases (c ∷ text) e rest = elim (Bool-cases (ltb (tolower c) 97 || leb (97 + max) (tolower c))) [
      | inl out ↦ rw (bsd_get_part_index, e, out) rest
      | inr within ↦ rw (bsd_get_part_index, e, within) (index-lt (tolower c) max within)
    ]

stored-IsValid :
    (o : Option Disklabel) (ls : Lines)
    → ((e : Disklabel) → o ≡ some e → IsValid e)
    → Yields IsValid (stored o ls)
stored-IsValid none ls h = tt
stored-IsValid (some e) ls h = h e refl

pub bsd_delete_part-IsValid :
    (d : Disklabel) (ls : Lines) → IsValid d → Yields IsValid (bsd_delete_part d ls)
unfolding bsd_delete_part
bsd_delete_part-IsValid d ls valid =
    Yields-bind (Below d.d_npartitions) IsValid (bsd_get_part_index d.d_npartitions)
      (λ i. stored (removed i d)) ls (bsd_get_part_index-Below d.d_npartitions ls)
      (λ i t within. stored-IsValid (removed i d) t (λ e. removed-IsValid d e valid i within))

-- What `bsd_check_new_partition` gives.
abbrev Ready : Disklabel × Option ℕ → Type 0
Ready (d, none) = IsValid d
Ready (d, some i) = IsValid d × (i < d.d_npartitions)

claimed-Ready :
    (i : ℕ) (d : Disklabel) (o : Option (Disklabel × Bool)) (ls : Lines)
    → ((e : Disklabel) (b : Bool) → o ≡ some (e, b) → IsValid e × (i < e.d_npartitions))
    → Yields Ready (elim o as (λ x. Option ((Disklabel × Option ℕ) × Lines)) [
      | none ↦ none
      | some (e, free) ↦ some ((e, if free then some i else none), ls)
    ])
claimed-Ready i d none ls h = tt
claimed-Ready i d (some (e, true)) ls h = h e true refl
claimed-Ready i d (some (e, false)) ls h = (h e false refl).0

bsd_check_new_partition-Ready :
    (d : Disklabel) (ls : Lines) → IsValid d → Yields Ready (bsd_check_new_partition d ls)
unfolding bsd_check_new_partition
bsd_check_new_partition-Ready d ls valid = elim (Bool-cases (is_full d d.d_partitions)) [
  | inl full ↦ rw (bsd_check_new_partition, full) valid
  | inr open' ↦
      rw (bsd_check_new_partition, open')
        (Yields-bind (Below bsd_maxpartitions) Ready (bsd_get_part_index bsd_maxpartitions)
          (λ i rest. elim (claimed i d) as (λ x. Option ((Disklabel × Option ℕ) × Lines)) [
            | none ↦ none
            | some (e, free) ↦ some ((e, if free then some i else none), rest)
          ])
          ls (bsd_get_part_index-Below bsd_maxpartitions ls)
          (λ i t within.
            claimed-Ready i d (claimed i d) t (λ e b. claimed-IsValid d e valid i b within)))
]

added-IsValid :
    (find : Run Lines (BsdPartition → BsdPartition)) (r : Disklabel × Option ℕ) (ls : Lines)
    → Yields Keeps (find ls)
    → Ready r
    → Yields IsValid (added find r ls)
added-IsValid find (d, none) ls finds ready = ready
added-IsValid find (d, some i) ls finds (valid, within) =
    Yields-bind Keeps IsValid find (λ f. stored (with_partition i f d)) ls finds
      (λ f t keeps.
        stored-IsValid (with_partition i f d) t
          (λ e. with_partition-IsValid d e valid i f keeps within))

-- Where a partition is added, once it is found for every text that is left.
adds-IsValid :
    (find : Run Lines (BsdPartition → BsdPartition)) (d : Disklabel) (ls : Lines)
    → ((t : Lines) → Yields Keeps (find t))
    → IsValid d
    → Yields IsValid ((bsd_check_new_partition d >>= added find) ls)
adds-IsValid find d ls finds valid =
    Yields-bind Ready IsValid (bsd_check_new_partition d) (added find) ls
      (bsd_check_new_partition-Ready d ls valid)
      (λ r t ready. added-IsValid find r t (finds t) ready)

abbrev Anything {ℓ} : {A : Type ℓ} → A → Type 0
Anything a = Unit {0}

new_extent-Keeps : (g : Geometry) (p : Partition) (ls : Lines) → Yields Keeps (new_extent g p ls)
new_extent-Keeps g p ls =
    let last = sub32 (add32 p.start_sect p.nr_sects) 1 in
    Yields-bind (Anything {A = ℕ × ℕ}) Keeps (ask_extent g p.start_sect last)
      (λ e. pure (placed e.0 e.1)) ls (Yields-any (ask_extent g p.start_sect last ls))
      (λ e t any q h. omega arith)

pub bsd_new_part-IsValid :
    (g : Geometry) (p : Partition) (d : Disklabel) (ls : Lines)
    → IsValid d
    → Yields IsValid (bsd_new_part g p d ls)
unfolding bsd_new_part
bsd_new_part-IsValid g p d ls = adds-IsValid (new_extent g p) d ls (new_extent-Keeps g p)

bsd_translate_fstype-lt : (t : ℕ) → bsd_translate_fstype t < 256
unfolding bsd_translate_fstype
bsd_translate_fstype-lt t = ground arith

link_to-Keeps : (t : Table) (o : Option ℕ) (ls : Lines) → Yields Keeps (link_to t o ls)
unfolding link_to
link_to-Keeps t o ls = cases (deref t o)
  where
    cases :
        (x : Option Partition)
        → Yields Keeps (
            (elim x as (λ y. Run Lines (BsdPartition → BsdPartition)) [
              | none ↦ fail
              | some q ↦ pure (linked q)
            ])
              ls)
    cases none = tt
    cases (some q) = λ p h. bsd_translate_fstype-lt q.sys_ind

pub bsd_link_part-IsValid :
    (t : Table) (d : Disklabel) (ls : Lines) → IsValid d → Yields IsValid (bsd_link_part t d ls)
unfolding bsd_link_part
bsd_link_part-IsValid t d ls valid =
    Yields-bind (Anything {A = ℕ}) IsValid (get_partition true t.partitions t)
      (λ k. bsd_check_new_partition d >>= added (link_to t (t.part_table k))) ls
      (Yields-any (get_partition true t.partitions t ls))
      (λ k rest any.
        adds-IsValid (link_to t (t.part_table k)) d rest (link_to-Keeps t (t.part_table k)) valid)

pub bsd_change_fstype-IsValid :
    (d : Disklabel) (ls : Lines) → IsValid d → Yields IsValid (bsd_change_fstype d ls)
unfolding bsd_change_fstype
bsd_change_fstype-IsValid d ls valid =
    let typed = λ (i hex : ℕ). with_partition i (λ p. record p { p_fstype = hex % 256 }) d in
    Yields-bind (Below d.d_npartitions) IsValid (bsd_get_part_index d.d_npartitions)
      (λ i. read_hex >>= λ hex. stored (typed i hex)) ls
      (bsd_get_part_index-Below d.d_npartitions ls)
      (λ i rest within.
        Yields-bind (Anything {A = ℕ}) IsValid read_hex (λ hex. stored (typed i hex)) rest
          (Yields-any (read_hex rest))
          (λ hex t any. stored-IsValid (typed i hex) t (λ e.
            with_partition-IsValid d e valid i (λ p. record p { p_fstype = hex % 256 })
              (λ p h. omega arith) within)))

pub bsd_edit_disklabel-IsValid :
    (d : Disklabel) (ls : Lines) → IsValid d → Yields IsValid (bsd_edit_disklabel d ls)
unfolding bsd_edit_disklabel has_magic
bsd_edit_disklabel-IsValid d ls valid =
    cases (edit_secpercyl (suc (length ls)) (d.d_nsectors * d.d_ntracks % 2 ^ 32) ls) refl
  where
    cases :
        (o : Option (ℕ × Lines))
        → edit_secpercyl (suc (length ls)) (d.d_nsectors * d.d_ntracks % 2 ^ 32) ls ≡ o
        → Yields IsValid (bsd_edit_disklabel d ls)
    cases none e = rw (bsd_edit_disklabel, e) tt
    cases (some (v, rest)) e =
        rw (bsd_edit_disklabel, e)
          (record {
            laid = record {
              typename = valid.laid.typename;
              packname = valid.laid.packname;
              drivedata = valid.laid.drivedata;
              spare = valid.laid.spare;
              partitions = valid.laid.partitions;
              types = valid.laid.types;
            };
            magic = valid.magic;
            few = valid.few;
            beyond = valid.beyond;
          })
