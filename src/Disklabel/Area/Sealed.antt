-- ===== src/Disklabel/Area/Sealed.antt =====
-- The checksum of a label that is written.
use mathlib.Core.List.{append_assoc}
use mac_fdisk.Base.{
  ℕ, ◌≡◌, ◌≤◌, refl, sym, ap, ◌∙◌, arith, List, [], ◌∷◌, ◌++◌, Option, none, some, ltb, Bool-cases,
  inl, inr,
}
use mac_fdisk.Disklabel.{
  Disklabel, BsdPartition, label_words, long_words, partition_words, front_words, take, xor_words,
  bsd_maxpartitions, bsd_dkcksum,
}
use mac_fdisk.Disklabel.Checksum.{xor_words-balanced}
use mac_fdisk.Disklabel.Words.Back.{longs_words-append}
use mac_fdisk.Disklabel.Area.{sealed}

abbrev back_words : Disklabel → List BsdPartition → List ℕ
back_words d parts =
    d.d_npartitions ∷ long_words d.d_bbsize (long_words d.d_sbsize (partition_words parts))

front_words-append : (d : Disklabel) (rest : List ℕ) → front_words d rest ≡ front_words d [] ++ rest
front_words-append d rest = simp (append_assoc, longs_words-append)

label_words-split :
    (d : Disklabel) (parts : List BsdPartition)
    → label_words d parts ≡ front_words d [] ++ (d.d_checksum ∷ back_words d parts)
unfolding label_words
label_words-split d parts = front_words-append d (d.d_checksum ∷ back_words d parts)

abbrev checksum_or : ℕ → Option Disklabel → ℕ
checksum_or c none = c
checksum_or c (some d) = d.d_checksum

abbrev label_or : Disklabel → Option Disklabel → Disklabel
label_or d none = d
label_or d (some e) = e

-- A label that gets its checksum for writing has at most 8 partitions, and the exclusive or of all its
-- words up to the last partition is 0.
pub bsd_dkcksum-sealed :
    (d e : Disklabel)
    → sealed d ≡ some e
    → (d.d_npartitions ≤ bsd_maxpartitions) × (bsd_dkcksum e ≡ some 0)
unfolding sealed bsd_dkcksum
bsd_dkcksum-sealed d e h = elim (Bool-cases (ltb bsd_maxpartitions d.d_npartitions)) [
  | inl many ↦
      let fails : sealed d ≡ none = rw (sealed, bsd_dkcksum, many) refl in
      absurd (cc (sym fails ∙ h))
  | inr few ↦
      let parts = take d.d_npartitions d.d_partitions in
      let sum = xor_words 0 (label_words (record d { d_checksum = 0 }) parts) in
      let sum_lem : sum ≡ xor_words 0 (front_words d [] ++ (0 ∷ back_words d parts)) =
        ap (xor_words 0) (label_words-split (record d { d_checksum = 0 }) parts) in
      let seals : sealed d ≡ some (record d { d_checksum = sum }) =
        rw (sealed, bsd_dkcksum, few) refl in
      let is : record d { d_checksum = sum } ≡ e = ap (label_or d) (sym seals ∙ h) in
      let balanced : bsd_dkcksum (record d { d_checksum = sum }) ≡ some 0 =
        rw (bsd_dkcksum, few)
          (ap some (
            ap (xor_words 0) (label_words-split (record d { d_checksum = sum }) parts)
            ∙ xor_words-balanced (front_words d []) (back_words d parts) sum sum_lem)) in
      (ground (arith, few), ap bsd_dkcksum (sym is) ∙ balanced)
]
