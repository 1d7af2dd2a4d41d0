-- ===== src/Disklabel/Words/Back.antt =====
-- A label is got back from its words.
use mathlib.Core.List.{append_assoc}
use mac_fdisk.Base.{
  ℕ, zero, suc, ◌+◌, ◌*◌, ◌/◌, ◌%◌, ◌^◌, ◌≡◌, ◌<◌, refl, arith, List, [], ◌∷◌, ◌++◌, some, length,
  All,
}
use mac_fdisk.Base.Run.{◌>>=◌}
use mac_fdisk.Disklabel.{Disklabel, BsdPartition, label_words, longs_words, partition_words}
use mac_fdisk.Disklabel.Words.{joined, word, long, words, longs, partitions_of, label_of}

joined_lem : (x : ℕ) → joined (x % 2 ^ 16) (x / 2 ^ 16) ≡ x
unfolding joined
joined_lem x = omega arith

words-append : (n : ℕ) (l rest : List ℕ) → length l ≡ n → words n (l ++ rest) ≡ some (l, rest)
unfolding words word
words-append zero [] rest h = refl
words-append zero (w ∷ l) rest h = absurd (omega arith)
words-append (suc n) [] rest h = absurd (omega arith)
words-append (suc n) (w ∷ l) rest h = rw (words-append n l rest (omega arith), ◌>>=◌) refl

longs-longs_words :
    (n : ℕ) (l rest : List ℕ) → length l ≡ n → longs n (longs_words l rest) ≡ some (l, rest)
unfolding longs long longs_words
longs-longs_words zero [] rest h = refl
longs-longs_words zero (w ∷ l) rest h = absurd (omega arith)
longs-longs_words (suc n) [] rest h = absurd (omega arith)
longs-longs_words (suc n) (w ∷ l) rest h =
    rw (longs-longs_words n l rest (omega arith), joined_lem w, ◌>>=◌) refl

abbrev pub HasByteType : BsdPartition → Type 0
HasByteType p = p.p_fstype < 256

partitions_of-partition_words :
    (n : ℕ) (l : List BsdPartition) (rest : List ℕ)
    → length l ≡ n
    → All HasByteType l
    → partitions_of n (partition_words l ++ rest) ≡ some (l, rest)
unfolding partitions_of partition_words word long
partitions_of-partition_words zero [] rest h k = refl
partitions_of-partition_words zero (p ∷ l) rest h k = absurd (omega arith)
partitions_of-partition_words (suc n) [] rest h k = absurd (omega arith)
partitions_of-partition_words (suc n) (p ∷ l) rest h k =
    let low : (p.p_fstype + 256 * p.p_frag) % 256 ≡ p.p_fstype = omega (arith, k.0) in
    let high : (p.p_fstype + 256 * p.p_frag) / 256 ≡ p.p_frag = omega (arith, k.0) in
    simp (low, high, joined_lem)
      (rw (partitions_of-partition_words n l rest (omega arith) k.1, ◌>>=◌) refl)

-- The lists have the lengths of the arrays, and a type is a byte.
pub record IsLaidOut (d : Disklabel) : Type 0 where
  pub typename : length d.d_typename ≡ 8
  pub packname : length d.d_packname ≡ 8
  pub drivedata : length d.d_drivedata ≡ 5
  pub spare : length d.d_spare ≡ 5
  pub partitions : length d.d_partitions ≡ 8
  pub types : All HasByteType d.d_partitions

pub longs_words-append : (l r rest : List ℕ) → longs_words l r ++ rest ≡ longs_words l (r ++ rest)
unfolding longs_words
longs_words-append [] r rest = refl
longs_words-append (w ∷ l) r rest = rw (longs_words-append l r rest) refl

-- The words of a label with its whole table, in front of other words, are read back as it.
pub label_of-label_words :
    (d : Disklabel) (rest : List ℕ)
    → IsLaidOut d
    → label_of (label_words d d.d_partitions ++ rest) ≡ some (d, rest)
unfolding label_of label_words long word
label_of-label_words d rest laid =
    simp (append_assoc, longs_words-append, joined_lem)
      (rw
        (
          words-append 8 d.d_typename _ laid.typename,
          ◌>>=◌,
          words-append 8 d.d_packname _ laid.packname,
          ◌>>=◌,
          longs-longs_words 5 d.d_drivedata _ laid.drivedata,
          ◌>>=◌,
          longs-longs_words 5 d.d_spare _ laid.spare,
          ◌>>=◌,
          partitions_of-partition_words 8 d.d_partitions rest laid.partitions laid.types,
          ◌>>=◌,
        )
        (simp joined_lem))
