-- ===== src/Disklabel/Area/Back.antt =====
-- The label that is written is read back.
use native.Mathlib.Nat.{add-zero}
use mac_fdisk.Base.{
  ℕ, zero, suc, ◌+◌, ◌-◌, ◌*◌, ◌/◌, ◌%◌, ◌^◌, ◌≡◌, ◌≤◌, ◌<◌, refl, sym, ap, ◌∙◌, arith, List, [],
  ◌∷◌, ◌++◌, some, length, true, false, ltb, length-append,
}
use mac_fdisk.Base.Word.{add32, add32_exact, to_int}
use mac_fdisk.Disklabel.{
  Disklabel, BsdPartition, label_words, longs_words, partition_words, take, xor_words, bsd_bbsize,
  bsd_maxpartitions, bsd_dkcksum,
}
use mac_fdisk.Disklabel.Words.{label_of}
use mac_fdisk.Disklabel.Words.Back.{IsLaidOut, label_of-label_words}
use mac_fdisk.Disklabel.Area.{
  Volume, BsdState, drop, bytes_of, words_of, splice, position, cut_off, has_magic, sealed,
  label_bytes, label_at, label_size, sector_size, bsd_readlabel, bsd_writelabel,
}

words_of-bytes_of : (l rest : List ℕ) → words_of (bytes_of l ++ rest) ≡ l ++ words_of rest
unfolding words_of bytes_of
words_of-bytes_of [] rest = refl
words_of-bytes_of (w ∷ l) rest =
    let e : w % 256 + 256 * (w / 256) ≡ w = omega arith in rw (words_of-bytes_of l rest, e) refl

take-append-drop : (n : ℕ) (l : List ℕ) → take n l ++ drop n l ≡ l
take-append-drop zero l = refl
take-append-drop (suc n) [] = refl
take-append-drop (suc n) (x ∷ l) = rw (take-append-drop n l) refl

length-bytes_of : (l : List ℕ) → length (bytes_of l) ≡ 2 * length l
unfolding bytes_of
length-bytes_of [] = refl
length-bytes_of (w ∷ l) = omega (arith, length-bytes_of l)

length-longs_words : (l rest : List ℕ) → length (longs_words l rest) ≡ 2 * length l + length rest
unfolding longs_words
length-longs_words [] rest = omega arith
length-longs_words (w ∷ l) rest = omega (arith, length-longs_words l rest)

length-partition_words : (l : List BsdPartition) → length (partition_words l) ≡ 8 * length l
unfolding partition_words
length-partition_words [] = refl
length-partition_words (p ∷ l) = omega (arith, length-partition_words l)

length-label_bytes : (d : Disklabel) → IsLaidOut d → length (label_bytes d) ≡ label_size
unfolding label_bytes label_words
length-label_bytes d laid = omega (arith, length-bytes_of (label_words d d.d_partitions), words)
  where
    words : length (label_words d d.d_partitions) ≡ 138
    words =
        simp
          (
            length-append, length-longs_words, length-partition_words, laid.typename, laid.packname,
            laid.drivedata, laid.spare, laid.partitions,
          )
          refl

-- What the volume is taken to do below `size`: a write succeeds, and a read across what was just
-- written gives it back.
pub record IsReliable {D : Type 0} (v : Volume D) (size : ℕ) : Type 0 where
  pub written :
      (d : D) (pos : ℕ) (bytes : List ℕ)
      → pos + length bytes ≤ size
      → (e : D) × (v.write_at d pos bytes ≡ some e)
  pub read_back :
      (d e : D) (pos base n : ℕ) (bytes : List ℕ)
      → v.write_at d pos bytes ≡ some e
      → base ≤ pos
      → pos + length bytes ≤ base + n
      → base + n ≤ size
      → (r : List ℕ) × (v.read_at e base n ≡ some r)
        × (take (length bytes) (drop (pos - base) r) ≡ bytes)

position_lem : (sector : ℕ) → sector < 2 ^ 22 → position sector ≡ some (sector * sector_size)
unfolding position to_int
position_lem sector low = ground arith

label_of-area :
    (d : Disklabel) (area : List ℕ) (k : ℕ)
    → IsLaidOut d
    → k ≡ label_at
    → take (length (label_bytes d)) (drop k area) ≡ label_bytes d
    → (rest : List ℕ) × (label_of (words_of (drop label_at area)) ≡ some (d, rest))
unfolding label_bytes
label_of-area d area k laid at e =
    let n = length (label_bytes d) in
    let tail = drop n (drop k area) in
    let split : drop k area ≡ label_bytes d ++ tail =
      sym (take-append-drop n (drop k area)) ∙ ap (λ (l : List ℕ). l ++ tail) e in
    (
      words_of tail,
      ap (λ (j : ℕ). label_of (words_of (drop j area))) (sym at)
          ∙ ap (λ (l : List ℕ). label_of (words_of l)) split
          ∙ ap label_of (words_of-bytes_of (label_words d d.d_partitions) tail)
          ∙ label_of-label_words d (words_of tail) laid,
    )

sealed-ends :
    (d : Disklabel)
    → d.d_npartitions ≤ bsd_maxpartitions
    → (sum : ℕ) × (sealed d ≡ some (record d { d_checksum = sum }))
unfolding sealed bsd_dkcksum
sealed-ends d few =
    let fits : ltb bsd_maxpartitions d.d_npartitions ≡ false = ground (arith, few) in
    let bare = record d { d_checksum = 0 } in
    (
      xor_words 0 (label_words bare (take d.d_npartitions d.d_partitions)),
      rw (sealed, bsd_dkcksum, fits) refl,
    )

module _ {D : Type 0} (v : Volume D) (size : ℕ) (reliable : IsReliable v size) where
  -- On a volume that gives back what was written, below its size and 2 GB: writing a label with the
  -- magic numbers and at most 8 partitions succeeds, and reading it then succeeds with the label that
  -- was written, in which the partitions from `d_npartitions` on are emptied.
  pub bsd_readlabel-bsd_writelabel :
      (start : ℕ) (s : BsdState D)
      → IsLaidOut s.dlabel
      → has_magic s.dlabel ≡ true
      → s.dlabel.d_npartitions ≤ bsd_maxpartitions
      → start + 1 < 2 ^ 22
      → start * sector_size + bsd_bbsize ≤ size
      → (t u : BsdState D) × (bsd_writelabel v start s ≡ some t)
        × (bsd_readlabel v start t ≡ some (u, true))
        × (u.dlabel ≡ cut_off t.dlabel)
        × (u.dlabel ≡ cut_off (record s.dlabel { d_checksum = t.dlabel.d_checksum }))
  unfolding bsd_readlabel bsd_writelabel label_bytes length-label_bytes cut_off has_magic
  bsd_readlabel-bsd_writelabel start s laid magic few low room =
      let (sum, seals) = sealed-ends s.dlabel few in
      let d = record s.dlabel { d_checksum = sum } in
      let pos = start * sector_size in
      let same : IsLaidOut d = record {
        typename = laid.typename;
        packname = laid.packname;
        drivedata = laid.drivedata;
        spare = laid.spare;
        partitions = laid.partitions;
        types = laid.types;
      } in
      let whole = length-label_bytes d same in
      let (disk, writes) =
        reliable.written s.disk (pos + sector_size) (label_bytes d) (omega (arith, whole)) in
      let (area, reads, there) =
        reliable.read_back s.disk disk (pos + sector_size) pos bsd_bbsize (label_bytes d) writes
          (omega arith) (omega (arith, whole)) room in
      let (rest, decoded) =
        label_of-area d area (pos + sector_size - pos) same (omega arith) there in
      let t : BsdState D = record {
        disk = disk;
        buffer = splice label_at (label_bytes d) s.buffer;
        dlabel = d;
      } in
      let u : BsdState D = record { disk = disk; buffer = area; dlabel = cut_off d } in
      let next : add32 start 1 ≡ start + 1 = add32_exact start 1 (omega arith) in
      let at : position (add32 start 1) ≡ some (pos + sector_size) =
        rw next (position_lem (start + 1) low ∙ ap some (omega arith)) in
      let here = position_lem start (omega arith) in
      let writes' : v.write_at s.disk (pos + sector_size + 0) (label_bytes d) ≡ some disk =
        rw (add-zero (pos + sector_size)) writes in
      (
        t,
        u,
        rw (bsd_writelabel, seals, at, writes') refl,
        rw (bsd_readlabel, here, reads, decoded, magic) refl,
        refl,
        refl,
      )
