-- ===== src/Disklabel/Area.antt =====
-- fdisklabel.c: the label on the disk, in the boot area of its Intel partition. A `none` is a call of
-- `fatal`, the end of the program at an overlap, or an access out of a buffer.
pub mod Back
pub mod Sealed
use mac_fdisk.Base.{
  ℕ, zero, suc, ◌+◌, ◌-◌, ◌*◌, ◌/◌, ◌%◌, ◌^◌, Bool, true, false, ◌&&◌, ◌||◌, not, Option, none,
  some, List, [], ◌∷◌, ◌++◌, ◌==◌, ltb, leb, if◌then◌else◌, length,
}
use mac_fdisk.Base.Word.{add32, sub32, to_int}
use mac_fdisk.Base.Strings.{codes, strncmp_eq}
use mac_fdisk.Fdisk.Entry.{Partition}
use mac_fdisk.Fdisk.Input.{Lines, skip_blanks}
use mac_fdisk.Disklabel.{
  Disklabel, BsdPartition, bsd_diskmagic, bsd_maxpartitions, bsd_labelsector, bsd_labeloffset,
  bsd_bbsize, bsd_sbsize, bsd_dtype_scsi, bsd_dtype_st506, bsd_d_dospart, bsd_fs_unused,
  no_partition, label_words, take, bsd_dkcksum,
}
use mac_fdisk.Disklabel.Words.{label_of}
use mac_fdisk.Disklabel.Edit.{emptied}

-- What the routines take from the system: `read` behind an `lseek64`, with the bytes that are read if
-- there are so many; `write` behind an `lseek64`; the bytes that are read from a file of the name, at
-- most so many; and heads, sectors and cylinders from `HDIO_GETGEO`.
pub record Volume (D : Type 0) : Type 0 where
  pub read_at : D → ℕ → ℕ → Option (List ℕ)
  pub write_at : D → ℕ → List ℕ → Option D
  pub read_file : D → List ℕ → ℕ → Option (List ℕ)
  pub get_geo : D → Option (ℕ × ℕ × ℕ)

abbrev pub sector_size : ℕ
sector_size = 512

abbrev pub label_size : ℕ
label_size = 276

-- Where the label is in the boot area.
abbrev pub label_at : ℕ
label_at = bsd_labelsector * sector_size + bsd_labeloffset

abbrev pub drop {ℓ} : {A : Type ℓ} → ℕ → List A → List A
drop zero l = l
drop (suc n) [] = []
drop (suc n) (x ∷ l) = drop n l

-- A 16-bit word as two bytes, the low one first.
unfoldable pub bytes_of : List ℕ → List ℕ
bytes_of [] = []
bytes_of (w ∷ l) = w % 256 ∷ w / 256 ∷ bytes_of l

unfoldable pub words_of : List ℕ → List ℕ
words_of [] = []
words_of (b ∷ []) = []
words_of (b ∷ c ∷ l) = (b + 256 * c) ∷ words_of l

-- `bcopy` of bytes to position `k` of a buffer.
unfoldable pub splice : ℕ → List ℕ → List ℕ → List ℕ
splice k bytes buffer = take k buffer ++ (bytes ++ drop (k + length bytes) buffer)

-- The file position of a sector: an `int` product, of which a negative one is no position.
unfoldable pub position : ℕ → Option ℕ
unfolding to_int
position sector = to_int (sector * sector_size % 2 ^ 32)

-- The partitions of a table from index `n` on are emptied.
unfoldable pub emptied_from : ℕ → List BsdPartition → List BsdPartition
emptied_from n [] = []
emptied_from zero (p ∷ l) = emptied p ∷ emptied_from zero l
emptied_from (suc n) (p ∷ l) = p ∷ emptied_from n l

-- The loop of `bsd_readlabel`.
unfoldable pub cut_off : Disklabel → Disklabel
unfolding emptied_from
cut_off d = record d { d_partitions = emptied_from d.d_npartitions d.d_partitions }

unfoldable pub has_magic : Disklabel → Bool
has_magic d = d.d_magic == bsd_diskmagic && d.d_magic2 == bsd_diskmagic

-- The static variables of fdisklabel.c, and the file.
pub record BsdState (D : Type 0) : Type 0 where
  pub disk : D
  pub buffer : List ℕ
  pub dlabel : Disklabel

-- The label with its checksum, as `bsd_writelabel` makes it.
unfoldable pub sealed : Disklabel → Option Disklabel
unfolding bsd_dkcksum
sealed d = elim (bsd_dkcksum (record d { d_checksum = 0 })) [
  | none ↦ none
  | some sum ↦ some (record d { d_checksum = sum })
]

unfoldable pub label_bytes : Disklabel → List ℕ
unfolding label_words bytes_of
label_bytes d = bytes_of (label_words d d.d_partitions)

-- The name of the bootstrap, without the last character of the line.
unfoldable pub chopped : List ℕ → List ℕ
chopped [] = []
chopped (c ∷ []) = []
chopped (c ∷ d ∷ l) = c ∷ chopped (d ∷ l)

unfoldable pub ask_basename : Disklabel → Lines → List ℕ × Lines
unfolding skip_blanks chopped
ask_basename d ls =
    let standard = if d.d_type == bsd_dtype_scsi then codes "sd" else codes "wd" in
    elim ls [
      | [] ↦ (standard, [])
      | l ∷ rest ↦ elim (skip_blanks l) [
        | [] ↦ (standard, rest)
        | c ∷ text ↦ (chopped (c ∷ text), rest)
      ]
    ]

unfoldable pub all_zero : List ℕ → Bool
all_zero [] = true
all_zero (b ∷ l) = b == 0 && all_zero l

unfoldable pub zeros : ℕ → List ℕ
zeros zero = []
zeros (suc n) = 0 ∷ zeros n

abbrev pub label_part : List ℕ → List ℕ
label_part buffer = take label_size (drop label_at buffer)

module _ {D : Type 0} (v : Volume D) where
  -- `bsd_readlabel(p, d)` for a partition that starts at `start`, with its result.
  unfoldable pub bsd_readlabel : ℕ → BsdState D → Option (BsdState D × Bool)
  bsd_readlabel start s = elim (position start) [
    | none ↦ none
    | some pos ↦ elim (v.read_at s.disk pos bsd_bbsize) [
      | none ↦ none
      | some bytes ↦ elim (label_of (words_of (drop label_at bytes))) [
        | none ↦ none
        | some (d, rest) ↦
            some (record s { buffer = bytes; dlabel = cut_off d }, has_magic (cut_off d))
      ]
    ]
  ]

  -- `bsd_writelabel(p, d)`
  unfoldable pub bsd_writelabel : ℕ → BsdState D → Option (BsdState D)
  bsd_writelabel start s = elim (sealed s.dlabel) [
    | none ↦ none
    | some d ↦ elim (position (add32 start bsd_labelsector)) [
      | none ↦ none
      | some pos ↦ elim (v.write_at s.disk (pos + bsd_labeloffset) (label_bytes d)) [
        | none ↦ none
        | some disk ↦
            some (record {
              disk = disk;
              buffer = splice label_at (label_bytes d) s.buffer;
              dlabel = d;
            })
      ]
    ]
  ]

  -- `bsd_initlabel(p, d, pindex)`, with its result; `device` is the name of the disk.
  unfoldable pub bsd_initlabel : List ℕ → Partition → BsdState D → BsdState D × Bool
  unfolding strncmp_eq
  bsd_initlabel device p s = elim (v.get_geo s.disk) [
    | none ↦ (s, false)
    | some (heads, sectors, cylinders) ↦
        let secpercyl = sectors * heads in
        let secperunit = secpercyl * cylinders % 2 ^ 32 in
        (
          record s {
            dlabel = record {
              d_magic = bsd_diskmagic;
              d_type =
                  if strncmp_eq 7 device (codes "/dev/sd") then bsd_dtype_scsi else bsd_dtype_st506;
              d_subtype = 0;
              d_typename = 0 ∷ 0 ∷ 0 ∷ 0 ∷ 0 ∷ 0 ∷ 0 ∷ 0 ∷ [];
              d_packname = 0 ∷ 0 ∷ 0 ∷ 0 ∷ 0 ∷ 0 ∷ 0 ∷ 0 ∷ [];
              d_secsize = sector_size;
              d_nsectors = sectors;
              d_ntracks = heads;
              d_ncylinders = cylinders;
              d_secpercyl = secpercyl;
              d_secperunit = secperunit;
              d_sparespertrack = 0;
              d_sparespercyl = 0;
              d_acylinders = 0;
              d_rpm = 3600;
              d_interleave = 1;
              d_trackskew = 0;
              d_cylskew = 0;
              d_headswitch = 0;
              d_trkseek = 0;
              d_flags = bsd_d_dospart;
              d_drivedata = 0 ∷ 0 ∷ 0 ∷ 0 ∷ 0 ∷ [];
              d_spare = 0 ∷ 0 ∷ 0 ∷ 0 ∷ 0 ∷ [];
              d_magic2 = bsd_diskmagic;
              d_checksum = 0;
              d_npartitions = 4;
              d_bbsize = bsd_bbsize;
              d_sbsize = bsd_sbsize;
              d_partitions =
                  no_partition
                  ∷ no_partition
                  ∷ record no_partition { p_offset = p.start_sect; p_size = p.nr_sects }
                  ∷ record no_partition { p_size = secperunit }
                  ∷ no_partition
                  ∷ no_partition
                  ∷ no_partition
                  ∷ no_partition
                  ∷ [];
            };
          },
          true,
        )
  ]

  -- `bsd_get_bootstrap(path, &buffer[k], size)`: the result 0 is `none` inside.
  unfoldable pub bsd_get_bootstrap : List ℕ → ℕ → ℕ → D → List ℕ → Option (Option (List ℕ))
  unfolding splice
  bsd_get_bootstrap path k size disk buffer = elim (v.read_file disk path size) [
    | none ↦ some none
    | some bytes ↦
        if ltb bsd_bbsize (k + length bytes) then none else some (some (splice k bytes buffer))
  ]

  -- The end of `bsd_write_bootstrap`, with the label's bytes `dl` put back.
  unfoldable pub store_bootstrap : ℕ → List ℕ → BsdState D → Option (BsdState D)
  store_bootstrap start dl s =
      if not (all_zero (label_part s.buffer))
      then none
      else (let area = splice label_at dl s.buffer in
          elim (position start) [
            | none ↦ none
            | some pos ↦ elim (v.write_at s.disk pos area) [
              | none ↦ none
              | some disk ↦ some (record s { disk = disk; buffer = area })
            ]
          ])

  -- `bsd_write_bootstrap()`
  unfoldable pub bsd_write_bootstrap : ℕ → BsdState D → Lines → Option (BsdState D × Lines)
  bsd_write_bootstrap start s ls =
      let d = s.dlabel in
      let (name, rest) = ask_basename d ls in
      let dir = codes "/usr/ucb/mdec/" in
      elim (bsd_get_bootstrap (dir ++ (name ++ codes "boot")) 0 d.d_secsize s.disk s.buffer) [
        | none ↦ none
        | some none ↦ some (s, rest)
        | some (some first) ↦
            let bare = splice label_at (zeros label_size) first in
            elim (bsd_get_bootstrap (dir ++ (codes "boot" ++ name)) d.d_secsize
              (sub32 d.d_bbsize d.d_secsize) s.disk bare) [
                | none ↦ none
                | some none ↦ some (record s { buffer = bare }, rest)
                | some (some whole) ↦
                    elim (store_bootstrap start (label_part first) (record s { buffer = whole })) [
                      | none ↦ none
                      | some u ↦ some (u, rest)
                    ]
              ]
      ]
