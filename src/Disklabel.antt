-- ===== src/Disklabel.antt =====
-- fdisklabel.h: the BSD label of a partition, as it is compiled for an Intel CPU with a 32-bit
-- `unsigned long`, and its words in memory. Edit is what the commands change, Area the label on the disk,
-- Select the commands.
pub mod Words
pub mod Checksum
pub mod Valid
pub mod Edit
pub mod Area
pub mod Select
use Prim.Native.Nat.{bit_xor}
use mac_fdisk.Base.{
  ℕ, zero, suc, ◌+◌, ◌-◌, ◌*◌, ◌/◌, ◌%◌, ◌^◌, Bool, true, false, Option, none, some, List, [], ◌∷◌,
  ◌++◌, ◌==◌, ltb, if◌then◌else◌,
}

-- `struct bsd_partition`
pub record BsdPartition : Type 0 where
  pub p_size : ℕ
  pub p_offset : ℕ
  pub p_fsize : ℕ
  pub p_fstype : ℕ
  pub p_frag : ℕ
  pub p_cpg : ℕ

-- `struct disklabel`. The two names of 16 characters, which no command changes, are kept as eight words
-- each.
pub record Disklabel : Type 0 where
  pub d_magic : ℕ
  pub d_type : ℕ
  pub d_subtype : ℕ
  pub d_typename : List ℕ
  pub d_packname : List ℕ
  pub d_secsize : ℕ
  pub d_nsectors : ℕ
  pub d_ntracks : ℕ
  pub d_ncylinders : ℕ
  pub d_secpercyl : ℕ
  pub d_secperunit : ℕ
  pub d_sparespertrack : ℕ
  pub d_sparespercyl : ℕ
  pub d_acylinders : ℕ
  pub d_rpm : ℕ
  pub d_interleave : ℕ
  pub d_trackskew : ℕ
  pub d_cylskew : ℕ
  pub d_headswitch : ℕ
  pub d_trkseek : ℕ
  pub d_flags : ℕ
  pub d_drivedata : List ℕ
  pub d_spare : List ℕ
  pub d_magic2 : ℕ
  pub d_checksum : ℕ
  pub d_npartitions : ℕ
  pub d_bbsize : ℕ
  pub d_sbsize : ℕ
  pub d_partitions : List BsdPartition

abbrev pub bsd_diskmagic : ℕ
bsd_diskmagic = 0x82564557

abbrev pub bsd_maxpartitions : ℕ
bsd_maxpartitions = 8

abbrev pub bsd_labelsector : ℕ
bsd_labelsector = 1

abbrev pub bsd_labeloffset : ℕ
bsd_labeloffset = 0

abbrev pub bsd_bbsize : ℕ
bsd_bbsize = 8192

abbrev pub bsd_sbsize : ℕ
bsd_sbsize = 8192

abbrev pub bsd_dtype_scsi : ℕ
bsd_dtype_scsi = 4

abbrev pub bsd_dtype_st506 : ℕ
bsd_dtype_st506 = 6

abbrev pub bsd_d_dospart : ℕ
bsd_d_dospart = 0x20

abbrev pub bsd_fs_unused : ℕ
bsd_fs_unused = 0

abbrev pub bsd_fs_msdos : ℕ
bsd_fs_msdos = 8

abbrev pub bsd_fs_other : ℕ
bsd_fs_other = 10

abbrev pub bsd_fs_hpfs : ℕ
bsd_fs_hpfs = 11

abbrev pub no_partition : BsdPartition
no_partition = record { p_size = 0; p_offset = 0; p_fsize = 0; p_fstype = 0; p_frag = 0; p_cpg = 0 }

-- An `unsigned long` as two 16-bit words, the low one first.
abbrev pub long_words : ℕ → List ℕ → List ℕ
long_words x rest = x % 2 ^ 16 ∷ x / 2 ^ 16 ∷ rest

unfoldable pub longs_words : List ℕ → List ℕ → List ℕ
longs_words [] rest = rest
longs_words (x ∷ l) rest = long_words x (longs_words l rest)

unfoldable pub partition_words : List BsdPartition → List ℕ
partition_words [] = []
partition_words (p ∷ l) = long_words p.p_size (
    long_words p.p_offset
      (long_words p.p_fsize ((p.p_fstype + 256 * p.p_frag) ∷ p.p_cpg ∷ partition_words l)))

-- The words from `d_sparespertrack` up to the checksum.
abbrev pub middle_words : Disklabel → List ℕ → List ℕ
middle_words d rest =
    d.d_sparespertrack
    ∷ d.d_sparespercyl
    ∷ long_words d.d_acylinders (
        d.d_rpm
        ∷ d.d_interleave
        ∷ d.d_trackskew
        ∷ d.d_cylskew
        ∷ long_words d.d_headswitch (
            long_words d.d_trkseek (
              long_words d.d_flags
                (longs_words d.d_drivedata (longs_words d.d_spare (long_words d.d_magic2 rest))))))

-- The words in front of the checksum.
abbrev pub front_words : Disklabel → List ℕ → List ℕ
front_words d rest = long_words d.d_magic (
    d.d_type
    ∷ d.d_subtype
    ∷ (d.d_typename
        ++ (d.d_packname
            ++ long_words d.d_secsize (
                long_words d.d_nsectors (
                  long_words d.d_ntracks (
                    long_words d.d_ncylinders (
                      long_words d.d_secpercyl
                        (long_words d.d_secperunit (middle_words d rest)))))))))

-- A label with the first partitions of its table.
unfoldable pub label_words : Disklabel → List BsdPartition → List ℕ
unfolding longs_words partition_words
label_words d parts = front_words d (
    d.d_checksum
    ∷ d.d_npartitions
    ∷ long_words d.d_bbsize (long_words d.d_sbsize (partition_words parts)))

abbrev pub take {ℓ} : {A : Type ℓ} → ℕ → List A → List A
take zero l = []
take (suc n) [] = []
take (suc n) (x ∷ l) = x ∷ take n l

unfoldable pub xor_words : ℕ → List ℕ → ℕ
xor_words sum [] = sum
xor_words sum (w ∷ l) = xor_words (bit_xor sum w) l

-- `bsd_dkcksum(lp)`; with more than 8 partitions it reads behind the label.
unfoldable pub bsd_dkcksum : Disklabel → Option ℕ
bsd_dkcksum d =
    if ltb bsd_maxpartitions d.d_npartitions
    then none
    else some (xor_words 0 (label_words d (take d.d_npartitions d.d_partitions)))
