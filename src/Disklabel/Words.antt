-- ===== src/Disklabel/Words.antt =====
-- The label that words in memory stand for.
pub mod Back
use mac_fdisk.Base.{ℕ, zero, suc, ◌+◌, ◌*◌, ◌/◌, ◌%◌, ◌^◌, Option, none, some, List, [], ◌∷◌}
use mac_fdisk.Base.Run.{Run, pure, ◌>>=◌}
use mac_fdisk.Disklabel.{Disklabel, BsdPartition, bsd_maxpartitions}

unfoldable pub joined : ℕ → ℕ → ℕ
joined lo hi = lo + 2 ^ 16 * hi

unfoldable pub word : Run (List ℕ) ℕ
word [] = none
word (w ∷ l) = some (w, l)

unfoldable pub long : Run (List ℕ) ℕ
unfolding joined
long (lo ∷ hi ∷ l) = some (joined lo hi, l)
long (lo ∷ []) = none
long [] = none

unfoldable pub words : ℕ → Run (List ℕ) (List ℕ)
unfolding word
words zero = pure []
words (suc n) = do w ← word; rest ← words n; pure (w ∷ rest)

unfoldable pub longs : ℕ → Run (List ℕ) (List ℕ)
unfolding long
longs zero = pure []
longs (suc n) = do w ← long; rest ← longs n; pure (w ∷ rest)

unfoldable pub partitions_of : ℕ → Run (List ℕ) (List BsdPartition)
unfolding word long
partitions_of zero = pure []
partitions_of (suc n) = do
  size ← long
  offset ← long
  fsize ← long
  kind ← word
  cpg ← word
  rest ← partitions_of n
  pure (
      record {
        p_size = size;
        p_offset = offset;
        p_fsize = fsize;
        p_fstype = kind % 256;
        p_frag = kind / 256;
        p_cpg = cpg;
      }
      ∷ rest)

unfoldable pub label_of : Run (List ℕ) Disklabel
unfolding word long words longs partitions_of
label_of = do
  magic ← long
  type ← word
  subtype ← word
  typename ← words 8
  packname ← words 8
  secsize ← long
  nsectors ← long
  ntracks ← long
  ncylinders ← long
  secpercyl ← long
  secperunit ← long
  sparespertrack ← word
  sparespercyl ← word
  acylinders ← long
  rpm ← word
  interleave ← word
  trackskew ← word
  cylskew ← word
  headswitch ← long
  trkseek ← long
  flags ← long
  drivedata ← longs 5
  spare ← longs 5
  magic2 ← long
  checksum ← word
  npartitions ← word
  bbsize ← long
  sbsize ← long
  partitions ← partitions_of bsd_maxpartitions
  pure (record {
    d_magic = magic;
    d_type = type;
    d_subtype = subtype;
    d_typename = typename;
    d_packname = packname;
    d_secsize = secsize;
    d_nsectors = nsectors;
    d_ntracks = ntracks;
    d_ncylinders = ncylinders;
    d_secpercyl = secpercyl;
    d_secperunit = secperunit;
    d_sparespertrack = sparespertrack;
    d_sparespercyl = sparespercyl;
    d_acylinders = acylinders;
    d_rpm = rpm;
    d_interleave = interleave;
    d_trackskew = trackskew;
    d_cylskew = cylskew;
    d_headswitch = headswitch;
    d_trkseek = trkseek;
    d_flags = flags;
    d_drivedata = drivedata;
    d_spare = spare;
    d_magic2 = magic2;
    d_checksum = checksum;
    d_npartitions = npartitions;
    d_bbsize = bbsize;
    d_sbsize = sbsize;
    d_partitions = partitions;
  })
