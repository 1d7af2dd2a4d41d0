-- ===== src/Examples/Labels.antt =====
-- A disk as a function, and a new BSD label on it.
use mac_fdisk.Base.{
  ℕ, zero, suc, ◌+◌, ◌-◌, ◌*◌, ◌%◌, ◌^◌, ◌≡◌, ◌≤◌, ◌<◌, refl, sym, ap, ◌∙◌, arith, true, false,
  Option, none, some, List, [], ◌∷◌, ◌&&◌, leb, ltb, if◌then◌else◌, length, get_or, set,
}
use mac_fdisk.Base.Word.{add32, sub32}
use mac_fdisk.Base.Strings.{codes}
use mac_fdisk.Fdisk.Entry.{Partition, filled}
use mac_fdisk.Fdisk.Input.{Lines}
use mac_fdisk.Disklabel.{Disklabel, take, bsd_dkcksum, label_words, xor_words}
use mac_fdisk.Disklabel.Words.Back.{IsLaidOut}
use mac_fdisk.Disklabel.Area.{
  Volume, BsdState, drop, sealed, cut_off, has_magic, bsd_initlabel, bsd_readlabel, bsd_writelabel,
}
use mac_fdisk.Disklabel.Area.Back.{IsReliable, bsd_readlabel-bsd_writelabel}
use mac_fdisk.Disklabel.Area.Sealed.{bsd_dkcksum-sealed}
use mac_fdisk.Disklabel.Edit.{bsd_edit_disklabel}
use mac_fdisk.Disklabel.Edit.Drive.{bsd_edit_disklabel-ends}
use mac_fdisk.Disklabel.{no_partition}
use mac_fdisk.Disklabel.Edit.{bsd_delete_part, bsd_get_part_index, removed, last_used}
use mac_fdisk.Disklabel.Valid.{IsValid, size_at}
use mac_fdisk.Disklabel.Select.{After, bsd_round, bsd_command, here, round}
use mac_fdisk.Disklabel.Select.Kept.{Rounds-IsValid}
use mac_fdisk.Fdisk.Input.{read_char, skip_blanks}
use mac_fdisk.Examples.Chains.{disk}
use mac_fdisk.Examples.Moving.{before}

abbrev Memory : Type 0
Memory = ℕ → ℕ

unfoldable span : Memory → ℕ → ℕ → List ℕ
span f pos zero = []
span f pos (suc n) = f pos ∷ span f (suc pos) n

unfoldable overwritten : Memory → ℕ → List ℕ → Memory
overwritten f pos bytes k =
    if leb pos k && ltb k (pos + length bytes) then get_or bytes (k - pos) 0 else f k

abbrev memory : Volume Memory
unfolding span overwritten
memory = record {
  read_at = λ f pos n. some (span f pos n);
  write_at = λ f pos bytes. some (overwritten f pos bytes);
  read_file = λ f path size. none;
  get_geo = λ f. some (16, 63, 800);
}

drop-span : (f : Memory) (pos k n : ℕ) → drop k (span f pos (k + n)) ≡ span f (pos + k) n
unfolding span
drop-span f pos zero n =
    let a : 0 + n ≡ n = omega arith in let b : pos + 0 ≡ pos = omega arith in rw (a, b) refl
drop-span f pos (suc k) n =
    let a : suc k + n ≡ suc (k + n) = omega arith in
    let b : pos + suc k ≡ suc pos + k = omega arith in rw (a, b) (drop-span f (suc pos) k n)

-- A stretch that holds given bytes.
take-span :
    (f : Memory) (pos n : ℕ) (bytes : List ℕ)
    → length bytes ≤ n
    → ((i : ℕ) → i < length bytes → f (pos + i) ≡ get_or bytes i 0)
    → take (length bytes) (span f pos n) ≡ bytes
unfolding span
take-span f pos n [] room holds = refl
take-span f pos zero (b ∷ bytes) room holds = absurd (omega arith)
take-span f pos (suc n) (b ∷ bytes) room holds =
    let at : pos + 0 ≡ pos = omega arith in
    let first : f pos ≡ b = ap f (sym at) ∙ holds 0 (omega arith) in
    let rest =
      take-span f (suc pos) n bytes (omega arith)
        (λ i h. ap f (omega arith) ∙ holds (suc i) (omega arith)) in
    rw (first, rest) refl

memory_or : Memory → Option Memory → Memory
memory_or f none = f
memory_or f (some g) = g

overwritten-within :
    (f : Memory) (pos i : ℕ) (bytes : List ℕ)
    → i < length bytes
    → overwritten f pos bytes (pos + i) ≡ get_or bytes i 0
unfolding overwritten
overwritten-within f pos i bytes h =
    let test : (leb pos (pos + i) && ltb (pos + i) (pos + length bytes)) ≡ true = ground arith in
    let place : pos + i - pos ≡ i = omega arith in rw (test, place) refl

memory-read_back :
    (d e : Memory) (pos base n : ℕ) (bytes : List ℕ)
    → some (overwritten d pos bytes) ≡ some e
    → base ≤ pos
    → pos + length bytes ≤ base + n
    → (r : List ℕ) × (some (span e base n) ≡ some r)
      × (take (length bytes) (drop (pos - base) r) ≡ bytes)
unfolding memory_or
memory-read_back d e pos base n bytes wrote above inside =
    let k = pos - base in
    let m = n - k in
    let is : e ≡ overwritten d pos bytes = sym (ap (memory_or d) wrote) in
    let cut : drop k (span e base n) ≡ span e pos m =
      ap (λ (j : ℕ). drop k (span e base j)) (omega arith)
      ∙ drop-span e base k m
      ∙ ap (λ (j : ℕ). span e j m) (omega arith) in
    let holds : (i : ℕ) → i < length bytes → e (pos + i) ≡ get_or bytes i 0 =
      λ i h. ap (λ (f : Memory). f (pos + i)) is ∙ overwritten-within d pos i bytes h in
    (
      span e base n,
      refl,
      ap (take (length bytes)) cut ∙ take-span e pos m bytes (omega arith) holds,
    )

memory-IsReliable : IsReliable memory (2 ^ 31)
unfolding memory
memory-IsReliable = record {
  written = λ d pos bytes room. (overwritten d pos bytes, refl);
  read_back = λ d e pos base n bytes wrote above inside small.
      memory-read_back d e pos base n bytes wrote above inside;
}

-- A NetBSD partition of 20000 sectors from sector 63 on.
netbsd : Partition
unfolding filled
netbsd = filled disk false 63 20062 0xa5 0

abbrev blank : BsdState Memory
blank = record {
  disk = λ k. 0;
  buffer = [];
  dlabel = record {
    d_magic = 0;
    d_type = 0;
    d_subtype = 0;
    d_typename = [];
    d_packname = [];
    d_secsize = 0;
    d_nsectors = 0;
    d_ntracks = 0;
    d_ncylinders = 0;
    d_secpercyl = 0;
    d_secperunit = 0;
    d_sparespertrack = 0;
    d_sparespercyl = 0;
    d_acylinders = 0;
    d_rpm = 0;
    d_interleave = 0;
    d_trackskew = 0;
    d_cylskew = 0;
    d_headswitch = 0;
    d_trkseek = 0;
    d_flags = 0;
    d_drivedata = [];
    d_spare = [];
    d_magic2 = 0;
    d_checksum = 0;
    d_npartitions = 0;
    d_bbsize = 0;
    d_sbsize = 0;
    d_partitions = [];
  };
}

unfoldable fresh : BsdState Memory
unfolding bsd_initlabel netbsd memory
fresh = (bsd_initlabel memory (codes "/dev/hda") netbsd blank).0

fresh-IsLaidOut : IsLaidOut fresh.dlabel
unfolding fresh memory
fresh-IsLaidOut = record {
  typename = refl;
  packname = refl;
  drivedata = refl;
  spare = refl;
  partitions = refl;
  types = omega arith;
}

bsd_readlabel-bsd_writelabel_example :
    (t u : BsdState Memory) × (bsd_writelabel memory 63 fresh ≡ some t)
    × (bsd_readlabel memory 63 t ≡ some (u, true))
    × (u.dlabel ≡ cut_off t.dlabel)
    × (u.dlabel ≡ cut_off (record fresh.dlabel { d_checksum = t.dlabel.d_checksum }))
unfolding fresh has_magic memory
bsd_readlabel-bsd_writelabel_example =
    bsd_readlabel-bsd_writelabel memory (2 ^ 31) memory-IsReliable 63 fresh fresh-IsLaidOut refl
      (omega arith) (omega arith) (omega arith)

-- The new label with its checksum.
unfoldable stored_label : Disklabel
unfolding fresh
stored_label = record fresh.dlabel { d_checksum = 17107 }

checksummed : sealed fresh.dlabel ≡ some stored_label
unfolding fresh sealed bsd_dkcksum label_words xor_words stored_label memory add32 sub32
checksummed = refl

bsd_dkcksum-sealed_example : (fresh.dlabel.d_npartitions ≤ 8) × (bsd_dkcksum stored_label ≡ some 0)
bsd_dkcksum-sealed_example = bsd_dkcksum-sealed fresh.dlabel stored_label checksummed

-- More sectors than a cylinder's tracks hold, then fewer; the rest of the questions gets blank lines.
abbrev typed : Lines
typed = codes "2000" ∷ codes "1000" ∷ codes "5400" ∷ []

bsd_edit_disklabel-ends_example :
    (e : Disklabel) × (rest : Lines) × (bsd_edit_disklabel fresh.dlabel typed ≡ some (e, rest))
    × (e.d_secpercyl ≤ e.d_nsectors * e.d_ntracks % 2 ^ 32)
    × (e.d_secperunit ≡ e.d_secpercyl * e.d_ncylinders % 2 ^ 32)
    × (e.d_nsectors ≡ fresh.dlabel.d_nsectors)
    × (e.d_ntracks ≡ fresh.dlabel.d_ntracks)
    × (e.d_ncylinders ≡ fresh.dlabel.d_ncylinders)
    × (e.d_npartitions ≡ fresh.dlabel.d_npartitions)
    × (e.d_partitions ≡ fresh.dlabel.d_partitions)
bsd_edit_disklabel-ends_example = bsd_edit_disklabel-ends fresh.dlabel typed

-- The last partition of the new label is deleted.
abbrev removed_label : Disklabel
removed_label = record fresh.dlabel {
  d_npartitions = 3;
  d_partitions = set fresh.dlabel.d_partitions 3 no_partition;
}

abbrev commands : Lines
commands = codes "d" ∷ codes "D" ∷ codes "p" ∷ []

abbrev remaining : Lines
remaining = codes "p" ∷ []

deleted :
    bsd_round memory (codes "/dev/hda") before netbsd fresh commands
    ≡ some (record fresh { dlabel = removed_label }, After.next_command, remaining)
unfolding bsd_round bsd_command bsd_delete_part bsd_get_part_index removed last_used read_char
    skip_blanks fresh memory add32 sub32
deleted = refl

fresh_beyond : (i : ℕ) → 4 ≤ i → size_at fresh.dlabel.d_partitions i ≡ 0
unfolding fresh memory
fresh_beyond zero h = absurd (omega arith)
fresh_beyond (suc zero) h = absurd (omega arith)
fresh_beyond (suc (suc zero)) h = absurd (omega arith)
fresh_beyond (suc (suc (suc zero))) h = absurd (omega arith)
fresh_beyond (suc (suc (suc (suc zero)))) h = refl
fresh_beyond (suc (suc (suc (suc (suc zero))))) h = refl
fresh_beyond (suc (suc (suc (suc (suc (suc zero)))))) h = refl
fresh_beyond (suc (suc (suc (suc (suc (suc (suc zero))))))) h = refl
fresh_beyond (suc (suc (suc (suc (suc (suc (suc (suc i)))))))) h = refl

fresh-IsValid : IsValid fresh.dlabel
unfolding fresh memory has_magic
fresh-IsValid = record {
  laid = fresh-IsLaidOut;
  magic = refl;
  few = omega arith;
  beyond = fresh_beyond;
}

Rounds-IsValid_example : IsValid removed_label
Rounds-IsValid_example =
    Rounds-IsValid memory (codes "/dev/hda") before netbsd {s = fresh} {ls = commands}
      {u = record fresh { dlabel = removed_label }} {ms = remaining} fresh-IsValid
      (round here deleted)
