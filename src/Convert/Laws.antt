-- ===== src/Convert/Laws.antt =====
-- Round trips of the byte-order conversion.
use mac_fdisk.Base.{
  ℕ, zero, suc, ◌≤◌, ◌<◌, ◌^◌, ◌≡◌, ◌≢◌, refl, ap, ◌∙◌, arith, true, false, none, some, List, [],
  ◌∷◌, length, All,
}
use mac_fdisk.Dpme.{
  Dpme, Bzb, Block0, DdMap, block0_signature, bzb_magic_number, IsBzb, IsDpme, IsDdMap, IsBlock0,
}
use mac_fdisk.Convert.{
  ByteOrder, reverse2, reverse4, reverse_bzb, convert_bzb, reverse_fields, convert_dpme,
  reverse_dd_map, reverse_drivers, reverse_block0, convert_block0,
}

pub reverse2-reverse2 : (x : ℕ) → x < 2 ^ 16 → reverse2 (reverse2 x) ≡ x
unfolding reverse2
reverse2-reverse2 x h = omega arith

pub reverse4-reverse4 : (x : ℕ) → x < 2 ^ 32 → reverse4 (reverse4 x) ≡ x
unfolding reverse4
reverse4-reverse4 x h = omega arith

reverse2-lt : (x : ℕ) → reverse2 x < 2 ^ 16
unfolding reverse2
reverse2-lt x = omega arith

reverse4-lt : (x : ℕ) → reverse4 x < 2 ^ 32
unfolding reverse4
reverse4-lt x = omega arith

reverse4_magic : reverse4 bzb_magic_number ≢ bzb_magic_number
unfolding reverse4
reverse4_magic = omega arith

reverse_bzb-reverse_bzb : (b : Bzb) → IsBzb b → reverse_bzb (reverse_bzb b) ≡ b
unfolding reverse_bzb
reverse_bzb-reverse_bzb b h = ground (
  arith,
  reverse2-reverse2 b.bzb_inode,
  reverse4-reverse4 b.bzb_flags,
  reverse4-reverse4 b.bzb_tmade,
  reverse4-reverse4 b.bzb_tmount,
  reverse4-reverse4 b.bzb_tumount,
)

convert_bzb_settled :
    (b : Bzb)
    → IsBzb b
    → convert_bzb true (convert_bzb false (convert_bzb true b)) ≡ convert_bzb true b
unfolding convert_bzb reverse_bzb
convert_bzb_settled b h = ground (
  arith,
  reverse2-reverse2 b.bzb_inode,
  reverse4-reverse4 b.bzb_flags,
  reverse4-reverse4 b.bzb_tmade,
  reverse4-reverse4 b.bzb_tmount,
  reverse4-reverse4 b.bzb_tumount,
  reverse4-reverse4 b.bzb_magic,
  reverse4-reverse4 (reverse4 b.bzb_magic),
  reverse4_magic,
  reverse4-lt b.bzb_magic,
)

convert_bzb_restores :
    (b : Bzb)
    → IsBzb b
    → b.bzb_magic ≢ bzb_magic_number
    → convert_bzb false (convert_bzb true b) ≡ b
unfolding convert_bzb reverse_bzb
convert_bzb_restores b h raw = ground (
  arith,
  reverse2-reverse2 b.bzb_inode,
  reverse4-reverse4 b.bzb_flags,
  reverse4-reverse4 b.bzb_tmade,
  reverse4-reverse4 b.bzb_tmount,
  reverse4-reverse4 b.bzb_tumount,
  reverse4-reverse4 b.bzb_magic,
)

reverse_fields_twice :
    (d : Dpme) (b : Bzb)
    → IsDpme d
    → reverse_fields (record (reverse_fields d) { bzb = b }) ≡ record d { bzb = b }
unfolding reverse_fields
reverse_fields_twice d b h = ground (
  arith,
  reverse2-reverse2 d.signature,
  reverse2-reverse2 d.reserved_1,
  reverse4-reverse4 d.map_entries,
  reverse4-reverse4 d.pblock_start,
  reverse4-reverse4 d.pblocks,
  reverse4-reverse4 d.lblock_start,
  reverse4-reverse4 d.lblocks,
  reverse4-reverse4 d.flags,
  reverse4-reverse4 d.boot_block,
  reverse4-reverse4 d.boot_bytes,
  reverse4-reverse4 d.load_addr,
  reverse4-reverse4 d.load_addr_2,
  reverse4-reverse4 d.goto_addr,
  reverse4-reverse4 d.goto_addr_2,
  reverse4-reverse4 d.checksum,
)

-- An entry whose fields fit their types, read from the disk and written back, is the same on the
-- disk, on either byte order, unless its A/UX block already held the magic number in the CPU's
-- order.
pub convert_dpme_restores :
    (order : ByteOrder) (d : Dpme)
    → IsDpme d
    → d.bzb.bzb_magic ≢ bzb_magic_number
    → convert_dpme order false (convert_dpme order true d) ≡ d
unfolding convert_dpme
convert_dpme_restores ByteOrder.big_endian d h raw = refl
convert_dpme_restores ByteOrder.little_endian d h raw =
    ap (λ (t : Dpme). record t { bzb = convert_bzb false (convert_bzb true d.bzb) })
      (reverse_fields_twice d (convert_bzb true d.bzb) h)
    ∙ ap (λ (b : Bzb). record d { bzb = b }) (convert_bzb_restores d.bzb h.bzb raw)

-- Once read, an entry whose fields fit their types is unchanged in memory by turning it to the disk's form and back, on either
-- byte order and whatever its A/UX block holds.
pub convert_dpme_settled :
    (order : ByteOrder) (d : Dpme)
    → IsDpme d
    → convert_dpme order true (convert_dpme order false (convert_dpme order true d))
      ≡ convert_dpme order true d
unfolding convert_dpme reverse_fields
convert_dpme_settled ByteOrder.big_endian d h = refl
convert_dpme_settled ByteOrder.little_endian d h =
    let b = convert_bzb true d.bzb in
    let c = convert_bzb false b in
    ap (λ (t : Dpme). record (reverse_fields (record t { bzb = c })) { bzb = convert_bzb true c })
      (reverse_fields_twice d b h)
    ∙ ap (λ (b' : Bzb). record (reverse_fields d) { bzb = b' }) (convert_bzb_settled d.bzb h.bzb)

reverse_drivers-none : (n : ℕ) (ms : List DdMap) → length ms < n → reverse_drivers n ms ≡ none
unfolding reverse_drivers
reverse_drivers-none zero ms h = elim h [ ]
reverse_drivers-none (suc n) [] h = refl
reverse_drivers-none (suc n) (m ∷ ms) h = rw (reverse_drivers-none n ms (omega arith))

-- The driver loop within the array succeeds, and a second run undoes it.
reverse_drivers_twice :
    (n : ℕ) (ms : List DdMap)
    → n ≤ length ms
    → All IsDdMap ms
    → (out : List DdMap) × (reverse_drivers n ms ≡ some out) × (reverse_drivers n out ≡ some ms)
unfolding reverse_drivers reverse_dd_map
reverse_drivers_twice zero ms h w = (ms, refl, refl)
reverse_drivers_twice (suc n) [] h w = absurd (omega arith)
reverse_drivers_twice (suc n) (m ∷ ms) h w =
    let (out, there, back) = reverse_drivers_twice n ms (omega arith) w.1 in
    (
      reverse_dd_map m ∷ out,
      rw there,
      rw back (
          ground (
            arith,
            reverse4-reverse4 m.dd_block,
            reverse2-reverse2 m.dd_size,
            reverse2-reverse2 m.dd_type,
          )),
    )

module _ (b : Block0) (h : IsBlock0 b) where
  -- Swapping the header twice, with the count taken in the CPU's form both times. The signature
  -- is swapped by the caller.
  reverse_block0_twice :
      reverse2 b.sb_drvr_count ≤ 61
      → (c : Block0) × ((s : ℕ)
          → reverse_block0 true (record b { sb_sig = s }) ≡ some (record c { sb_sig = s }))
        × ((s : ℕ)
            → reverse_block0 false (record c { sb_sig = s }) ≡ some (record b { sb_sig = s }))
  unfolding reverse_block0
  reverse_block0_twice few =
      let (out, there, back) =
        reverse_drivers_twice (reverse2 b.sb_drvr_count) b.sb_map (rw h.slots few) h.drivers in
      (
        record {
          sb_sig = b.sb_sig;
          sb_blk_size = reverse2 b.sb_blk_size;
          sb_blk_count = reverse4 b.sb_blk_count;
          sb_dev_type = reverse2 b.sb_dev_type;
          sb_dev_id = reverse2 b.sb_dev_id;
          sb_data = reverse4 b.sb_data;
          sb_drvr_count = reverse2 b.sb_drvr_count;
          sb_map = out;
          sb_tail = b.sb_tail;
        },
        λ s. rw (there, reverse_block0),
        λ s.
            rw (back, reverse_block0)
              (ground (
                arith,
                reverse2-reverse2 b.sb_blk_size,
                reverse4-reverse4 b.sb_blk_count,
                reverse2-reverse2 b.sb_dev_type,
                reverse2-reverse2 b.sb_dev_id,
                reverse4-reverse4 b.sb_data,
                reverse2-reverse2 b.sb_drvr_count,
              )),
      )

  reverse_block0_overrun :
      (s : ℕ) → 61 < reverse2 b.sb_drvr_count → reverse_block0 true (record b { sb_sig = s }) ≡ none
  unfolding reverse_block0
  reverse_block0_overrun s many =
      rw
        (reverse_drivers-none (reverse2 b.sb_drvr_count) b.sb_map (rw h.slots many), reverse_block0)

-- A block zero with the signature on the disk and at most 61 drivers, on a little-endian CPU: it is
-- converted, and converting back gives the bytes of the disk.
pub convert_block0_restores :
    (b : Block0) (h : IsBlock0 b)
    → reverse2 b.sb_sig ≡ block0_signature
    → reverse2 b.sb_drvr_count ≤ 61
    → (c : Block0) × (convert_block0 ByteOrder.little_endian true b ≡ some c)
      × (convert_block0 ByteOrder.little_endian false c ≡ some b)
unfolding convert_block0
convert_block0_restores b h signed few =
    let (c, there, back) = reverse_block0_twice b h few in
    (
      record c { sb_sig = reverse2 b.sb_sig },
      ground (arith, there (reverse2 b.sb_sig)),
      ground (arith, back (reverse2 (reverse2 b.sb_sig)), reverse2-reverse2 b.sb_sig),
    )

-- A block zero with the signature on the disk that counts more than 61 drivers, on a little-endian
-- CPU: the driver loop runs out of the block's buffer.
pub convert_block0_overruns :
    (b : Block0) (h : IsBlock0 b)
    → reverse2 b.sb_sig ≡ block0_signature
    → 61 < reverse2 b.sb_drvr_count
    → convert_block0 ByteOrder.little_endian true b ≡ none
unfolding convert_block0
convert_block0_overruns b h signed many =
    ground (arith, reverse_block0_overrun b h (reverse2 b.sb_sig))
