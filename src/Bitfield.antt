-- ===== src/Bitfield.antt =====
-- bitfield.c: the mask table, `bitfield_set` and `bitfield_get`, over a 32-bit `unsigned long`.
-- The flags of dpme.h are read and written through these two routines only.
pub mod Bits
pub mod Laws
pub mod Xor
use mac_fdisk.Base.{ℕ, ◌+◌, ◌-◌, ◌*◌, ◌/◌, ◌%◌, ◌^◌, List, [], ◌∷◌, get_or}
use Prim.Native.Nat.{bit_and, bit_or}

abbrev pub masks : List ℕ
masks =
    0x00000000 ∷ 0x00000001 ∷ 0x00000003 ∷ 0x00000007 ∷ 0x0000000F ∷ 0x0000001F ∷ 0x0000003F
    ∷ 0x0000007F ∷ 0x000000FF ∷ 0x000001FF ∷ 0x000003FF ∷ 0x000007FF ∷ 0x00000FFF ∷ 0x00001FFF
    ∷ 0x00003FFF ∷ 0x00007FFF ∷ 0x0000FFFF ∷ 0x0001FFFF ∷ 0x0003FFFF ∷ 0x0007FFFF ∷ 0x000FFFFF
    ∷ 0x001FFFFF ∷ 0x003FFFFF ∷ 0x007FFFFF ∷ 0x00FFFFFF ∷ 0x01FFFFFF ∷ 0x03FFFFFF ∷ 0x07FFFFFF
    ∷ 0x0FFFFFFF ∷ 0x1FFFFFFF ∷ 0x3FFFFFFF ∷ 0x7FFFFFFF ∷ 0xFFFFFFFF ∷ []

-- `m << s` on 32 bits.
unfoldable pub shl32 : ℕ → ℕ → ℕ
shl32 m s = m * 2 ^ s % 2 ^ 32

-- `~m` on 32 bits.
unfoldable pub not32 : ℕ → ℕ
not32 m = 2 ^ 32 - 1 - m

-- The new value of `*bf`.
unfoldable pub bitfield_set : ℕ → ℕ → ℕ → ℕ → ℕ
bitfield_set bf base length value =
    let s = base + 1 - length in
    let m = get_or masks length 0 in
    let t = bit_and value m in bit_or (bit_and bf (not32 (shl32 m s))) (shl32 t s)

unfoldable pub bitfield_get : ℕ → ℕ → ℕ → ℕ
bitfield_get bf base length =
    let s = base + 1 - length in let m = get_or masks length 0 in bit_and (bf / 2 ^ s) m
