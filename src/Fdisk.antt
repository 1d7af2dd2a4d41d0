-- ===== src/Fdisk.antt =====
-- fdisk.c: sector numbers against cylinders, heads and sectors, and other parts that only compute. An
-- `unsigned char` is cut to eight bits where it is stored.
pub mod Types
pub mod Sectors
pub mod Rounding
pub mod Overlap
pub mod Entry
pub mod Table
pub mod Input
pub mod Placing
pub mod Adding
pub mod Verify
pub mod Moving
pub mod Asking
pub mod Reading
pub mod Summing
pub mod Menu
use Prim.Native.Nat.{bit_and, bit_or}
use mac_fdisk.Base.{
  ℕ, zero, suc, ◌+◌, ◌-◌, ◌*◌, ◌/◌, ◌%◌, ◌^◌, Bool, true, false, ◌&&◌, ◌||◌, Option, none, some,
  List, [], ◌∷◌, ◌==◌, leb, ltb, if◌then◌else◌,
}
use mac_fdisk.Base.Word.{add32, sub32}

-- The disk's geometry, with the globals that are derived from it.
pub record Geometry : Type 0 where
  pub heads : ℕ
  pub sectors : ℕ
  pub cylinders : ℕ
  pub full_bits : ℕ
  pub unit_flag : Bool
  pub display_factor : ℕ

-- `sector(s)` and `cylinder(s, c)`
unfoldable pub sector : ℕ → ℕ
sector s = bit_and s 0x3f

unfoldable pub cylinder : ℕ → ℕ → ℕ
cylinder s c = bit_or c (bit_and s 0xc0 * 4)

-- Head, sector byte and cylinder byte of an entry.
pub record Hsc : Type 0 where
  pub head : ℕ
  pub sector_byte : ℕ
  pub cyl : ℕ

-- `calculate(h, s, c)`, an unsigned number: a sector 0 of a track wraps.
unfoldable pub calculate : Geometry → Hsc → ℕ
unfolding sector cylinder
calculate g p =
    (sector p.sector_byte
      + (2 ^ 32 - 1)
      + g.sectors * (p.head + g.heads * cylinder p.sector_byte p.cyl))
    % 2 ^ 32

-- `set_hsc(h, s, c, sector)`; the sector byte is stored twice.
unfoldable pub set_hsc : Geometry → ℕ → Hsc
set_hsc g x =
    let track = x / g.sectors in
    let cyls = track / g.heads in
    record {
      head = track % g.heads % 256;
      sector_byte = bit_or ((x % g.sectors + 1) % 256) (bit_and (cyls / 4) 0xc0);
      cyl = bit_and cyls 0xff;
    }

-- `long2chs(ls, c, h, s)`
unfoldable pub long2chs : Geometry → ℕ → ℕ × (ℕ × ℕ)
long2chs g ls =
    let spc = g.heads * g.sectors % 2 ^ 32 in
    (ls / spc, (ls % spc / g.sectors, ls % spc % g.sectors + 1))

-- The loop of `rounded`, on fuel.
unfoldable pub round_up : ℕ → ℕ → ℕ → ℕ → Option ℕ
round_up zero full calcul start = none
round_up (suc fuel) full calcul start = elim (leb (add32 calcul full) start) [
  | true ↦ round_up fuel full (add32 calcul full) start
  | false ↦ some calcul
]

-- `rounded(calcul, start)`
unfoldable pub rounded : Geometry → ℕ → ℕ → Option ℕ
unfolding round_up
rounded g calcul start =
    if g.full_bits == 0 then some calcul else round_up (suc start) g.full_bits calcul start

-- `update_units()`
unfoldable pub update_units : Geometry → Geometry
update_units g =
    let full = 1024 * g.heads * g.sectors % 2 ^ 32 in
    record g {
      full_bits = full;
      display_factor = if g.unit_flag && ltb 0 full then full / 1024 else 1;
    }

-- `warn_geometry()`, which says whether something is not set.
unfoldable pub warn_geometry : Geometry → Bool
warn_geometry g = (g.heads == 0) || ((g.sectors == 0) || (g.cylinders == 0))

-- The test of `verify` for two partitions, of which the second one comes first in the table.
unfoldable pub overlaps : ℕ → ℕ → ℕ → ℕ → Bool
overlaps first_i last_i first_j last_j =
    (leb first_j first_i && leb first_i last_j) || (leb last_i last_j && leb first_j last_i)
