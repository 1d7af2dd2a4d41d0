-- ===== src/Fdisk/Overlap.antt =====
-- What the test for overlapping partitions finds.
use mac_fdisk.Base.{ℕ, ◌≡◌, ◌≤◌, ◌<◌, ◌⊎◌, ◌↔◌, arith, false}
use mac_fdisk.Fdisk.{overlaps}

-- For two partitions that are not empty: `verify` says nothing about them exactly where they have no
-- sector in common, or where the later one of the table reaches beyond the earlier one at both ends.
pub overlaps_iff :
    (first_i last_i first_j last_j : ℕ)
    → first_i ≤ last_i
    → first_j ≤ last_j
    → (overlaps first_i last_i first_j last_j ≡ false)
      ↔ (((last_i < first_j) ⊎ (last_j < first_i)) ⊎ ((first_i < first_j) × (last_j < last_i)))
unfolding overlaps
overlaps_iff first_i last_i first_j last_j p q = ground arith
