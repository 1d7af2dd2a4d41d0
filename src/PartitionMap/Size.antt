-- ===== src/PartitionMap/Size.antt =====
-- `compute_device_size`: the number of blocks of a device, found by reading.
pub mod Search
use mac_fdisk.Base.{
  ℕ, zero, suc, ◌+◌, ◌-◌, ◌*◌, ◌/◌, ◌^◌, Bool, true, false, Option, none, some, leb, ltb,
  if◌then◌else◌,
}

-- `x + 1` after a valid last probe, `x` after an invalid one.
abbrev pub probe_value : ℕ × Bool → ℕ
probe_value (x, valid) = if valid then x + 1 else x

-- The block to try after block `r` was read.
unfoldable pub next_try : ℕ → ℕ
next_try r = if leb r 1024 then r * 1024 else r * 2

-- `readable i` is `read_block(fd, i, data, 1) != 0`.
module _ (readable : ℕ → Bool) where
  -- Doubling till off the end, on fuel: the last block that was read, and the next to try.
  unfoldable pub grow : ℕ → ℕ → ℕ → Option (ℕ × ℕ)
  grow zero l r = none
  grow (suc fuel) l r = elim (readable r) [
    | false ↦ some (l, r)
    | true ↦ elim (leb (1024 * 1024 * 1024) (next_try r)) [
      | true ↦ some (r, next_try r)
      | false ↦ grow fuel r (next_try r)
    ]
  ]

  -- The binary search, on fuel, with the last probe.
  unfoldable pub bisect : ℕ → ℕ → ℕ → ℕ × Bool → Option (ℕ × Bool)
  bisect zero l r last = none
  bisect (suc fuel) l r last = elim (leb l r) [
    | false ↦ some last
    | true ↦ elim (readable ((l + r) / 2)) [
      | true ↦ bisect fuel ((l + r) / 2 + 1) r ((l + r) / 2, true)
      | false ↦ elim (ltb 0 ((l + r) / 2)) [
        | true ↦ bisect fuel l ((l + r) / 2 - 1) ((l + r) / 2, false)
        | false ↦ some ((l + r) / 2, false)
      ]
    ]
  ]

  -- `allocated` says whether the buffer could be allocated. The first probe of the search is
  -- always made, so the values that it starts with are not read.
  unfoldable pub compute_device_size : Bool → Option ℕ
  unfolding grow bisect next_try
  compute_device_size allocated =
      if allocated
      then elim (grow 11 0 1024) [
        | none ↦ none
        | some (l, r) ↦ elim (bisect 32 l r (0, false)) [
          | none ↦ none
          | some last ↦ some (probe_value last)
        ]
      ]
      else some 0
