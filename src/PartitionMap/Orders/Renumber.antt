-- ===== src/PartitionMap/Orders/Renumber.antt =====
-- The addresses that `renumber_disk_addresses` gives.
use mac_fdisk.Base.{
  ℕ, suc, zero, ◌+◌, ◌≡◌, ◌≢◌, refl, ap, ap₂, ◌∙◌, List, [], ◌∷◌, map, length, All,
}
use mac_fdisk.PartitionMap.State.{PartitionMap, PartitionMapHeader, address_of, put}
use mac_fdisk.PartitionMap.Orders.{renumbered, renumber, renumber_disk_addresses}
use mac_fdisk.PartitionMap.Orders.Frame.{put_self, put_ne}

-- No name occurs twice.
abbrev pub Distinct : List ℕ → Type 0
Distinct [] = Unit {0}
Distinct (x ∷ l) = All (λ j. x ≢ j) l × Distinct l

-- `n` numbers from `index` on.
abbrev pub count_from : ℕ → ℕ → List ℕ
count_from index zero = []
count_from index (suc n) = index ∷ count_from (index + 1) n

renumber-ne :
    (n index j : ℕ) (l : List ℕ) (f : ℕ → PartitionMap)
    → All (λ i. j ≢ i) l
    → renumber n index l f j ≡ f j
unfolding renumber
renumber-ne n index j [] f h = refl
renumber-ne n index j (cur ∷ l) f h =
    renumber-ne n (index + 1) j l (put f cur (renumbered n index (f cur))) h.1
    ∙ put_ne f cur j (renumbered n index (f cur)) h.0

addresses_from :
    (n index : ℕ) (l : List ℕ) (f : ℕ → PartitionMap)
    → Distinct l
    → map (address_of (renumber n index l f)) l ≡ count_from index (length l)
unfolding renumber
addresses_from n index [] f h = refl
addresses_from n index (cur ∷ l) f h =
    let g = put f cur (renumbered n index (f cur)) in
    let first : address_of (renumber n (index + 1) l g) cur ≡ index =
      ap (λ (e : PartitionMap). e.disk_address)
        (renumber-ne n (index + 1) cur l g h.0 ∙ put_self f cur (renumbered n index (f cur))) in
    ap₂ (λ (a : ℕ) (r : List ℕ). a ∷ r) first (addresses_from n (index + 1) l g h.1)

-- Where no entry stands twice in the disk order, the entries have the addresses 1, 2, 3 and so on in
-- that order after `renumber_disk_addresses`.
pub renumber_disk_addresses-addresses :
    (m : PartitionMapHeader)
    → Distinct m.disk_order
    → map (address_of (renumber_disk_addresses m).entry) (renumber_disk_addresses m).disk_order
      ≡ count_from 1 (length m.disk_order)
unfolding renumber_disk_addresses
renumber_disk_addresses-addresses m h = addresses_from m.blocks_in_map 1 m.disk_order m.entry h
