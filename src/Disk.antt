-- ===== src/Disk.antt =====
-- Blocks of the disk: `read_block` and `write_block` of io.c, and what partition_map.c does with
-- them. The system calls and the layout of the structures in the 512 bytes of a block are an
-- interface.
pub mod Create
use mac_fdisk.Base.{
  ℕ, zero, suc, ◌+◌, ◌-◌, ◌*◌, ◌%◌, ◌^◌, Bool, true, false, ◌&&◌, not, Option, none, some, List, [],
  ◌∷◌, ◌==◌, ltb, if◌then◌else◌,
}
use mac_fdisk.Dpme.{Dpme, Block0, dpme_signature, block0_signature}
use mac_fdisk.Convert.{ByteOrder, convert_dpme, convert_block0}
use mac_fdisk.PartitionMap.State.{PartitionMap, PartitionMapHeader, put_contents, address_of}
use mac_fdisk.PartitionMap.Add.{add_data_to_map}

-- An open file `D` and the contents `B` of a block. `read_at` is a seek to a byte and the reading
-- of 512 bytes, `none` if either fails; `write_at` is a seek and the writing of 512 bytes. The
-- `as` and `of` functions are the casts between a buffer and a structure.
pub record Device (D B : Type 0) : Type 0 where
  pub read_at : D → ℕ → Option B
  pub write_at : D → ℕ → B → D
  pub as_dpme : B → Dpme
  pub of_dpme : Dpme → B
  pub as_block0 : B → Block0
  pub of_block0 : Block0 → B
  pub zero_block : B
  pub clear_first : B → B

abbrev pub pblock_size : ℕ
pblock_size = 512

module _ {D B : Type 0} (dev : Device D B) where
  -- The offset is a `long long` here,
  unfoldable pub read_block : D → ℕ → Option B
  read_block d num = dev.read_at d (num * pblock_size)

  -- and the product of two 32-bit numbers here. With `rflag` nothing is written.
  unfoldable pub write_block : Bool → D → ℕ → B → D
  write_block rflag d num b = if rflag then d else dev.write_at d (num * pblock_size % 2 ^ 32) b

  -- One block of the map: it must be an entry.
  unfoldable pub read_entry : ByteOrder → D → ℕ → Option Dpme
  unfolding read_block
  read_entry order d index = elim (read_block d index) [
    | none ↦ none
    | some b ↦
        let dpme = convert_dpme order true (dev.as_dpme b) in
        if dpme.signature == dpme_signature then some dpme else none
  ]

  module _ (malloc : ℕ → Bool) (order : ByteOrder) (d : D) where
    abbrev counted : PartitionMapHeader → PartitionMapHeader
    counted m = record m { allocs = m.allocs + 1 }

    -- The loop's rounds behind the first, `k` of them, from block `index`.
    unfoldable pub read_more : ℕ → ℕ → ℕ → PartitionMapHeader → PartitionMapHeader × Bool
    unfolding read_entry
    read_more zero index limit m = (m, true)
    read_more (suc k) index limit m = elim (malloc m.allocs) [
      | false ↦ (counted m, false)
      | true ↦ elim (read_entry order d index) [
        | none ↦ (counted m, false)
        | some dpme ↦ elim (dpme.map_entries == limit) [
          | false ↦ (counted m, false)
          | true ↦
              let (n, done) = add_data_to_map malloc dpme index (counted m) in
              elim done [ false ↦ (n, false) | true ↦ read_more k (index + 1) limit n ]
        ]
      ]
    ]

    -- `read_partition_map(map)`: `true` is the result 0.
    unfoldable pub read_partition_map : PartitionMapHeader → PartitionMapHeader × Bool
    unfolding read_entry read_more
    read_partition_map m = elim (malloc m.allocs) [
      | false ↦ (counted m, false)
      | true ↦ elim (read_entry order d 1) [
        | none ↦ (counted m, false)
        | some dpme ↦
            let (n, done) = add_data_to_map malloc dpme 1 (counted m) in
            elim done [
              | false ↦ (n, false)
              | true ↦ read_more (dpme.map_entries - 1) 2 dpme.map_entries n
            ]
      ]
    ]

  module _ (malloc : ℕ → Bool) (order : ByteOrder) (rflag : Bool) where
    -- Block 0. `none` is a driver count that runs out of the buffer.
    unfoldable pub write_block0 : D → PartitionMapHeader → Option (D × PartitionMapHeader)
    unfolding write_block
    write_block0 d m = elim m.misc [
      | none ↦ some (
        if malloc m.allocs then write_block rflag d 0 dev.zero_block else d,
        record m { allocs = m.allocs + 1 },
      )
      | some b ↦ elim (convert_block0 order false b) [
        | none ↦ none
        | some out ↦ elim (convert_block0 order true out) [
          | none ↦ none
          | some back ↦
              some (write_block rflag d 0 (dev.of_block0 out), record m { misc = some back })
        ]
      ]
    ]

    -- The loop over the entries, with the last address written.
    unfoldable pub write_entries :
        List ℕ → D → (ℕ → PartitionMap) → Option ℕ → (D × (ℕ → PartitionMap)) × Option ℕ
    unfolding write_block
    write_entries [] d f last = ((d, f), last)
    write_entries (e ∷ l) d f last =
        let out = convert_dpme order false (f e).contents in
        let address = address_of f e in
        write_entries l (write_block rflag d address (dev.of_dpme out))
          (put_contents f e (convert_dpme order true out)) (some address)

    -- The block behind the map. `none` is the use of the loop's variable when it was never set.
    unfoldable pub zap_next : D → PartitionMapHeader → Option ℕ → Option (D × PartitionMapHeader)
    unfolding read_block write_block
    zap_next d m last = elim m.maximum_in_map [
      | none ↦ some (d, m)
      | some n ↦ elim (ltb 0 n) [
        | false ↦ some (d, m)
        | true ↦ elim last [
          | none ↦ none
          | some i ↦ elim (ltb i n) [
            | false ↦ some (d, m)
            | true ↦
                let counted = record m { allocs = m.allocs + 1 } in
                elim (malloc m.allocs) [
                  | false ↦ some (d, counted)
                  | true ↦ elim (read_block d (i + 1)) [
                    | none ↦ some (d, counted)
                    | some b ↦ some (write_block rflag d (i + 1) (dev.clear_first b), counted)
                  ]
                ]
          ]
        ]
      ]
    ]

    -- `write_partition_map(map)`, up to the closing and opening again of the device.
    unfoldable pub write_partition_map : D → PartitionMapHeader → Option (D × PartitionMapHeader)
    unfolding write_block0 write_entries zap_next
    write_partition_map d m = elim (write_block0 d m) [
      | none ↦ none
      | some (d1, n) ↦
          let ((d2, f), last) = write_entries n.disk_order d1 n.entry none in
          zap_next d2 (record n { entry = f }) last
    ]
