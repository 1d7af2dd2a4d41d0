-- ===== src/Examples/Reading.antt =====
-- Numbers typed by the user, and the renumbering of a map.
use mac_fdisk.Base.{◌+◌, ◌^◌, ◌≤◌, ◌<◌, ◌≡◌, arith, [], ◌∷◌, ◌++◌, some, map}
use mac_fdisk.Io.{input, digit_of, between, get_number}
use mac_fdisk.Io.Numbers.{number, digits, get_number-number, get_number-zero}
use mac_fdisk.PartitionMap.State.{address_of}
use mac_fdisk.PartitionMap.Orders.{renumber_disk_addresses}
use mac_fdisk.PartitionMap.Orders.Renumber.{count_from, renumber_disk_addresses-addresses}
use mac_fdisk.Examples.Maps.{two_entries}

newline_stops : 10 ≤ digit_of (some 10)
unfolding digit_of between
newline_stops = omega arith

below_limit : number 0 (1 ∷ 6 ∷ 0 ∷ []) < 2 ^ 32
unfolding number
below_limit = omega arith

get_number-number_example :
    get_number (some (48 + 1)) (input (digits (6 ∷ 0 ∷ []) ++ (some 10 ∷ [])) 0)
    ≡ some (number 0 (1 ∷ 6 ∷ 0 ∷ []), input (some 10 ∷ []) 1)
get_number-number_example =
    get_number-number 1 (6 ∷ 0 ∷ []) (some 10) [] (omega arith) (omega arith)
      (omega arith, (omega arith, tt)) newline_stops below_limit

get_number-zero_example :
    get_number (some 48) (input (some 49 ∷ some 55 ∷ some 10 ∷ []) 0)
    ≡ get_number (some 48) (input (some 50 ∷ some 55 ∷ some 10 ∷ []) 0)
get_number-zero_example =
    get_number-zero 49 50 (some 55 ∷ some 10 ∷ []) (λ (e : 49 ≡ 120). absurd (omega (arith, e)))
      (λ (e : 49 ≡ 88). absurd (omega (arith, e))) (λ (e : 50 ≡ 120). absurd (omega (arith, e)))
      (λ (e : 50 ≡ 88). absurd (omega (arith, e)))

renumber_disk_addresses-addresses_example :
    map
      (address_of (renumber_disk_addresses two_entries).entry)
      (renumber_disk_addresses two_entries).disk_order
    ≡ count_from 1 2
renumber_disk_addresses-addresses_example =
    renumber_disk_addresses-addresses two_entries
      (((λ (e : 0 ≡ 1). absurd (omega (arith, e))), tt), (tt, tt))
