-- ===== src/Commands.antt =====
-- pdisk.c: the commands of the program. A `Session` is the map being edited, where there is one,
-- and the user's input. Messages are left out, also the one that a map is not writeable, after
-- which the command goes on. `none` is the end of the program, by `fatal` or by an access to a
-- string that could not be allocated.
use mac_fdisk.Base.{
  ℕ, ◌*◌, ◌%◌, ◌^◌, Bool, true, ◌||◌, not, Option, none, some, List, ◌==◌, if◌then◌else◌,
}
use mac_fdisk.Base.Run.{Run, pure, fail, ◌>>=◌, ◌>>◌}
use mac_fdisk.Io.{Input, getch, ungetch, ends, is_char, flush, flush_to_newline}
use mac_fdisk.Io.Arguments.{get_number_argument, get_string_argument, get_multiplier}
use mac_fdisk.PartitionMap.State.{
  PartitionMapHeader, start_of, size_of, is_free, is_map, k_unix_type, k_bootstrap_name,
  k_bootstrap_type,
}
use mac_fdisk.PartitionMap.Orders.{find_entry_by_disk_address}
use mac_fdisk.PartitionMap.Add.{add_partition_to_map}
use mac_fdisk.PartitionMap.Delete.{delete_partition_from_map, resize_map}
use mac_fdisk.PartitionMap.Move.{move_entry_in_map}

pub record Session : Type 0 where
  pub map : Option PartitionMapHeader
  pub keys : Input

abbrev pub Command : Type 0 → Type 0
Command A = Run Session A

-- A step on the input only.
abbrev pub on_keys : {A : Type 0} → (Input → Option (A × Input)) → Command A
on_keys f s = elim (f s.keys) [ none ↦ none | some (a, k) ↦ some (a, record s { keys = k }) ]

abbrev pub on_map : (PartitionMapHeader → PartitionMapHeader) → Command Unit
on_map f s = elim s.map [ none ↦ some (tt, s) | some m ↦ some (tt, record s { map = some (f m) }) ]

-- `bad_input`
unfoldable pub bad_input : Command Unit
unfolding flush
bad_input =
    on_keys λ (k : Input). elim (flush_to_newline true k) [ none ↦ none | some r ↦ some (tt, r) ]

abbrev pub next_char : Command (Option ℕ)
next_char = on_keys λ (k : Input). some (getch k)

abbrev pub unget : Option ℕ → Command Unit
unget c = on_keys λ (k : Input). elim (ungetch c k) [ none ↦ none | some r ↦ some (tt, r) ]

-- `get_number_argument(prompt, &x, kDefault)`
abbrev pub ask_number : Command (Bool × ℕ)
ask_number = on_keys (get_number_argument 0 none)

-- `if (c == 'p' || c == 'P') ... else if (c > 0) ungetch(c)`: the number given is that of an entry,
-- for which `value` is taken, or stands for itself.
unfoldable pub partition_suffix :
    (PartitionMapHeader → ℕ → ℕ) → PartitionMapHeader → ℕ → Command (Option ℕ)
unfolding getch is_char ends ungetch bad_input
partition_suffix value m number = do
  c ← next_char
  if is_char 112 c || is_char 80 c
      then elim (find_entry_by_disk_address number m) [
        | none ↦ bad_input >> pure none
        | some e ↦ pure (some (value m e))
      ]
      else (if ends c then pure (some number) else (unget c >> pure (some number)))

-- `get_base_argument(number, map)`
unfoldable pub get_base_argument : PartitionMapHeader → Command (Option ℕ)
unfolding partition_suffix bad_input
get_base_argument m = do
  (given, number) ← ask_number
  if given
      then partition_suffix (λ (n : PartitionMapHeader). start_of n.entry) m number
      else (bad_input >> pure none)

-- `get_size_argument(number, map)`
unfoldable pub get_size_argument : PartitionMapHeader → Command (Option ℕ)
unfolding partition_suffix bad_input
get_size_argument m = do
  (given, number) ← ask_number
  if given
      then (on_keys (get_multiplier 512) >>= λ (multiple : ℕ).
          if multiple == 1
          then partition_suffix (λ (n : PartitionMapHeader). size_of n.entry) m number
          else pure (some (number * multiple % 2 ^ 32)))
      else (bad_input >> pure none)

-- A command on a map: without one there is only the message.
abbrev pub with_map : (PartitionMapHeader → Command Unit) → Command Unit
with_map f s = elim s.map [ none ↦ bad_input s | some m ↦ f m s ]

module _ (malloc room : ℕ → Bool) where
  -- `get_string_argument(prompt, &s, 1)`; `room n` is the outcome of an allocation of `n` bytes
  -- for a string.
  abbrev ask_string : Command (Bool × Option (List ℕ))
  ask_string = on_keys (get_string_argument room true)

  -- `add_partition_to_map(name, dptype, base, length, map)`, where a null pointer for the name or
  -- the type is fatal.
  abbrev add_named : Option (List ℕ) → Option (List ℕ) → ℕ → ℕ → Command Unit
  add_named name dptype base length = elim name [
    | none ↦ fail
    | some n ↦ elim dptype [
      | none ↦ fail
      | some t ↦
          on_map λ (m : PartitionMapHeader). (add_partition_to_map malloc n t base length m).0
    ]
  ]

  -- The part of `do_create_partition` behind the name.
  unfoldable pub create_named : Bool → Option (List ℕ) → ℕ → ℕ → Command Unit
  unfolding bad_input add_partition_to_map
  create_named get_type name base length =
      if not get_type
      then add_named name (some k_unix_type) base length
      else (ask_string >>= λ (answer : Bool × Option (List ℕ)).
          if not answer.0 then bad_input else elim answer.1 [
            | none ↦ fail
            | some t ↦
                if is_free t
                then bad_input
                else if is_map t
                then bad_input
                else add_named name (some t) base length
          ])

  -- `do_create_partition(map, get_type)`
  unfoldable pub do_create_partition : Bool → Command Unit
  unfolding get_base_argument get_size_argument create_named bad_input
  do_create_partition get_type = with_map λ (m : PartitionMapHeader).
      get_base_argument m >>= λ (base : Option ℕ). elim base [
        | none ↦ pure tt
        | some b ↦ get_size_argument m >>= λ (size : Option ℕ). elim size [
          | none ↦ pure tt
          | some l ↦ ask_string >>= λ (answer : Bool × Option (List ℕ)).
              if not answer.0 then bad_input else create_named get_type answer.1 b l
        ]
      ]

  -- `do_create_bootstrap_partition(map)`
  unfoldable pub do_create_bootstrap_partition : Command Unit
  unfolding get_base_argument
  do_create_bootstrap_partition = with_map λ (m : PartitionMapHeader).
      get_base_argument m >>= λ (base : Option ℕ). elim base [
        | none ↦ pure tt
        | some b ↦ add_named (some k_bootstrap_name) (some k_bootstrap_type) b 1600
      ]

  -- A change of the map that may run out of a buffer.
  abbrev on_map_or_fail : (PartitionMapHeader → Option PartitionMapHeader) → Command Unit
  on_map_or_fail f s = elim s.map [
    | none ↦ some (tt, s)
    | some m ↦ elim (f m) [ none ↦ none | some n ↦ some (tt, record s { map = some n }) ]
  ]

  -- `do_delete_partition(map)`
  unfoldable pub do_delete_partition : Command Unit
  unfolding bad_input
  do_delete_partition = with_map λ (m : PartitionMapHeader). ask_number >>= λ (answer : Bool × ℕ).
      if not answer.0 then bad_input else elim (find_entry_by_disk_address answer.1 m) [
        | none ↦ pure tt
        | some e ↦ on_map_or_fail λ (n : PartitionMapHeader).
            elim (delete_partition_from_map malloc e n) [ none ↦ none | some r ↦ some r.0 ]
      ]

  -- `do_reorder(map)`
  unfoldable pub do_reorder : Command Unit
  unfolding bad_input
  do_reorder = with_map λ (m : PartitionMapHeader). ask_number >>= λ (old : Bool × ℕ).
      if not old.0
      then bad_input
      else (ask_number >>= λ (new : Bool × ℕ).
          if not new.0
          then bad_input
          else on_map λ (n : PartitionMapHeader). (move_entry_in_map old.1 new.1 n).0)

  -- `do_change_map_size(map)`
  unfoldable pub do_change_map_size : Command Unit
  unfolding bad_input
  do_change_map_size = with_map λ (m : PartitionMapHeader). ask_number >>= λ (answer : Bool × ℕ).
      if not answer.0
      then bad_input
      else on_map_or_fail λ (n : PartitionMapHeader). elim (resize_map malloc answer.1 n) [
        | none ↦ none
        | some r ↦ some r.0
      ]
