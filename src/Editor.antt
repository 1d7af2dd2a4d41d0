-- ===== src/Editor.antt =====
-- pdisk.c: `edit` and `do_expert`, the loops that read commands, one round at a time, and
-- `do_write_partition_map`. In the state of the two loops `expert` says that `do_expert` is running
-- and `finished` that `edit` has left its loop.
pub mod Guarded
pub mod Safety
use mac_fdisk.Base.{
  ℕ, Bool, true, false, ◌&&◌, ◌||◌, not, Option, none, some, List, ◌==◌, if◌then◌else◌,
}
use mac_fdisk.Io.{Input, Answer, flush, flush_to_newline, get_okay, get_command}
use mac_fdisk.Dpme.{Block0}
use mac_fdisk.Convert.{ByteOrder}
use mac_fdisk.PartitionMap.State.{PartitionMapHeader}
use mac_fdisk.Disk.{Device, write_partition_map}
use mac_fdisk.Disk.Create.{init_partition_map}
use mac_fdisk.Commands.{
  Session, Command, bad_input, do_create_partition, do_create_bootstrap_partition,
  do_delete_partition, do_reorder, do_change_map_size,
}

pub record Editor (D : Type 0) : Type 0 where
  pub session : Session
  pub device : D
  pub expert : Bool
  pub finished : Bool

-- The letter of a command, in either case.
unfoldable pub letter : ℕ → ℕ → ℕ → Bool
letter upper lower c = (c == upper) || (c == lower)

module _ {D : Type 0} (s : Editor D) where
  abbrev pub updated : Option (Unit {0} × Session) → Option (Editor D)
  updated none = none
  updated (some (_, t)) = some (record s { session = t })

  abbrev pub initialized : Option (Option PartitionMapHeader × Input) → Option (Editor D)
  initialized none = none
  initialized (some (m, k)) = some (record s { session = record { map = m; keys = k } })

  -- The flags of the loops at the end of one, on the input that is left.
  abbrev pub left_with : Bool → Bool → Option Input → Option (Editor D)
  left_with expert finished none = none
  left_with expert finished (some k) =
      some
        (record s { session = record s.session { keys = k }; expert = expert; finished = finished })

module _ {D B : Type 0} (dev : Device D B) (malloc room : ℕ → Bool) (order : ByteOrder)
    (rflag dflag : Bool) where
  -- A command on the session.
  abbrev run : Command Unit → Editor D → Option (Editor D)
  run c s = updated s (c s.session)

  -- `write_partition_map(map)` behind the user's consent, which `answer` is.
  unfoldable pub save : Answer → Input → PartitionMapHeader → Editor D → Option (Editor D)
  unfolding write_partition_map
  save Answer.okay k m s = elim (write_partition_map dev malloc order rflag s.device m) [
    | none ↦ none
    | some (d, n) ↦ some (record s { session = record { map = some n; keys = k }; device = d })
  ]
  save Answer.not_okay k m s = some (record s { session = record { map = some m; keys = k } })
  save Answer.by_default k m s = some (record s { session = record { map = some m; keys = k } })
  save Answer.ended k m s = some (record s { session = record { map = some m; keys = k } })

  -- The answer to the question, where the program did not end with it.
  unfoldable pub answered :
      PartitionMapHeader → Editor D → Option (Answer × Input) → Option (Editor D)
  unfolding save
  answered m s none = none
  answered m s (some (a, k)) = save a k m s

  -- The part of `do_write_partition_map` that is about the map.
  unfoldable pub write_checked : PartitionMapHeader → Editor D → Option (Editor D)
  unfolding bad_input answered get_okay
  write_checked m s =
      if not m.changed
      then run bad_input s
      else if not m.writeable
      then run bad_input s
      else answered m s (get_okay s.session.keys)

  -- `do_write_partition_map(map)`
  unfoldable pub do_write_partition_map : Editor D → Option (Editor D)
  unfolding bad_input write_checked
  do_write_partition_map s = elim s.session.map [
    | none ↦ run bad_input s
    | some m ↦ write_checked m s
  ]

  module _ (regular_file : Bool) (garbage : Block0) where
    abbrev initialize : Editor D → Option (Editor D)
    initialize s = initialized s (
        init_partition_map dev malloc order s.device rflag regular_file garbage s.session.map
          s.session.keys)

    -- `flush_to_newline(keep)` at the end of a loop.
    abbrev leave : Bool → Bool → Bool → Editor D → Option (Editor D)
    leave keep expert finished s =
        left_with s expert finished (flush_to_newline keep s.session.keys)

    -- The `switch` of `edit`.
    unfoldable pub edit_command : ℕ → Editor D → Option (Editor D)
    unfolding letter do_write_partition_map bad_input
    edit_command c s =
        if (c == 63) || (letter 72 104 c || letter 80 112 c)
        then some s
        else if letter 81 113 c
        then leave true false true s
        else if letter 73 105 c
        then initialize s
        else if letter 66 98 c
        then run (do_create_bootstrap_partition malloc room) s
        else if letter 67 99 c
        then run (do_create_partition malloc room (c == 67)) s
        else if letter 68 100 c
        then run (do_delete_partition malloc room) s
        else if letter 82 114 c
        then run (do_reorder malloc room) s
        else if letter 83 115 c
        then run (do_change_map_size malloc room) s
        else if letter 88 120 c && dflag
        then some (record s { expert = true })
        else if letter 87 119 c && not rflag
        then do_write_partition_map s
        else run bad_input s

    -- The `switch` of `do_expert`, with what `edit` does behind its call.
    unfoldable pub expert_command : ℕ → Editor D → Option (Editor D)
    unfolding letter do_write_partition_map bad_input
    expert_command c s =
        if (c == 63) || (letter 72 104 c || letter 80 112 c)
        then some s
        else if letter 88 120 c
        then leave true false false s
        else if letter 81 113 c
        then leave false false true s
        else if letter 83 115 c
        then run (do_change_map_size malloc room) s
        else if letter 87 119 c && not rflag
        then do_write_partition_map s
        else run bad_input s

    -- What is done with a command that was read. At the end of the input `do_expert` returns to
    -- `edit`, and `edit` finishes.
    unfoldable pub dispatch : Option ℕ → Editor D → Option (Editor D)
    unfolding edit_command expert_command
    dispatch none s =
        some (if s.expert then record s { expert = false } else record s { finished = true })
    dispatch (some c) s = if s.expert then expert_command c s else edit_command c s

    -- One round of the loop that is running.
    unfoldable pub round : Editor D → Option (Editor D)
    unfolding dispatch
    round s =
        let (command, k) = get_command s.session.keys in
        dispatch command (record s { session = record s.session { keys = k } })
