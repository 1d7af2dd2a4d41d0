-- ===== src/Lib.antt =====
-- mac-fdisk: an editor for the partition maps of Apple disks.
--
-- The program reads the map of a disk into memory, edits it there by the user's commands, and
-- writes it back. The parts follow the C files:
--   Bitfield      bitfield.c: bit fields in a 32-bit word
--   Dpme          dpme.h: block 0 and the entries of a map as records, and the flags' accessors
--   Convert       convert.c: between the byte order of the disk and that of the CPU
--   PartitionMap  partition_map.c: the map in memory, with State (the structures), Orders (the two
--                 lists), Add, Delete (with resizing), Move, Size (compute_device_size) and
--                 Session, the relation of any sequence of additions, deletions, moves and resizings
--   Extents       the abstract view of a map: the extents of the disk in ascending order, with
--                 what adding (`carve`) and deleting (`release`) do to them
--   Disk          read_block and write_block of io.c, reading and writing a map; Disk/Create opens
--                 and makes maps
--   Io            io.c: the input of characters, numbers and strings
--   Commands      pdisk.c: the commands on a map and the user's input
--   Editor        pdisk.c: one round of the two command loops, and writing the map
--   Fdisk         fdisk.c: the Intel partitions' types, sector numbers against cylinders, heads and
--                 sectors, the rounding of a start, and the overlap test of `verify`; Entry (what
--                 `set_partition` stores, `check_bounds` and `check_consistency` read), Table (the
--                 globals, deleting, and the chain of logical partitions), Input (`read_int`),
--                 Placing (the search of `add_partition` for free sectors), Adding (the rest),
--                 Verify (`check`), Moving (`move_begin`), Asking (`read_hex` and `get_partition`),
--                 Reading (`get_boot`, `read_extended` and `write_table`), Summing (`verify`) and Menu
--                 (`change_sysid`, `new_partition` and the two loops of commands)
--   Disklabel     fdisklabel.c and fdisklabel.h, as compiled for an Intel CPU: the label and its words
--                 in memory (Words), the checksum, the label on the disk (Area), what the commands
--                 change (Edit, Valid) and `bselect` (Select)
--   Base          what the other modules share: lists, words, strings, steps that may fail
--   Examples      tests, and the theorems at concrete inputs
--
-- How code is modelled. The program is taken as compiled for a CPU with a 32-bit `unsigned long`.
-- An unsigned number is a natural number and wrap-around is written out (`add32`, `sub32`); an `int`
-- that may be negative is an `Option`, with `none` for the negative values. An entry of a map is
-- known by a number, as the C code knows it by its address; `entry` is the heap, the lists
-- `disk_order` and `base_order` stand for the chains of `next` and `prev` pointers, and a neighbour
-- is found in the list. `allocs` counts the allocations, and a parameter `malloc` says which of them
-- succeed. The entries of Intel partition tables are known by the number of their sector's buffer and
-- their place in it, so that the pointers into one sector alias as in the code, and an access through
-- NULL or into a buffer that was freed is `none`. What reads or writes out of a buffer, and the end of
-- the program, is `none`.
-- The system calls and the layout of a structure in the bytes of a block are the record
-- `Disk.Device`, for the sectors of Intel tables `Fdisk.Reading.Sectors`, and for the disk and the files
-- that the commands on a BSD label read `Disklabel.Area.Volume`. Messages are left out, but those of
-- `verify` and of the checks it makes, which are values.
--
-- Loops run over the lists. The search for the size of a device runs on fuel, 11 rounds of doubling
-- and 32 of halving, since it tries no block above 2^30; the count of decimal digits has 10 rounds,
-- since a 32-bit value has 10 digits at most; the search for a partition's type has 7, for a table of
-- 33; and `rounded` one more than the number it runs up to. The results below show them to be enough.
-- The loop of `check` runs on one step more than the start it runs up to, and one after a wrap-around.
-- The `do` loop of `add_partition` asks again as long as the user names sectors that are taken; it runs
-- on the fuel that its caller gives, and what is said of it is said of the runs that end.
--
-- The loop of `bsd_edit_disklabel` has one round for every line that is left, and one at the end of the
-- input.
--
-- `read_extended` follows as many links as there is room for partitions, which is the code's own test.
--
-- Not modelled: dump.c and errors.c, which print; in fdisk.c the lists of partitions and types, the
-- options of the program, and the calls that tell the system of a new table; the options of pdisk; the
-- SCSI routines for Mac OS; the closing and opening again of a device and the `ioctl` calls behind a
-- write.
pub mod Base
pub mod Bitfield
pub mod Commands
pub mod Convert
pub mod Disk
pub mod Disklabel
pub mod Dpme
pub mod Editor
pub mod Examples
pub mod Extents
pub mod Fdisk
pub mod Io
pub mod PartitionMap
