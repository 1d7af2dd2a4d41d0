-- ===== src/Dpme/Flags.antt =====
-- The accessor macros of dpme.h, over `bitfield_set` and `bitfield_get`.
use mac_fdisk.Base.{ℕ}
use mac_fdisk.Bitfield.{bitfield_set, bitfield_get}
use mac_fdisk.Dpme.Types.{Dpme, Bzb}

unfoldable pub dpme_automount_set : Dpme → ℕ → Dpme
dpme_automount_set p v = record p { flags = bitfield_set p.flags 30 1 v }

unfoldable pub dpme_os_specific_1_set : Dpme → ℕ → Dpme
dpme_os_specific_1_set p v = record p { flags = bitfield_set p.flags 8 1 v }

unfoldable pub dpme_os_specific_2_set : Dpme → ℕ → Dpme
dpme_os_specific_2_set p v = record p { flags = bitfield_set p.flags 7 1 v }

unfoldable pub dpme_os_pic_code_set : Dpme → ℕ → Dpme
dpme_os_pic_code_set p v = record p { flags = bitfield_set p.flags 6 1 v }

unfoldable pub dpme_writable_set : Dpme → ℕ → Dpme
dpme_writable_set p v = record p { flags = bitfield_set p.flags 5 1 v }

unfoldable pub dpme_readable_set : Dpme → ℕ → Dpme
dpme_readable_set p v = record p { flags = bitfield_set p.flags 4 1 v }

unfoldable pub dpme_bootable_set : Dpme → ℕ → Dpme
dpme_bootable_set p v = record p { flags = bitfield_set p.flags 3 1 v }

unfoldable pub dpme_in_use_set : Dpme → ℕ → Dpme
dpme_in_use_set p v = record p { flags = bitfield_set p.flags 2 1 v }

unfoldable pub dpme_allocated_set : Dpme → ℕ → Dpme
dpme_allocated_set p v = record p { flags = bitfield_set p.flags 1 1 v }

unfoldable pub dpme_valid_set : Dpme → ℕ → Dpme
dpme_valid_set p v = record p { flags = bitfield_set p.flags 0 1 v }

unfoldable pub dpme_automount_get : Dpme → ℕ
dpme_automount_get p = bitfield_get p.flags 30 1

unfoldable pub dpme_os_specific_1_get : Dpme → ℕ
dpme_os_specific_1_get p = bitfield_get p.flags 8 1

unfoldable pub dpme_os_specific_2_get : Dpme → ℕ
dpme_os_specific_2_get p = bitfield_get p.flags 7 1

unfoldable pub dpme_os_pic_code_get : Dpme → ℕ
dpme_os_pic_code_get p = bitfield_get p.flags 6 1

unfoldable pub dpme_writable_get : Dpme → ℕ
dpme_writable_get p = bitfield_get p.flags 5 1

unfoldable pub dpme_readable_get : Dpme → ℕ
dpme_readable_get p = bitfield_get p.flags 4 1

unfoldable pub dpme_bootable_get : Dpme → ℕ
dpme_bootable_get p = bitfield_get p.flags 3 1

unfoldable pub dpme_in_use_get : Dpme → ℕ
dpme_in_use_get p = bitfield_get p.flags 2 1

unfoldable pub dpme_allocated_get : Dpme → ℕ
dpme_allocated_get p = bitfield_get p.flags 1 1

unfoldable pub dpme_valid_get : Dpme → ℕ
dpme_valid_get p = bitfield_get p.flags 0 1

unfoldable pub bzb_root_set : Bzb → ℕ → Bzb
bzb_root_set p v = record p { bzb_flags = bitfield_set p.bzb_flags 31 1 v }

unfoldable pub bzb_usr_set : Bzb → ℕ → Bzb
bzb_usr_set p v = record p { bzb_flags = bitfield_set p.bzb_flags 30 1 v }

unfoldable pub bzb_crit_set : Bzb → ℕ → Bzb
bzb_crit_set p v = record p { bzb_flags = bitfield_set p.bzb_flags 29 1 v }

unfoldable pub bzb_slice_set : Bzb → ℕ → Bzb
bzb_slice_set p v = record p { bzb_flags = bitfield_set p.bzb_flags 20 5 v }

unfoldable pub bzb_root_get : Bzb → ℕ
bzb_root_get p = bitfield_get p.bzb_flags 31 1

unfoldable pub bzb_usr_get : Bzb → ℕ
bzb_usr_get p = bitfield_get p.bzb_flags 30 1

unfoldable pub bzb_crit_get : Bzb → ℕ
bzb_crit_get p = bitfield_get p.bzb_flags 29 1

unfoldable pub bzb_slice_get : Bzb → ℕ
bzb_slice_get p = bitfield_get p.bzb_flags 20 5
