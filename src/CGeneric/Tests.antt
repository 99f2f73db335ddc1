-- ===== src/CGeneric/Tests.antt =====
-- Runs of the memory and string functions (`src/kernel_common/c_generic/`).
use reddyos_osdev.Base.{◌≡◌, refl, ltb, if◌then◌else◌}
use reddyos_osdev.CGeneric.Mem.{
  Bytes, moved, memmove, memcpy, memset, memcmp, Compared, memmove_lem, memcpy_lem, memset_lem,
  memcmp_lem,
}
use reddyos_osdev.CGeneric.Mem

-- Each address below 10 holds its number; above stand zeros.
abbrev bytes : Bytes
bytes a = if ltb a 10 then a else 0

overlap_up : memmove 3 2 4 bytes 6 ≡ 5
unfolding memmove Mem.copy_up Mem.copy_down Mem.put_byte
overlap_up = refl

overlap_down : memmove 2 3 4 bytes 5 ≡ 6
unfolding memmove Mem.copy_up Mem.copy_down Mem.put_byte
overlap_down = refl

memmove_example : memmove 3 2 4 bytes 6 ≡ moved 3 2 4 bytes 6
memmove_example = memmove_lem 3 2 4 bytes 6
