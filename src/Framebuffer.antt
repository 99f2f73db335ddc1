-- ===== src/Framebuffer.antt =====
-- The frame buffer device (`src/framebuffer/fb.c`, `headers/framebuffer/fb.h`), on the bytes of memory
-- by address.
pub mod Access
mod Tests
use reddyos_osdev.Base.{
  ℕ, zero, suc, ◌+◌, ◌-◌, ◌*◌, ◌/◌, ◌%◌, ◌^◌, Option, none, some, ltb, leb, ◌==◌, if◌then◌else◌,
}
use reddyos_osdev.Base.Int.{ℤ, pos, negsuc}
use reddyos_osdev.Memory.Page.{add64, sub64}
use reddyos_osdev.CGeneric.Mem.{Bytes, memcpy}
use reddyos_osdev.Process.{store}

abbrev pub fb_ioctl_flip : ℕ
fb_ioctl_flip = 0x46420001

abbrev pub fb_ioctl_clear : ℕ
fb_ioctl_clear = 0x46420002

abbrev pub fb_ioctl_get_info : ℕ
fb_ioctl_get_info = 0x46420003

-- `reddyos_framebuffer_t` without the fields that no code reads.
pub record Framebuffer : Type 0 where
  pub front : ℕ
  pub back : ℕ
  pub width : ℕ
  pub height : ℕ
  pub pitch : ℕ
  pub bpp : ℕ
  pub size : ℕ

-- `(int) x`.
abbrev pub to_int : ℕ → ℤ
to_int x = let low = x % 2 ^ 32 in if ltb low (2 ^ 31) then pos low else negsuc (2 ^ 32 - 1 - low)

-- The size that is left to read or write.
abbrev pub clip : Framebuffer → ℕ → ℕ → ℕ
clip fb offset size = if ltb fb.size (add64 offset size) then sub64 fb.size offset else size

unfoldable pub fb_read : Framebuffer → ℕ → ℕ → ℕ → Bytes → ℤ × Bytes
fb_read fb offset buffer size m =
    if leb fb.size offset
    then (pos 0, m)
    else let n = clip fb offset size in (to_int n, memcpy buffer (add64 fb.back offset) n m)

-- `back` is a pointer to words of four bytes here.
unfoldable pub fb_write : Framebuffer → ℕ → ℕ → ℕ → Bytes → ℤ × Bytes
fb_write fb offset buffer size m =
    if leb fb.size offset
    then (pos 0, m)
    else let n = clip fb offset size in (to_int n, memcpy (add64 fb.back (4 * offset)) buffer n m)

-- The loop of `FB_IOCTL_CLEAR`, from the pixel `i` on.
unfoldable pub clear_from : ℕ → ℕ → ℕ → ℕ → Bytes → Bytes
clear_from zero i back color m = m
clear_from (suc left) i back color m =
    clear_from left (i + 1) back color (store 4 (back + 4 * i) color m)

-- `fb_info_t`, with its padding.
unfoldable pub put_info : Framebuffer → ℕ → Bytes → Bytes
put_info fb info m = store 8 (info + 32) fb.size (
    store 2 (info + 24) fb.bpp
      (store 8 (info + 16) fb.pitch (store 8 (info + 8) fb.height (store 8 info fb.width m))))

unfoldable pub fb_ioctl : Option Framebuffer → ℕ → ℕ → Bytes → ℤ × Bytes
fb_ioctl fb cmd arg m =
    if cmd == fb_ioctl_flip
    then (pos 0, elim fb [ none ↦ m | some f ↦ memcpy f.front f.back f.size m ])
    else if cmd == fb_ioctl_clear
    then (pos 0, elim fb [ none ↦ m | some f ↦ clear_from (f.size / 4) 0 f.back (arg % 2 ^ 32) m ])
    else if cmd == fb_ioctl_get_info
    then elim fb [
      | none ↦ (negsuc 0, m)
      | some f ↦ if arg == 0 then (negsuc 0, m) else (pos 0, put_info f arg m)
    ]
    else (negsuc 0, m)
