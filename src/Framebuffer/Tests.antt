-- ===== src/Framebuffer/Tests.antt =====
-- Runs of the frame buffer device (`src/framebuffer/fb.c`).
use reddyos_osdev.Base.{ℕ, ◌+◌, ◌-◌, ◌*◌, ◌%◌, ◌<◌, ◌≡◌, inr, inl, min, arith}
use reddyos_osdev.Base.Int.{pos}
use reddyos_osdev.CGeneric.Mem.{Bytes, moved}
use reddyos_osdev.Framebuffer.{Framebuffer, fb_read, fb_write}
use reddyos_osdev.Framebuffer.Access.{IsPlaced, fb_read_lem, fb_write_behind}

-- Four by two pixels.
abbrev small : Framebuffer
small = record {
  front = 0x9000;
  back = 0x8000;
  width = 4;
  height = 2;
  pitch = 16;
  bpp = 32;
  size = 32;
}

small-IsPlaced : IsPlaced small
small-IsPlaced = record { top = omega arith; count = omega arith }

abbrev memory : Bytes
memory a = a % 256

fb_read_lem_example :
    ((fb_read small 28 0x1000 8 memory).0 ≡ pos (min 8 (32 - 28)))
    × ((a : ℕ)
        → (fb_read small 28 0x1000 8 memory).1 a
          ≡ moved 0x1000 (0x8000 + 28) (min 8 (32 - 28)) memory a)
fb_read_lem_example =
    fb_read_lem small 28 0x1000 8 memory small-IsPlaced (omega arith) (inl (omega arith))

fb_write_behind_example :
    ((fb_write small 8 0x1000 4 memory).0 ≡ pos (min 4 (32 - 8)))
    × ((i : ℕ) → i < 32 → (fb_write small 8 0x1000 4 memory).1 (0x8000 + i) ≡ memory (0x8000 + i))
    × ((i : ℕ)
        → i < min 4 (32 - 8)
        → (fb_write small 8 0x1000 4 memory).1 (0x8000 + 4 * 8 + i) ≡ memory (0x1000 + i))
fb_write_behind_example =
    fb_write_behind small 8 0x1000 4 memory small-IsPlaced (omega arith) (omega arith) (omega arith)
      (inr (omega arith))
