-- ===== src/Memory/Store.antt =====
-- The kernel's view of memory: 64-bit words by virtual address, with the physical memory mapped
-- at the offset that the boot loader answers with (`phys_to_virt`, `virt_to_phys` of
-- `src/memory/vmm.c`, `VIRT` of `headers/memory/vmm.h`).
use reddyos_osdev.Base.{
  ℕ, ◌+◌, ◌*◌, ◌%◌, ◌/◌, ◌^◌, ◌≤◌, ◌<◌, ◌≡◌, ◌≢◌, ◌==◌, ◌&&◌, leb, ltb, if◌then◌else◌, arith,
}
use reddyos_osdev.Memory.Page.{page_size, add64, sub64}

-- Only words at multiples of 8 are read and written.
abbrev pub Words : Type 0
Words = ℕ → ℕ

unfoldable pub write : Words → ℕ → ℕ → Words
write w a v b = if b == a then v else w b

-- `memset(page, 0, PAGE_SIZE)`.
unfoldable pub clear_page : Words → ℕ → Words
clear_page w page a = if leb page a && ltb a (page + page_size) then 0 else w a

module _ (hhdm : ℕ) where
  unfoldable pub phys_to_virt : ℕ → ℕ
  phys_to_virt phys = add64 phys hhdm

  unfoldable pub virt_to_phys : ℕ → ℕ
  virt_to_phys virt = sub64 virt hhdm

  pub virt_to_phys-phys_to_virt :
      (p : ℕ) → hhdm < 2 ^ 64 → p < 2 ^ 64 → virt_to_phys (phys_to_virt p) ≡ p
  unfolding virt_to_phys phys_to_virt
  virt_to_phys-phys_to_virt p h k = omega arith

  pub phys_to_virt-virt_to_phys :
      (v : ℕ) → hhdm < 2 ^ 64 → v < 2 ^ 64 → phys_to_virt (virt_to_phys v) ≡ v
  unfolding virt_to_phys phys_to_virt
  phys_to_virt-virt_to_phys v h k = omega arith

  pub virt_to_phys_aligned :
      (v : ℕ)
      → hhdm < 2 ^ 64
      → hhdm % 4096 ≡ 0
      → v < 2 ^ 64
      → v % 4096 ≡ 0
      → virt_to_phys v % 4096 ≡ 0
  unfolding virt_to_phys
  virt_to_phys_aligned v h al k e = omega arith

pub write_self : (w : Words) (a v : ℕ) → write w a v a ≡ v
unfolding write
write_self w a v = ground arith

pub write_ne : (w : Words) (a v b : ℕ) → b ≢ a → write w a v b ≡ w b
unfolding write
write_ne w a v b h = ground arith

pub clear_page_inside : (w : Words) (p a : ℕ) → p ≤ a → a < p + page_size → clear_page w p a ≡ 0
unfolding clear_page
clear_page_inside w p a h k = ground arith

-- Clearing one aligned page leaves the words of the other aligned pages alone.
pub clear_page_outside :
    (w : Words) (p a : ℕ) → p % 4096 ≡ 0 → a / 4096 * 4096 ≢ p → clear_page w p a ≡ w a
unfolding clear_page
clear_page_outside w p a h k = ground arith
