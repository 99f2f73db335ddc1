-- ===== src/Memory/Pmm/Regions.antt =====
-- The pages that the memory map has for the allocator, in the order of `pmm_fill`.
use reddyos_osdev.Base.{
  ℕ, zero, suc, ◌+◌, ◌-◌, ◌/◌, ◌%◌, ◌^◌, ◌≤◌, ◌<◌, ◌==◌, List, [], ◌∷◌, ◌++◌, drop, if◌then◌else◌,
  leb, not, arith,
}
use reddyos_osdev.Memory.Page.{align_up_page, align_down_page}
use reddyos_osdev.Memory.Pmm.{Entry, Pmm, aligned_start, aligned_end, limine_memmap_usable}

-- `n` pages from `p` on.
abbrev pub page_run : ℕ → ℕ → List ℕ
page_run p zero = []
page_run p (suc n) = p ∷ page_run (p + 4096) n

-- The pages of an entry from an offset on; offset 0 stands for an entry not yet begun.
unfoldable pub first_page : Entry → ℕ → ℕ
first_page e o = if o == 0 then aligned_start e else e.base + o

unfoldable pub entry_pages : Entry → ℕ → List ℕ
entry_pages e o =
    if not (e.kind == limine_memmap_usable)
    then []
    else if leb (aligned_end e) (aligned_start e)
    then []
    else page_run (first_page e o) ((aligned_end e - first_page e o) / 4096)

unfoldable pub pages_from : List Entry → ℕ → List ℕ
pages_from [] o = []
pages_from (e ∷ es) o = entry_pages e o ++ pages_from es 0

-- What `pmm_fill` has not yet handed to the free list.
abbrev pub pages_left : List Entry → Pmm → List ℕ
pages_left entries s = pages_from (drop s.fill_entry entries) s.fill_offset

-- The end of the region and the 1 MiB floor stay far below the top of the address space.
abbrev pub Fits : Entry → Type 0
Fits e = e.base + e.span + 2 ^ 21 < 2 ^ 64

abbrev pub AllFit : List Entry → Type 0
AllFit [] = Unit
AllFit (e ∷ es) = Fits e × AllFit es

pub aligned_end-le : (e : Entry) → Fits e → aligned_end e ≤ e.base + e.span
unfolding aligned_end
aligned_end-le e h = omega (arith, align_down_page ((e.base + e.span) % 2 ^ 64) (omega arith))

pub aligned_start_bounds :
    (e : Entry) → Fits e → (e.base ≤ aligned_start e) × (aligned_start e ≤ e.base + 2 ^ 20)
unfolding aligned_start
aligned_start_bounds e h = ground (arith, align_up_page e.base (omega arith))
