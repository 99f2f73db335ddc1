-- ===== src/Memory/Tests.antt =====
-- Runs of the page allocator (`src/memory/pmm.c`).
use reddyos_osdev.Base.{
  All, ℕ, ◌+◌, ◌*◌, ◌/◌, ◌≤◌, ◌<◌, ◌≡◌, refl, List, [], ◌∷◌, arith, take, drop,
}
use reddyos_osdev.Base.Outcome.{done}
use reddyos_osdev.Memory.Page.{page_size, align_up, align_down}
use reddyos_osdev.Memory.Store.{phys_to_virt, virt_to_phys}
use reddyos_osdev.Memory.Pmm.{Entry, Pmm, aligned_start, aligned_end, fill, alloc_page, free_page}
use reddyos_osdev.Memory.Pmm.FreeList.{Absent, onto, Fresh}
use reddyos_osdev.Memory.Pmm.Regions.{pages_left, pages_from, entry_pages, first_page, AllFit}
use reddyos_osdev.Memory.Pmm.Alloc.{
  IsValid, fill-IsValid, alloc_page_refill, free_page-IsValid, alloc_page-free_page,
}
use reddyos_osdev.Memory.Pmm.Usable.{IsGoodPage}
use reddyos_osdev.Memory.Pmm.Handed.{again, stop, alloc_page_usable}

abbrev offset : ℕ
offset = 0xFFFF800000000000

-- Two pages, with a reserved region before them.
abbrev memmap : List Entry
memmap =
    record { base = 0; span = 0x9F000; kind = 1 }
    ∷ record { base = 0xFF800; span = 0x2900; kind = 0 }
    ∷ []

abbrev at_boot : Pmm
at_boot = record { word = λ _. 7; head = 0; fill_entry = 0; fill_offset = 0 }

memmap-AllFit : AllFit memmap
memmap-AllFit = (omega arith, (omega arith, tt))

two_pages : pages_left memmap at_boot ≡ 0x100000 ∷ 0x101000 ∷ []
unfolding pages_from entry_pages first_page aligned_start aligned_end align_up align_down
two_pages = refl

at_boot-IsValid : IsValid offset memmap at_boot []
at_boot-IsValid = record {
  holds = record { linked = refl; aligned = tt; distinct = tt };
  fresh =
      rw two_pages (
        unfold phys_to_virt in (refl, omega arith, tt, (refl, omega arith, (omega arith, tt), tt)));
  cursor = (omega arith, λ e here fresh. absurd (fresh refl));
}

fill-IsValid_example :
    (s' : Pmm) × (fill offset memmap 1 at_boot ≡ done s')
    × IsValid offset memmap s' (onto offset (take 1 (pages_left memmap at_boot)) [])
    × (pages_left memmap s' ≡ drop 1 (pages_left memmap at_boot))
    × ((a : ℕ)
        → Absent (a / 4096 * 4096) (onto offset (take 1 (pages_left memmap at_boot)) [])
        → s'.word a ≡ at_boot.word a)
fill-IsValid_example = fill-IsValid offset memmap 1 at_boot [] memmap-AllFit at_boot-IsValid

abbrev freed : Pmm
freed = free_page offset 0x200000 at_boot

abbrev node : ℕ
node = phys_to_virt offset 0x200000

node_lem : node ≡ 0xFFFF800000200000
unfolding phys_to_virt
node_lem = refl

freed-IsValid : IsValid offset memmap freed (node ∷ [])
freed-IsValid =
    free_page-IsValid offset memmap 0x200000 at_boot [] at_boot-IsValid (rw node_lem refl)
      (rw node_lem (omega arith)) tt fresh
  where
    fresh : Fresh offset (pages_left memmap at_boot) (node ∷ [])
    fresh = rw two_pages (
        unfold phys_to_virt in
        (
          refl,
          omega arith,
          (omega arith, tt),
          (refl, omega arith, (omega arith, (omega arith, tt)), tt),
        ))

abbrev low : ℕ
low = phys_to_virt offset 0x100000

abbrev high : ℕ
high = phys_to_virt offset 0x101000

alloc_page_refill_example :
    (s' : Pmm) × (alloc_page offset memmap at_boot ≡ done (virt_to_phys offset high, s'))
    × IsValid offset memmap s' (low ∷ [])
    × (pages_left memmap s' ≡ drop 512 (pages_left memmap at_boot))
    × ((a : ℕ) → high ≤ a → a < high + page_size → s'.word a ≡ 0)
    × ((a : ℕ) → Absent (a / 4096 * 4096) (high ∷ low ∷ []) → s'.word a ≡ at_boot.word a)
alloc_page_refill_example =
    alloc_page_refill offset memmap at_boot high (low ∷ []) memmap-AllFit at_boot-IsValid
      (rw two_pages refl)

alloc_page-free_page_example :
    (s' : Pmm) × (alloc_page offset memmap (free_page offset 0x200000 at_boot)
      ≡ done (0x200000, s'))
    × (s'.head ≡ 0)
    × ((a : ℕ) → node ≤ a → a < node + page_size → s'.word a ≡ 0)
alloc_page-free_page_example =
    alloc_page-free_page offset memmap 0x200000 at_boot (omega arith) (omega arith)
      (rw node_lem (omega arith))

first_given : (s' : Pmm) × (alloc_page offset memmap at_boot ≡ done (virt_to_phys offset high, s'))
first_given =
    let (s1, run, _, _, _, _) =
      alloc_page_refill offset memmap at_boot high (low ∷ []) memmap-AllFit at_boot-IsValid
        (rw two_pages refl) in
    (s1, run)

-- The first page given.
alloc_page_usable_example : All (IsGoodPage memmap) (virt_to_phys offset high ∷ [])
alloc_page_usable_example =
    alloc_page_usable offset memmap at_boot first_given.0 (virt_to_phys offset high ∷ [])
      memmap-AllFit (omega arith) at_boot-IsValid refl refl (again first_given.1 stop)
