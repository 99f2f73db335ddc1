-- ===== src/Memory/Vmm/Tests.antt =====
-- Runs of the page tables (`src/memory/vmm.c`).
use reddyos_osdev.Base.{
  ℕ, ◌+◌, ◌*◌, ◌/◌, ◌≤◌, ◌<◌, ◌≡◌, ◌≢◌, ◌⊎◌, refl, List, [], ◌∷◌, arith, ◌==◌, if◌then◌else◌,
}
use reddyos_osdev.Base.Int.{negsuc}
use reddyos_osdev.Base.Outcome.{done, panic}
use reddyos_osdev.Memory.Page.{align_up, align_down}
use reddyos_osdev.Memory.Store.{phys_to_virt, virt_to_phys}
use reddyos_osdev.Memory.Pmm.{Entry, Pmm, aligned_start, aligned_end, alloc_page}
use reddyos_osdev.Memory.Pmm.Regions.{pages_left, pages_from, entry_pages, first_page, AllFit}
use reddyos_osdev.Memory.Pmm.Owned.{IsPool, Outside, supply, Granted, alloc_page_owned}
use reddyos_osdev.Memory.Vmm.{
  AddressSpace, entry_at, pt_index, is_present, next_table, vmm_unmap, vmm_virt_to_phys_as,
  paging_create_address_space,
}
use reddyos_osdev.Memory.Vmm.Walk.{IsTable, Tables}
use reddyos_osdev.Memory.Vmm.Mapping.{Route, vmm_unmap_lem}
use reddyos_osdev.Memory.Vmm.Space.{paging_create_address_space_lem}
use reddyos_osdev.Process.Growth.{UserStack}

abbrev hhdm : ℕ
hhdm = 0xFFFF800000000000

abbrev memmap : List Entry
memmap = record { base = 0x100000; span = 0x2000; kind = 0 } ∷ []

-- The first three tables lead from the address 0 to a last one without entries.
abbrev state : Pmm
state = record {
  word = λ a.
      if a == 0xFFFF800000400000
      then 0x401003
      else if a == 0xFFFF800000401000
      then 0x402003
      else if a == 0xFFFF800000402000
      then 0x403003
      else 0;
  head = 0;
  fill_entry = 0;
  fill_offset = 0;
}

abbrev space : AddressSpace
space = record { pml4 = 0xFFFF800000400000; cr3 = 0x400000 }

memmap-AllFit : AllFit memmap
memmap-AllFit = (omega arith, tt)

two_pages : pages_left memmap state ≡ 0x100000 ∷ 0x101000 ∷ []
unfolding pages_from entry_pages first_page aligned_start aligned_end align_up align_down
two_pages = refl

state-IsPool : IsPool hhdm memmap state []
state-IsPool = record {
  valid = record {
    holds = record { linked = refl; aligned = tt; distinct = tt };
    fresh = rw two_pages (
        unfold phys_to_virt in (refl, omega arith, tt, (refl, omega arith, (omega arith, tt), tt)));
    cursor = (omega arith, λ e here fresh. absurd (fresh refl));
  };
  small = tt;
  small_left = rw two_pages (omega arith, (omega arith, tt));
}

alloc_page_owned_example :
    ((supply hhdm memmap state [] ≡ 0) × (alloc_page hhdm memmap state ≡ panic))
    ⊎ ((y : ℕ) × (s' : Pmm) × (xs' : List ℕ) × (alloc_page hhdm memmap state
          ≡ done (virt_to_phys hhdm y, s'))
        × Granted hhdm memmap state [] y s' xs')
alloc_page_owned_example =
    alloc_page_owned hhdm memmap state [] memmap-AllFit (omega arith) state-IsPool

outside : (a : ℕ) → 0xFFFF800000200000 < a → Outside hhdm memmap state [] a
outside a h = (tt, rw two_pages (unfold phys_to_virt in (omega arith, (omega arith, tt))))

root-Tables : Tables hhdm memmap state [] (space.pml4 ∷ [])
root-Tables = record {
  pool = state-IsPool;
  each = ((refl, outside space.pml4 (omega arith)), tt);
  distinct = (tt, tt);
}

paging_create_address_space_example :
    ((supply hhdm memmap state [] ≡ 0)
      × (paging_create_address_space hhdm memmap space state ≡ panic))
    ⊎ ((space' : AddressSpace) × (s' : Pmm) × (xs' : List ℕ) × (paging_create_address_space hhdm
            memmap space state
          ≡ done (space', s'))
        × IsPool hhdm memmap s' xs'
        × IsTable hhdm memmap s' xs' space'.pml4
        × ((a : ℕ) → Outside hhdm memmap state [] a → space'.pml4 ≢ a)
        × (supply hhdm memmap state [] ≡ supply hhdm memmap s' xs' + 1)
        × (phys_to_virt hhdm space'.cr3 ≡ space'.pml4)
        × ((j : ℕ) → j < 256 → s'.word (entry_at space'.pml4 j) ≡ 0)
        × ((j : ℕ)
            → 256 ≤ j
            → j < 512
            → s'.word (entry_at space'.pml4 j) ≡ state.word (entry_at space.pml4 j))
        × ((a : ℕ) → Outside hhdm memmap state [] (a / 4096 * 4096) → s'.word a ≡ state.word a))
paging_create_address_space_example =
    paging_create_address_space_lem hhdm memmap state [] space memmap-AllFit (omega arith)
      state-IsPool (refl, outside space.pml4 (omega arith))

all-Tables :
    Tables hhdm memmap state []
      (0xFFFF800000403000 ∷ 0xFFFF800000402000 ∷ 0xFFFF800000401000 ∷ space.pml4 ∷ [])
all-Tables = record {
  pool = state-IsPool;
  each = (
    (refl, outside 0xFFFF800000403000 (omega arith)),
    (
      (refl, outside 0xFFFF800000402000 (omega arith)),
      ((refl, outside 0xFFFF800000401000 (omega arith)), root-Tables.each),
    ),
  );
  distinct = (
    (omega arith, (omega arith, (omega arith, tt))),
    ((omega arith, (omega arith, tt)), ((omega arith, tt), (tt, tt))),
  );
}

route :
    Route hhdm state.word space.pml4 0x3000 0xFFFF800000401000 0xFFFF800000402000 0xFFFF800000403000
unfolding is_present next_table phys_to_virt
route = record {
  first = record { present = refl; next = refl };
  second = record { present = refl; next = refl };
  third = record { present = refl; next = refl };
}

vmm_unmap_example :
    ((v : ℕ)
      → v / 4096 ≡ 3
      → vmm_virt_to_phys_as hhdm space v (vmm_unmap hhdm space 0x3000 state).word ≡ negsuc 3)
    × ((a : ℕ)
        → a ≢ entry_at 0xFFFF800000403000 (pt_index 0x3000)
        → (vmm_unmap hhdm space 0x3000 state).word a ≡ state.word a)
vmm_unmap_example =
    vmm_unmap_lem hhdm memmap state [] space 0x3000 0xFFFF800000401000 0xFFFF800000402000
      0xFFFF800000403000 all-Tables route

abbrev bottom : UserStack
bottom = record { user_stack_bottom = 0x7FFFFFFFF000; user_stack_bottom_max = 0x7FFFFFF00000 }
