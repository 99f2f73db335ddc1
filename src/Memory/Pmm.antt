-- ===== src/Memory/Pmm.antt =====
-- The page allocator (`src/memory/pmm.c`): a free list threaded through the free pages, filled on
-- demand from the boot loader's memory map.
pub mod FreeList
pub mod Regions
pub mod Visit
pub mod Fill
pub mod Alloc
pub mod Usable
pub mod Owned
pub mod Handed
use reddyos_osdev.Base.{
  ℕ, zero, suc, ◌+◌, ◌-◌, ◌^◌, Bool, Option, none, some, List, ◌==◌, leb, ltb, not, length,
  get_elem?, if◌then◌else◌,
}
use reddyos_osdev.Base.Outcome.{Outcome, done, panic, out_of_fuel}
use reddyos_osdev.Memory.Page.{page_size, add64, sub64, align_up, align_down}
use reddyos_osdev.Memory.Store.{Words, write, clear_page, phys_to_virt, virt_to_phys}

-- `struct limine_memmap_entry`; the type is the boot loader's number.
pub record Entry : Type 0 where
  pub base : ℕ
  pub span : ℕ
  pub kind : ℕ

abbrev pub limine_memmap_usable : ℕ
limine_memmap_usable = 0

-- The file's three variables, and the memory that holds the list's links.
pub record Pmm : Type 0 where
  pub word : Words
  pub head : ℕ
  pub fill_entry : ℕ
  pub fill_offset : ℕ

unfoldable pub aligned_start : Entry → ℕ
aligned_start e =
    let start = align_up e.base page_size in if ltb start 0x100000 then 0x100000 else start

unfoldable pub aligned_end : Entry → ℕ
aligned_end e = align_down (add64 e.base e.span) page_size

abbrev pub next_entry : Pmm → Pmm
next_entry s = record s { fill_entry = s.fill_entry + 1; fill_offset = 0 }

-- `if (fill_offset == 0) fill_offset = aligned_start - entry->base`.
unfoldable pub start_entry : Entry → Pmm → Pmm
start_entry e s =
    if s.fill_offset == 0 then record s { fill_offset = sub64 (aligned_start e) e.base } else s

-- The advance at the end of a round.
unfoldable pub finish_entry : Entry → Pmm → Pmm
finish_entry e s =
    if ltb (aligned_end e) (add64 (add64 e.base s.fill_offset) page_size) then next_entry s else s

module _ (hhdm : ℕ) where
  -- `node->next = head; head = node`.
  unfoldable pub push_page : ℕ → Pmm → Pmm
  push_page page s =
      let node = phys_to_virt hhdm page in record s { word = write s.word node s.head; head = node }

  unfoldable pub free_page : ℕ → Pmm → Pmm
  free_page page s = push_page page s

  -- The inner loop of `pmm_fill`; the number is `pages - pages_added`, and what is left of it
  -- comes back.
  unfoldable pub fill_pages : Entry → ℕ → Pmm → ℕ × Pmm
  fill_pages e zero s = (zero, s)
  fill_pages e (suc left) s =
      let page = add64 e.base s.fill_offset in
      let rest =
        fill_pages e left
          (record (push_page page s) { fill_offset = add64 s.fill_offset page_size }) in
      if leb (add64 page page_size) (aligned_end e) then rest else (suc left, s)

  -- One round of the outer loop of `pmm_fill`.
  unfoldable pub visit : Entry → ℕ → Pmm → ℕ × Pmm
  visit e left s =
      if not (e.kind == limine_memmap_usable)
      then (left, next_entry s)
      else if leb (aligned_end e) (aligned_start e)
      then (left, next_entry s)
      else let (left', s') = fill_pages e left (start_entry e s) in (left', finish_entry e s')

  -- The part of `pmm_alloc_page` after the list has been filled.
  unfoldable pub take_page : Pmm → Outcome (ℕ × Pmm)
  take_page s =
      if s.head == 0
      then panic
      else let node = s.head in
        done
          (virt_to_phys hhdm node, record s { word = clear_page s.word node; head = s.word node })

  module _ (entries : List Entry) where
    unfoldable pub fill_loop : ℕ → ℕ → Pmm → Outcome Pmm
    fill_loop zero left s = out_of_fuel
    fill_loop (suc fuel) left s = elim (get_elem? entries s.fill_entry) [
      | none ↦ done s
      | some e ↦
          let (left', s') = visit e left s in
          let rest = fill_loop fuel left' s' in if left == 0 then done s else rest
    ]

    -- Each round ends an entry or the quota, so the entries and one round more are enough.
    unfoldable pub fill : ℕ → Pmm → Outcome Pmm
    fill pages s = fill_loop (length entries + 2) pages s

    unfoldable pub alloc_page : Pmm → Outcome (ℕ × Pmm)
    alloc_page s =
        if s.head == 0
        then elim (fill 512 s) [
          | done s' ↦ take_page s'
          | panic ↦ panic
          | out_of_fuel ↦ out_of_fuel
        ]
        else take_page s
