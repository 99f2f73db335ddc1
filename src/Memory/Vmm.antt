-- ===== src/Memory/Vmm.antt =====
-- The page tables (`src/memory/vmm.c`, `headers/memory/vmm.h`): four levels of 512 words, walked and
-- extended in the kernel's view of memory, with tables from the page allocator. The state is the
-- allocator's, whose memory holds the tables too; the invalidation of cached translations has no
-- part in it.
pub mod Entries
pub mod Walk
pub mod Mapping
pub mod Space
mod Tests
use Prim.Native.Nat.{bit_and, bit_or}
use reddyos_osdev.Base.{
  ℕ, zero, suc, ◌+◌, ◌-◌, ◌*◌, ◌/◌, ◌^◌, Bool, List, ◌==◌, leb, ltb, not, if◌then◌else◌,
}
use reddyos_osdev.Base.Int.{ℤ, pos, negsuc}
use reddyos_osdev.Base.Outcome.{Outcome, done, panic, ◌>>=◌}
use reddyos_osdev.Memory.Page.{page_size}
use reddyos_osdev.Memory.Store.{Words, write, clear_page, phys_to_virt, virt_to_phys}
use reddyos_osdev.Memory.Pmm.{Entry, Pmm, alloc_page, free_page}

abbrev pub page_present : ℕ
page_present = 1

abbrev pub page_writable : ℕ
page_writable = 2

abbrev pub page_user : ℕ
page_user = 4

abbrev pub page_wthru : ℕ
page_wthru = 8

abbrev pub page_nocache : ℕ
page_nocache = 16

abbrev pub page_nx : ℕ
page_nx = 2 ^ 63

abbrev pub page_mask : ℕ
page_mask = 0x000FFFFFFFFFF000

abbrev pub pml4_index : ℕ → ℕ
pml4_index x = bit_and (x / 2 ^ 39) 0x1FF

abbrev pub pdpt_index : ℕ → ℕ
pdpt_index x = bit_and (x / 2 ^ 30) 0x1FF

abbrev pub pd_index : ℕ → ℕ
pd_index x = bit_and (x / 2 ^ 21) 0x1FF

abbrev pub pt_index : ℕ → ℕ
pt_index x = bit_and (x / 2 ^ 12) 0x1FF

-- `address_space_t`.
pub record AddressSpace : Type 0 where
  pub pml4 : ℕ
  pub cr3 : ℕ

-- `&table[index]`.
abbrev pub entry_at : ℕ → ℕ → ℕ
entry_at table index = table + 8 * index

abbrev pub put : Pmm → ℕ → ℕ → Pmm
put s a v = record s { word = write s.word a v }

unfoldable pub sanitize_flags : ℕ → ℕ → ℕ
sanitize_flags flags level =
    if level == 0
    then bit_and flags page_present
    else if level == 1
    then bit_and flags (bit_or page_present page_user)
    else if level == 2
    then bit_and flags (bit_or (bit_or page_present page_user) page_writable)
    else flags

-- The entry that `get_next` stores for a new table.
unfoldable pub table_entry : ℕ → ℕ → ℕ
table_entry phys flags =
    bit_or (bit_or (bit_or phys page_present) page_writable)
      (bit_and flags (bit_or (bit_or page_user page_wthru) page_nocache))

-- The entry that `vmm_map` stores.
unfoldable pub page_entry : ℕ → ℕ → ℕ → ℕ
page_entry cpu_page_mask phys flags =
    bit_or (bit_or (bit_and phys cpu_page_mask) page_present) flags

unfoldable pub is_present : ℕ → Bool
is_present entry = not (bit_and entry page_present == 0)

-- The loop of `paging_copy_kernel_half`, with the rounds left.
unfoldable pub copy_entries : ℕ → ℕ → ℕ → ℕ → Pmm → Pmm
copy_entries kernel pml4 zero i s = s
copy_entries kernel pml4 (suc left) i s =
    copy_entries kernel pml4 left (i + 1) (put s (entry_at pml4 i) (s.word (entry_at kernel i)))

unfoldable pub paging_copy_kernel_half : AddressSpace → AddressSpace → Pmm → Pmm
paging_copy_kernel_half kernel space s = copy_entries kernel.pml4 space.pml4 256 256 s

module _ (hhdm : ℕ) where
  -- `phys_to_virt(table[index] & PAGE_MASK)`.
  unfoldable pub next_table : Words → ℕ → ℕ → ℕ
  next_table w table index = phys_to_virt hhdm (bit_and (w (entry_at table index)) page_mask)

  unfoldable pub vmm_unmap : AddressSpace → ℕ → Pmm → Pmm
  vmm_unmap space virt s =
      let pdpt = next_table s.word space.pml4 (pml4_index virt) in
      let pd = next_table s.word pdpt (pdpt_index virt) in
      let pt = next_table s.word pd (pd_index virt) in put s (entry_at pt (pt_index virt)) 0

  -- The codes from -1 to -4 say at which level nothing is present.
  unfoldable pub vmm_virt_to_phys_as : AddressSpace → ℕ → Words → ℤ
  vmm_virt_to_phys_as space virt w =
      let pdpt = next_table w space.pml4 (pml4_index virt) in
      let pd = next_table w pdpt (pdpt_index virt) in
      let pt = next_table w pd (pd_index virt) in
      let entry = w (entry_at pt (pt_index virt)) in
      if not (is_present (w (entry_at space.pml4 (pml4_index virt))))
      then negsuc 0
      else if not (is_present (w (entry_at pdpt (pdpt_index virt))))
      then negsuc 1
      else if not (is_present (w (entry_at pd (pd_index virt))))
      then negsuc 2
      else if not (is_present entry)
      then negsuc 3
      else pos (bit_or (bit_and entry page_mask) (bit_and virt 0xFFF))

  -- 0 stands for NULL.
  unfoldable pub vmm_lookup : AddressSpace → ℕ → Words → ℕ
  vmm_lookup kernel virt w = elim (vmm_virt_to_phys_as kernel virt w) [
    | pos phys ↦ phys
    | negsuc code ↦ 0
  ]

  unfoldable pub vmm_lookup_ap : AddressSpace → ℕ → Words → ℕ
  vmm_lookup_ap space virt w = elim (vmm_virt_to_phys_as space virt w) [
    | pos phys ↦ if phys == 0 then 0 else phys_to_virt hhdm phys
    | negsuc code ↦ 0
  ]

  module _ (entries : List Entry) where
    unfoldable pub alloc_table : Pmm → Outcome (ℕ × Pmm)
    alloc_table s = do
      r ← alloc_page hhdm entries s
      let table = phys_to_virt hhdm r.0
      done (table, record (r.1) { word = clear_page ((r.1).word) table })

    -- The entry is filled first if it is not present.
    unfoldable pub fill_entry : ℕ → ℕ → ℕ → Pmm → Outcome Pmm
    fill_entry table index flags s =
        if is_present (s.word (entry_at table index)) then done s else do
          r ← alloc_table s
          done (put (r.1) (entry_at table index) (table_entry (virt_to_phys hhdm r.0) flags))

    unfoldable pub get_next : ℕ → ℕ → ℕ → Pmm → Outcome (ℕ × Pmm)
    get_next table index flags s = do
      s' ← fill_entry table index flags s
      done (next_table s'.word table index, s')

    unfoldable pub vmm_map : ℕ → AddressSpace → ℕ → ℕ → ℕ → Pmm → Outcome Pmm
    vmm_map cpu_page_mask space virt phys flags s = if ltb cpu_page_mask phys then panic else do
      pdpt ← get_next space.pml4 (pml4_index virt) (sanitize_flags flags 1) s
      pd ← get_next pdpt.0 (pdpt_index virt) (sanitize_flags flags 2) pdpt.1
      pt ← get_next pd.0 (pd_index virt) (sanitize_flags flags 3) pd.1
      done (put (pt.1) (entry_at pt.0 (pt_index virt)) (page_entry cpu_page_mask phys flags))

    unfoldable pub paging_create_address_space : AddressSpace → Pmm → Outcome (AddressSpace × Pmm)
    paging_create_address_space kernel s = do
      r ← alloc_page hhdm entries s
      let pml4 = phys_to_virt hhdm r.0
      let space : AddressSpace = record { pml4 = pml4; cr3 = virt_to_phys hhdm pml4 }
      let cleared : Pmm = record (r.1) { word = clear_page ((r.1).word) pml4 }
      done (space, paging_copy_kernel_half kernel space cleared)
