-- ===== src/Memory/Heap.antt =====
-- The kernel heap (`src/memory/heap.c`), in the build without `KMALLOC_CANARY`: a list of blocks,
-- one to each run of pages, with an unmapped guard page behind every run.
pub mod Layout
pub mod Alloc
mod Tests
use Prim.Native.Nat.{bit_and}
use reddyos_osdev.Base.{
  ℕ, zero, suc, ◌+◌, ◌-◌, ◌*◌, ◌/◌, ◌%◌, ◌^◌, Bool, true, false, Option, none, some, ◌==◌, leb, ltb,
  not, ◌&&◌, if◌then◌else◌,
}
use reddyos_osdev.Base.Outcome.{Outcome, done, panic, out_of_fuel, ◌>>=◌}
use reddyos_osdev.Memory.Page.{page_size, add64, sub64, not64, u64}

abbrev pub block_magic : ℕ
block_magic = 0x52454444594F5348

abbrev pub heap_start : ℕ
heap_start = 0xFFFFC00000000000

-- `sizeof(block_t)`.
abbrev pub header_size : ℕ
header_size = 32

-- `block_t`.
pub record Block : Type 0 where
  pub magic : ℕ
  pub size : ℕ
  pub free : Bool
  pub next : ℕ

-- The two variables of the file, the headers by address, the bytes by address, and the state of
-- what the pages come from.
pub record Heap (S : Type 0) : Type 0 where
  pub block : ℕ → Block
  pub byte : ℕ → ℕ
  pub head : ℕ
  pub cursor : ℕ
  pub pages : S

abbrev pub put_block : (ℕ → Block) → ℕ → Block → ℕ → Block
put_block m a b x = if x == a then b else m x

unfoldable pub block_is_valid : (ℕ → Block) → ℕ → Bool
block_is_valid m a =
    not (a == 0) && (bit_and a (page_size - 1) == 0) && ((m a).magic == block_magic)

-- `size = (size + 15) & ~15`.
unfoldable pub round_size : ℕ → ℕ
round_size size = bit_and (add64 size 15) (not64 15)

-- The search of `kmalloc`: the address of the first free block that is large enough.
unfoldable pub first_fit : (ℕ → Block) → ℕ → ℕ → ℕ → Outcome (Option ℕ)
first_fit m size zero cur = out_of_fuel
first_fit m size (suc fuel) cur =
    let rest = first_fit m size fuel (m cur).next in
    if cur == 0
    then done none
    else if not (block_is_valid m cur)
    then done none
    else if (m cur).free && leb size (m cur).size
    then done (some cur)
    else if not (block_is_valid m (m cur).next) && not ((m cur).next == 0)
    then done none
    else rest

-- `memset(ptr, 0, total)`.
unfoldable pub clear_bytes : (ℕ → ℕ) → ℕ → ℕ → ℕ → ℕ
clear_bytes m p total a = if leb p a && ltb a (p + total) then 0 else m a

module _ {S : Type 0} where
  unfoldable pub kfree : ℕ → Heap S → Heap S
  kfree ptr h =
      if ptr == 0
      then h
      else let a = sub64 ptr header_size in
        if block_is_valid h.block a
        then record h { block = put_block h.block a (record (h.block a) { free = true }) }
        else h

  -- `pmm_alloc_page` and `map_page`, with the flags `PAGE_WRITABLE | PAGE_NX`.
  module _ (alloc_page : S → Outcome (ℕ × S)) (map_page : ℕ → ℕ → S → S) where
    unfoldable pub map_run : ℕ → ℕ → S → Outcome (Bool × ℕ × S)
    map_run zero cursor s = done (true, cursor, s)
    map_run (suc n) cursor s = do
      r ← alloc_page s
      if r.0 == 0
          then done (false, cursor, r.1)
          else map_run n (add64 cursor page_size) (map_page cursor r.0 r.1)

    -- The address of the run, or 0.
    unfoldable pub request_pages : ℕ → Heap S → Outcome (ℕ × Heap S)
    request_pages n h = do
      r ← map_run n h.cursor h.pages
      if r.0
          then done (h.cursor, record h { cursor = add64 r.1 page_size; pages = r.2 })
          else done (0, record h { cursor = r.1; pages = r.2 })

    -- The part of `kmalloc` behind its search.
    unfoldable pub new_block : ℕ → Heap S → Outcome (ℕ × Heap S)
    new_block size h = do
      let pages = add64 (add64 header_size size) (page_size - 1) / page_size
      r ← request_pages pages h
      let b : Block = record {
        magic = block_magic;
        size = sub64 (u64 (pages * page_size)) header_size;
        free = false;
        next = (r.1).head;
      }
      if r.0 == 0
          then done r
          else done (
            add64 r.0 header_size,
            record (r.1) { block = put_block (r.1).block r.0 b; head = r.0 },
          )

    unfoldable pub kmalloc : ℕ → ℕ → Heap S → Outcome (ℕ × Heap S)
    kmalloc fuel size h = do
      let size' = round_size size
      found ← first_fit h.block size' fuel h.head
      elim found [
        | none ↦ new_block size' h
        | some a ↦ done (
          add64 a header_size,
          record h { block = put_block h.block a (record (h.block a) { free = false }) },
        )
      ]

    unfoldable pub kcalloc : ℕ → ℕ → ℕ → Heap S → Outcome (ℕ × Heap S)
    kcalloc fuel count size h =
        if not (size == 0) && ltb ((2 ^ 64 - 1) / size) count then done (0, h) else do
          let total = u64 (count * size)
          r ← kmalloc fuel total h
          if r.0 == 0
              then done r
              else done (r.0, record (r.1) { byte = clear_bytes ((r.1).byte) r.0 total })
