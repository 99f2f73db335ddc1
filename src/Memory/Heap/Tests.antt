-- ===== src/Memory/Heap/Tests.antt =====
-- Runs of the kernel heap (`src/memory/heap.c`).
use reddyos_osdev.Base.{
  ℕ, ◌+◌, ◌*◌, ◌≤◌, ◌≡◌, ◌≢◌, refl, true, false, [], ◌∷◌, ◌==◌, if◌then◌else◌, arith, inl,
}
use reddyos_osdev.Base.Outcome.{Outcome, done}
use reddyos_osdev.Memory.Heap.{
  Block, Heap, block_magic, heap_start, kmalloc, kfree, round_size, first_fit, block_is_valid,
}
use reddyos_osdev.Memory.Heap.Layout.{Holds, fit}
use reddyos_osdev.Memory.Heap.Alloc.{kfree_lem, kmalloc_grow}

-- Pages are given in ascending order.
abbrev next_page : ℕ → Outcome (ℕ × ℕ)
next_page n = done (n, n + 4096)

abbrev map_nothing : ℕ → ℕ → ℕ → ℕ
map_nothing virt phys n = n

abbrev no_block : Block
no_block = record { magic = 0; size = 0; free = false; next = 0 }

abbrev empty_heap : Heap ℕ
empty_heap = record {
  block = λ _. no_block;
  byte = λ _. 9;
  head = 0;
  cursor = heap_start;
  pages = 4096;
}

empty_heap-Holds : Holds empty_heap []
empty_heap-Holds = record { chain = refl; aligned = refl; low = omega arith; high = omega arith }

abbrev one_block : Heap ℕ
one_block = record {
  block = λ a.
      if a == heap_start
      then record { magic = block_magic; size = 4064; free = true; next = 0 }
      else no_block;
  byte = λ _. 9;
  head = heap_start;
  cursor = heap_start + 8192;
  pages = 8192;
}

one_block-Holds : Holds one_block (heap_start ∷ [])
one_block-Holds = record {
  chain = (refl, refl, refl, omega arith, omega arith, refl);
  aligned = refl;
  low = omega arith;
  high = omega arith;
}

round_size_100 : round_size 100 ≡ 112
unfolding round_size
round_size_100 = refl

kfree_example :
    Holds (kfree (heap_start + 32) one_block) (heap_start ∷ [])
    × (((kfree (heap_start + 32) one_block).block heap_start).free ≡ true)
    × ((b : ℕ) → b ≢ heap_start → (kfree (heap_start + 32) one_block).block b ≡ one_block.block b)
kfree_example = kfree_lem one_block (heap_start ∷ []) heap_start one_block-Holds (inl refl)

round_size_5000 : round_size 5000 ≡ 5008
unfolding round_size
round_size_5000 = refl

kmalloc_grow_example :
    (h' : Heap ℕ) × (kmalloc next_page map_nothing 2 5000 one_block
      ≡ done (one_block.cursor + 32, h'))
    × Holds h' (one_block.cursor ∷ heap_start ∷ [])
    × ((h'.block one_block.cursor).free ≡ false)
    × (5000 ≤ (h'.block one_block.cursor).size)
    × (round_size 5000 ≤ (h'.block one_block.cursor).size)
    × ((b : ℕ) → b ≢ one_block.cursor → h'.block b ≡ one_block.block b)
kmalloc_grow_example =
    kmalloc_grow next_page map_nothing one_block (heap_start ∷ []) 2 5000 one_block-Holds
      (omega arith) (rw round_size_5000 (unfold fit in refl))
      (rw round_size_5000 (8192, 12288, refl, omega arith, (12288, 16384, refl, omega arith, tt)))
      (omega arith) (rw round_size_5000 (omega arith))

abbrev used : Heap ℕ
used = record one_block {
  block = λ a.
      if a == heap_start
      then record (one_block.block heap_start) { free = false }
      else one_block.block a;
}

kmalloc_run : kmalloc next_page map_nothing 2 (4 * 10) one_block ≡ done (heap_start + 32, used)
unfolding kmalloc first_fit round_size block_is_valid
kmalloc_run = refl
