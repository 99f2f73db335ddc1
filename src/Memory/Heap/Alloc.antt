-- ===== src/Memory/Heap/Alloc.antt =====
-- `kmalloc`, `kcalloc` and `kfree` (`src/memory/heap.c`) on the list of blocks.
use reddyos_osdev.Base.{
  ℕ, zero, suc, ◌+◌, ◌-◌, ◌*◌, ◌/◌, ◌^◌, ◌≤◌, ◌<◌, ◌≡◌, ◌≢◌, ◌∙◌, refl, ap, true, false, none, some,
  List, ◌∷◌, ◌==◌, ltb, lt→ltb, not, ◌&&◌, arith, length,
}
use reddyos_osdev.Base.Outcome.{Outcome, done}
use reddyos_osdev.Base.Bits.{bit_and_field}
use reddyos_osdev.Memory.Page.{page_size, add64, sub64, u64}
use reddyos_osdev.Memory.Heap.{
  Block, Heap, block_magic, put_block, round_size, kfree, map_run, request_pages, new_block,
  kmalloc, kcalloc, clear_bytes,
}
use reddyos_osdev.Memory.Heap.Layout.{
  Holds, fit, Member, first_fit_lem, fit-Member, Member-bounds, valid_of_Member, set_free-Chain,
  put_above-Chain,
}

div-lt : (a b c : ℕ) → b ≢ 0 → a < c * b → a / b < c
div-lt a b c nz h = grind arith

le-div : (a b c : ℕ) → b ≢ 0 → c * b ≤ a → c ≤ a / b
le-div a b c nz h = grind arith

-- The rounded size is no smaller than the size, unless the sum wraps round.
round_size_le : (size : ℕ) → size + 15 < 2 ^ 64 → size ≤ round_size size
unfolding round_size
round_size_le size h = omega (arith, h, bit_and_field 4 60 (add64 size 15))

module _ {S : Type 0} where
  -- On a valid heap `kfree` of a block of the list marks that block free, changes no other, and keeps
  -- the heap valid.
  pub kfree_lem :
      (h : Heap S) (xs : List ℕ) (a : ℕ)
      → Holds h xs
      → Member a xs
      → Holds (kfree (a + 32) h) xs
        × (((kfree (a + 32) h).block a).free ≡ true)
        × ((b : ℕ) → b ≢ a → (kfree (a + 32) h).block b ≡ h.block b)
  unfolding kfree
  kfree_lem h xs a v m =
      let r = Member-bounds h.block h.head h.cursor a xs v.chain m in
      let nz : (a + 32 == 0) ≡ false = ground arith in
      let back : sub64 (a + 32) 32 ≡ a = omega (arith, r.2, r.3, v.high) in
      rw (nz, back, valid_of_Member h.block h.head h.cursor a xs v.chain m)
        (
          record {
            chain = set_free-Chain h.block a true h.head h.cursor xs v.chain;
            aligned = v.aligned;
            low = v.low;
            high = v.high;
          },
          ground arith,
          λ b ne. ground (arith, ne),
        )

  module _ (alloc_page : S → Outcome (ℕ × S)) (map_page : ℕ → ℕ → S → S) where
    -- On a valid heap with a free block that is large enough, and with fuel above the number of blocks,
    -- `kmalloc` gives the first such block of the list, marks it used, changes no other block and asks
    -- for no page.
    pub kmalloc_reuse :
        (h : Heap S) (xs : List ℕ) (fuel size a : ℕ)
        → Holds h xs
        → length xs < fuel
        → fit h.block (round_size size) xs ≡ some a
        → (h' : Heap S) × (kmalloc alloc_page map_page fuel size h ≡ done (a + 32, h'))
          × Holds h' xs
          × ((h.block a).free ≡ true)
          × (round_size size ≤ (h.block a).size)
          × (h'.block a ≡ record (h.block a) { free = false })
          × ((b : ℕ) → b ≢ a → h'.block b ≡ h.block b)
          × (h'.pages ≡ h.pages)
    unfolding kmalloc
    kmalloc_reuse h xs fuel size a v enough found =
        let r = fit-Member h.block (round_size size) xs a found in
        let b = Member-bounds h.block h.head h.cursor a xs v.chain r.0 in
        let sum : add64 a 32 ≡ a + 32 = omega (arith, b.3, v.high) in
        (
          record h { block = put_block h.block a (record (h.block a) { free = false }) },
          rw (
            first_fit_lem h.block (round_size size) fuel h.head h.cursor xs v.chain enough,
            found,
            sum,
          ),
          record {
            chain = set_free-Chain h.block a false h.head h.cursor xs v.chain;
            aligned = v.aligned;
            low = v.low;
            high = v.high;
          },
          r.1,
          r.2,
          ground arith,
          λ c ne. ground (arith, ne),
          refl,
        )

    -- The next `n` calls of the page allocator succeed.
    abbrev pub Supplies : ℕ → ℕ → S → Type 0
    Supplies zero cursor s = Unit
    Supplies (suc n) cursor s =
        (p : ℕ) × (s' : S) × (alloc_page s ≡ done (p, s'))
        × (p ≢ 0)
        × Supplies n (cursor + page_size) (map_page cursor p s')

    map_run_lem :
        (n cursor : ℕ) (s : S)
        → Supplies n cursor s
        → cursor + n * 4096 < 2 ^ 64
        → (s' : S) × (map_run alloc_page map_page n cursor s ≡ done (true, cursor + n * 4096, s'))
    unfolding map_run
    map_run_lem zero cursor s sup h = (s, ap (λ c. done (true, c, s)) (omega arith))
    map_run_lem (suc n) cursor s sup h =
        let (p, s1, got, nz, later) = sup in
        let step : add64 cursor page_size ≡ cursor + page_size = omega arith in
        let (s', run) =
          map_run_lem n (cursor + page_size) (map_page cursor p s1) later (omega arith) in
        let test : (p == 0) ≡ false = ground (arith, nz) in
        (
          s',
          rw (got, test)
              (ap (λ c. map_run alloc_page map_page n c (map_page cursor p s1)) step
                ∙ run
                ∙ ap (λ c. done (true, c, s')) (omega arith)),
        )

    abbrev pub pages_for : ℕ → ℕ
    pages_for size = (32 + size + 4095) / 4096

    -- For a size of at most 2 ^ 64 - 16, on a valid heap without a free block that is large enough, when the page allocator supplies the
    -- pages and they lie below the top of the address space, `kmalloc` with fuel above the number of
    -- blocks makes a block from new pages: it begins at the old cursor, holds the size asked for, is used,
    -- stands first in the list, overlaps no block of the list, and every other block is as before.
    pub kmalloc_grow :
        (h : Heap S) (xs : List ℕ) (fuel size : ℕ)
        → Holds h xs
        → length xs < fuel
        → fit h.block (round_size size) xs ≡ none
        → Supplies (pages_for (round_size size)) h.cursor h.pages
        → size + 15 < 2 ^ 64
        → h.cursor + round_size size + 3 * 4096 < 2 ^ 64
        → (h' : Heap S) × (kmalloc alloc_page map_page fuel size h ≡ done (h.cursor + 32, h'))
          × Holds h' (h.cursor ∷ xs)
          × ((h'.block h.cursor).free ≡ false)
          × (size ≤ (h'.block h.cursor).size)
          × (round_size size ≤ (h'.block h.cursor).size)
          × ((b : ℕ) → b ≢ h.cursor → h'.block b ≡ h.block b)
    unfolding kmalloc new_block request_pages
    kmalloc_grow h xs fuel size v enough absent sup proper room =
        let n = pages_for (round_size size) in
        let (s', run) = map_run_lem n h.cursor h.pages sup (omega arith) in
        let count : add64 (add64 32 (round_size size)) (page_size - 1) / page_size ≡ n =
          ap (λ t. t / 4096) (omega arith) in
        let b : Block = record {
          magic = block_magic;
          size = n * 4096 - 32;
          free = false;
          next = h.head;
        } in
        let size' : sub64 (u64 (n * page_size)) 32 ≡ n * 4096 - 32 = omega arith in
        let next : add64 (h.cursor + n * 4096) page_size ≡ h.cursor + n * 4096 + 4096 =
          omega arith in
        let ptr : add64 h.cursor 32 ≡ h.cursor + 32 = omega arith in
        let nz : (h.cursor == 0) ≡ false = ground (arith, v.low) in
        let new : put_block h.block h.cursor b h.cursor ≡ b = ground arith in
        (
          record {
            block = put_block h.block h.cursor b;
            byte = h.byte;
            head = h.cursor;
            cursor = h.cursor + n * 4096 + 4096;
            pages = s';
          },
          rw (
            first_fit_lem h.block (round_size size) fuel h.head h.cursor xs v.chain enough,
            absent,
            count,
            run,
            size',
            next,
            ptr,
            nz,
          ),
          record {
            chain = rw new (
              refl,
              refl,
              v.aligned,
              v.low,
              omega arith,
              put_above-Chain h.block h.cursor b h.head h.cursor xs (omega arith) v.chain,
            );
            aligned = omega (arith, v.aligned);
            low = omega (arith, v.low);
            high = omega arith;
          },
          rw new,
          rw new (omega (arith, round_size_le size proper)),
          rw new (omega arith),
          λ c ne. ground (arith, ne),
        )

    -- `kcalloc` refuses a product that does not fit 64 bits, and leaves the heap alone.
    pub kcalloc_overflow :
        (h : Heap S) (fuel count size : ℕ)
        → size ≢ 0
        → 2 ^ 64 ≤ count * size
        → kcalloc alloc_page map_page fuel count size h ≡ done (0, h)
    unfolding kcalloc
    kcalloc_overflow h fuel count size nz big =
        let over : ltb ((2 ^ 64 - 1) / size) count ≡ true =
          lt→ltb _ _ (div-lt (2 ^ 64 - 1) size count nz (omega arith)) in
        rw over (ground (arith, nz))

    -- What `kcalloc` gives, when the product fits and `kmalloc` gives a block, is cleared.
    pub kcalloc_cleared :
        (h h' : Heap S) (fuel count size p : ℕ)
        → count * size < 2 ^ 64
        → p ≢ 0
        → kmalloc alloc_page map_page fuel (count * size) h ≡ done (p, h')
        → kcalloc alloc_page map_page fuel count size h
            ≡ done (p, record h' { byte = clear_bytes h'.byte p (count * size) })
          × ((a : ℕ) → p ≤ a → a < p + count * size → clear_bytes h'.byte p (count * size) a ≡ 0)
          × ((a : ℕ) → a < p → clear_bytes h'.byte p (count * size) a ≡ h'.byte a)
    unfolding kcalloc clear_bytes
    kcalloc_cleared h h' fuel count size p small nz run =
        let wrap : u64 (count * size) ≡ count * size = omega arith in
        let test : (not (size == 0) && ltb ((2 ^ 64 - 1) / size) count) ≡ false =
          ground (arith, le-div (2 ^ 64 - 1) size count) in
        (
          rw (test, wrap, run) (ground (arith, nz)),
          λ a lo hi. ground (arith, lo, hi),
          λ a lo. ground (arith, lo),
        )
