-- ===== src/Memory/Heap/Layout.antt =====
-- Where the blocks of the kernel heap (`src/memory/heap.c`) lie, and what its search finds.
use reddyos_osdev.Base.{
  ℕ, zero, suc, ◌+◌, ◌*◌, ◌/◌, ◌%◌, ◌^◌, ◌≤◌, ◌<◌, ◌≡◌, refl, Bool, true, false, Option, none, some,
  some-injective, List, [], ◌∷◌, ◌==◌, leb, not, ◌&&◌, if◌then◌else◌, arith, length, Bool-cases,
  inl, inr, ◌⊎◌,
}
use reddyos_osdev.Base.Bits.{bit_and-ones, bit_and_field}
use reddyos_osdev.Base.Outcome.{done}
use reddyos_osdev.Memory.Page.{add64}
use reddyos_osdev.Memory.Heap.{
  Block, Heap, block_magic, heap_start, put_block, block_is_valid, round_size, first_fit,
}

-- From `p` the links lead through `xs` to NULL. Every block is a run of pages below `bound`, and an
-- unmapped page separates it from the block that was made after it.
abbrev pub Chain : (ℕ → Block) → ℕ → ℕ → List ℕ → Type 0
Chain m p bound [] = p ≡ 0
Chain m p bound (x ∷ xs) =
    (p ≡ x)
    × ((m x).magic ≡ block_magic)
    × (x % 4096 ≡ 0)
    × (heap_start ≤ x)
    × (x + 32 + (m x).size + 4096 ≤ bound)
    × Chain m (m x).next x xs

pub record Holds {S : Type 0} (h : Heap S) (xs : List ℕ) : Type 0 where
  pub chain : Chain h.block h.head h.cursor xs
  pub aligned : h.cursor % 4096 ≡ 0
  pub low : heap_start ≤ h.cursor
  pub high : h.cursor < 2 ^ 64

-- The first block of the list that is free and large enough.
unfoldable pub fit : (ℕ → Block) → ℕ → List ℕ → Option ℕ
fit m size [] = none
fit m size (x ∷ xs) = if (m x).free && leb size (m x).size then some x else fit m size xs

abbrev pub Member : ℕ → List ℕ → Type 0
Member a [] = ⊥
Member a (x ∷ xs) = (a ≡ x) ⊎ Member a xs

valid_of_parts :
    (m : ℕ → Block) (x : ℕ)
    → (m x).magic ≡ block_magic
    → x % 4096 ≡ 0
    → heap_start ≤ x
    → block_is_valid m x ≡ true
unfolding block_is_valid
valid_of_parts m x k a l = ground (arith, bit_and-ones 12 x)

next_is_valid :
    (m : ℕ → Block) (p bound : ℕ) (xs : List ℕ)
    → Chain m p bound xs
    → (not (block_is_valid m p) && not (p == 0)) ≡ false
next_is_valid m p bound [] c = unfold block_is_valid in rw c
next_is_valid m p bound (x ∷ xs) c = rw (c.0, valid_of_parts m x c.1 c.2 c.3)

-- The checks of `kmalloc` on the blocks that it meets never stop its search early.
pub first_fit_lem :
    (m : ℕ → Block) (size fuel p bound : ℕ) (xs : List ℕ)
    → Chain m p bound xs
    → length xs < fuel
    → first_fit m size fuel p ≡ done (fit m size xs)
unfolding first_fit fit
first_fit_lem m size zero p bound xs c h = absurd (omega arith)
first_fit_lem m size (suc fuel) p bound [] c h = rw c
first_fit_lem m size (suc fuel) p bound (x ∷ xs) c h =
    let here : (x == 0) ≡ false = ground (arith, c.3) in
    rw
      (
        c.0,
        here,
        valid_of_parts m x c.1 c.2 c.3,
        next_is_valid m (m x).next x xs c.5,
        first_fit_lem m size fuel (m x).next x xs c.5 (omega arith),
      )
      (ground arith)

pub fit-Member :
    (m : ℕ → Block) (size : ℕ) (xs : List ℕ) (a : ℕ)
    → fit m size xs ≡ some a
    → Member a xs × ((m a).free ≡ true) × (size ≤ (m a).size)
unfolding fit
fit-Member m size [] a h = cc
fit-Member m size (x ∷ xs) a h = elim (Bool-cases ((m x).free && leb size (m x).size)) [
  | inl here ↦
      let e : x ≡ a = some-injective x a (rw here at h) in
      rw (← e) (inl refl, ground (arith, here), ground (arith, here))
  | inr later ↦ let r = fit-Member m size xs a (rw later at h) in (inr r.0, r.1, r.2)
]

pub Member-bounds :
    (m : ℕ → Block) (p bound a : ℕ) (xs : List ℕ)
    → Chain m p bound xs
    → Member a xs
    → ((m a).magic ≡ block_magic)
      × (a % 4096 ≡ 0)
      × (heap_start ≤ a)
      × (a + 32 + (m a).size + 4096 ≤ bound)
Member-bounds m p bound a [] c h = absurd h
Member-bounds m p bound a (x ∷ xs) c (inl e) = rw e (c.1, c.2, c.3, c.4)
Member-bounds m p bound a (x ∷ xs) c (inr h) =
    let r = Member-bounds m (m x).next x a xs c.5 h in (r.0, r.1, r.2, omega (arith, r.3, c.4))

pub valid_of_Member :
    (m : ℕ → Block) (p bound a : ℕ) (xs : List ℕ)
    → Chain m p bound xs
    → Member a xs
    → block_is_valid m a ≡ true
valid_of_Member m p bound a xs c h =
    let r = Member-bounds m p bound a xs c h in valid_of_parts m a r.0 r.1 r.2

-- Marking a block free or used leaves the list as it is.
pub set_free-Chain :
    (m : ℕ → Block) (a : ℕ) (f : Bool) (p bound : ℕ) (xs : List ℕ)
    → Chain m p bound xs
    → Chain (put_block m a (record (m a) { free = f })) p bound xs
set_free-Chain m a f p bound [] c = c
set_free-Chain m a f p bound (x ∷ xs) c =
    let same_size : (put_block m a (record (m a) { free = f }) x).size ≡ (m x).size =
      ground arith in
    let same_next : (put_block m a (record (m a) { free = f }) x).next ≡ (m x).next =
      ground arith in
    (
      c.0,
      ground (arith, c.1),
      c.2,
      c.3,
      rw same_size c.4,
      rw same_next (set_free-Chain m a f (m x).next x xs c.5),
    )

-- A new block at or above the bound leaves the list below as it is.
pub put_above-Chain :
    (m : ℕ → Block) (a : ℕ) (b : Block) (p bound : ℕ) (xs : List ℕ)
    → bound ≤ a
    → Chain m p bound xs
    → Chain (put_block m a b) p bound xs
put_above-Chain m a b p bound [] h c = c
put_above-Chain m a b p bound (x ∷ xs) h c =
    let other : put_block m a b x ≡ m x = ground (arith, c.4) in
    (
      c.0,
      rw other c.1,
      c.2,
      c.3,
      rw other c.4,
      rw other (put_above-Chain m a b (m x).next x xs (omega (arith, c.4)) c.5),
    )

pub round_size_lem : (size : ℕ) → size + 15 < 2 ^ 64 → round_size size ≡ (size + 15) / 16 * 16
unfolding round_size
round_size_lem size h = omega (arith, bit_and_field 4 60 (add64 size 15))
