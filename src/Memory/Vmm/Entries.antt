-- ===== src/Memory/Vmm/Entries.antt =====
-- What the words of the page tables say (`src/memory/vmm.c`).
use Prim.Native.Nat.{bit_and, bit_or}
use reddyos_osdev.Base.{ℕ, ◌+◌, ◌*◌, ◌/◌, ◌%◌, ◌^◌, ◌<◌, ◌≡◌, ◌∙◌, refl, ap, true, arith}
use reddyos_osdev.Base.Bits.{
  bit, bit-bit_or, bit_and-ones, bit_and_field, bit_and-bit_or, bit_and_assoc, bit_and-zero,
  bit_or-zero, bit_or-add,
}
use reddyos_osdev.Memory.Vmm.{page_mask, table_entry, page_entry, is_present}

pub index_bound : (x : ℕ) → bit_and x 0x1FF < 512
index_bound x = omega (arith, bit_and-ones 9 x)

odd_present : (e : ℕ) → e % 2 ≡ 1 → is_present e ≡ true
unfolding is_present
odd_present e h = ground (arith, bit_and-ones 1 e)

or_odd : (a b : ℕ) → a % 2 ≡ 1 → bit_or a b % 2 ≡ 1
unfolding bit
or_odd a b h = omega (arith, bit-bit_or 0 a b)

or_one : (a : ℕ) → bit_or a 1 % 2 ≡ 1
unfolding bit
or_one a = omega (arith, bit-bit_or 0 a 1)

pub table_entry_present : (p f : ℕ) → is_present (table_entry p f) ≡ true
unfolding table_entry
table_entry_present p f = odd_present _ (or_odd _ _ (or_odd _ 2 (or_one p)))

pub page_entry_present : (m p f : ℕ) → is_present (page_entry m p f) ≡ true
unfolding page_entry
page_entry_present m p f = odd_present _ (or_odd _ f (or_one (bit_and p m)))

mask_page : (p : ℕ) → p % 4096 ≡ 0 → p < 2 ^ 52 → bit_and p page_mask ≡ p
mask_page p a h = omega (arith, bit_and_field 12 40 p)

-- Bits that the mask drops can be added.
mask_or : (a b : ℕ) → bit_and b page_mask ≡ 0 → bit_and (bit_or a b) page_mask ≡ bit_and a page_mask
mask_or a b h =
    bit_and-bit_or a b page_mask
    ∙ ap (bit_or (bit_and a page_mask)) h
    ∙ bit_or-zero (bit_and a page_mask)

pub table_entry_mask :
    (p f : ℕ) → p % 4096 ≡ 0 → p < 2 ^ 52 → bit_and (table_entry p f) page_mask ≡ p
unfolding table_entry
table_entry_mask p f a h =
    mask_or _ _ (bit_and_assoc f 28 page_mask ∙ bit_and-zero f)
    ∙ mask_or (bit_or p 1) 2 refl
    ∙ mask_or p 1 refl
    ∙ mask_page p a h

pub page_entry_mask :
    (m p f : ℕ)
    → p % 4096 ≡ 0
    → p < 2 ^ 52
    → bit_and p m ≡ p
    → bit_and f page_mask ≡ 0
    → bit_and (page_entry m p f) page_mask ≡ p
unfolding page_entry
page_entry_mask m p f a h inside flags =
    mask_or _ f flags
    ∙ mask_or (bit_and p m) 1 refl
    ∙ ap (λ q. bit_and q page_mask) inside
    ∙ mask_page p a h

-- The address of a byte of a page.
pub page_or-offset : (p v : ℕ) → p % 4096 ≡ 0 → bit_or p (bit_and v 0xFFF) ≡ p + v % 4096
page_or-offset p v a =
    ap (bit_or p) (bit_and-ones 12 v)
    ∙ ap (λ q. bit_or q (v % 4096)) {x = p} {y = p / 4096 * 2 ^ 12} (omega arith)
    ∙ bit_or-add 12 (p / 4096) (v % 4096) (omega arith)
    ∙ omega arith
