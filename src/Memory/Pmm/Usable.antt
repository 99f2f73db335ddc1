-- ===== src/Memory/Pmm/Usable.antt =====
-- Where the pages lie that the memory map has for `pmm_fill` (`src/memory/pmm.c`).
use reddyos_osdev.Base.{
  All, All-append, All-map, ℕ, zero, suc, ◌+◌, ◌-◌, ◌*◌, ◌/◌, ◌%◌, ◌^◌, ◌≤◌, ◌<◌, ◌≡◌, ◌⊎◌, inl,
  inr, List, [], ◌∷◌, Bool-cases, arith, ◌==◌, ltb, ◌&&◌,
}
use reddyos_osdev.Memory.Page.{align_up_page, align_down_page}
use reddyos_osdev.Memory.Pmm.{Entry, aligned_start, aligned_end, limine_memmap_usable}
use reddyos_osdev.Memory.Pmm.Regions.{
  page_run, first_page, entry_pages, pages_from, Fits, AllFit, aligned_end-le, aligned_start_bounds,
}

-- The page at `p` lies in a usable entry.
abbrev pub InUsable : List Entry → ℕ → Type 0
InUsable [] p = ⊥
InUsable (e ∷ es) p =
    ((e.kind ≡ limine_memmap_usable) × (e.base ≤ p) × (p + 4096 ≤ e.base + e.span)) ⊎ InUsable es p

abbrev pub IsGoodPage : List Entry → ℕ → Type 0
IsGoodPage entries p = (p % 4096 ≡ 0) × (0x100000 ≤ p) × InUsable entries p

aligned_bounds :
    (e : Entry)
    → Fits e
    → (aligned_start e % 4096 ≡ 0) × (0x100000 ≤ aligned_start e) × (aligned_end e % 4096 ≡ 0)
unfolding aligned_start aligned_end
aligned_bounds e f = (
  ground (arith, align_up_page e.base (omega arith)),
  ground (arith, align_up_page e.base (omega arith)),
  omega (arith, align_down_page ((e.base + e.span) % 2 ^ 64) (omega arith)),
)

page_run-All :
    (p n top : ℕ)
    → p % 4096 ≡ 0
    → p + 4096 * n ≤ top
    → All (λ q. (q % 4096 ≡ 0) × (p ≤ q) × (q + 4096 ≤ top)) (page_run p n)
page_run-All p zero top a h = tt
page_run-All p (suc n) top a h = (
  (a, omega arith, omega arith),
  All-map _ _ (page_run (p + 4096) n) (λ q r. (r.0, omega (arith, r.1), r.2))
      (page_run-All (p + 4096) n top (omega arith) (omega arith)),
)

entry_pages-All :
    (e : Entry)
    → Fits e
    → All
        (λ p.
          (p % 4096 ≡ 0)
          × (0x100000 ≤ p)
          × (e.kind ≡ limine_memmap_usable)
          × (e.base ≤ p)
          × (p + 4096 ≤ e.base + e.span))
        (entry_pages e 0)
unfolding entry_pages first_page
entry_pages-All e f =
    elim (Bool-cases (e.kind == limine_memmap_usable && ltb (aligned_start e) (aligned_end e))) [
      | inl good ↦
          let usable : e.kind ≡ limine_memmap_usable = ground arith in
          let room : aligned_start e < aligned_end e = ground arith in
          let n = (aligned_end e - aligned_start e) / 4096 in
          let run : entry_pages e 0 ≡ page_run (aligned_start e) n = ground arith in
          let b = aligned_bounds e f in
          let s = aligned_start_bounds e f in
          let t = aligned_end-le e f in
          rw run (
            All-map _ _ (page_run (aligned_start e) n)
              (λ q r. (
                r.0,
                omega (arith, r.1, b.1),
                usable,
                omega (arith, r.1, s.0),
                omega (arith, r.2, t),
              ))
              (page_run-All (aligned_start e) n (aligned_end e) b.0 (omega arith)))
      | inr skip ↦ let nothing : entry_pages e 0 ≡ [] = ground arith in rw nothing tt
    ]

-- Every page that the memory map yields is page-aligned, lies at or above 1 MiB, and lies wholly
-- inside one usable entry, for entries that end below the top of the address space.
pub pages_from-IsGoodPage :
    (entries : List Entry) → AllFit entries → All (IsGoodPage entries) (pages_from entries 0)
unfolding pages_from
pages_from-IsGoodPage [] f = tt
pages_from-IsGoodPage (e ∷ es) f =
    All-append _ (entry_pages e 0) (pages_from es 0)
      (All-map _ _ (entry_pages e 0) (λ p r. (r.0, r.1, inl (r.2, r.3, r.4)))
        (entry_pages-All e f.0))
      (All-map _ _ (pages_from es 0) (λ p r. (r.0, r.1, inr r.2)) (pages_from-IsGoodPage es f.1))
