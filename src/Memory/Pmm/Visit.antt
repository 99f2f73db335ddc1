-- ===== src/Memory/Pmm/Visit.antt =====
-- One round of `pmm_fill` (`src/memory/pmm.c`) against the pages of the entry that it visits.
use reddyos_osdev.Base.{
  ℕ, zero, suc, ◌+◌, ◌-◌, ◌*◌, ◌/◌, ◌≤◌, ◌<◌, ◌≡◌, ◌≢◌, ◌∙◌, refl, ap, ap₂, sym, List, [], ◌&&◌,
  take, drop, length, take_all, min, arith, true, Bool-cases, inl, inr, leb, ltb, ◌==◌,
}
use reddyos_osdev.Memory.Page.{add64, page_size}
use reddyos_osdev.Memory.Store.{phys_to_virt, write}
use reddyos_osdev.Memory.Pmm.{
  Entry, Pmm, aligned_start, aligned_end, push_page, fill_pages, start_entry, finish_entry, visit,
  next_entry, limine_memmap_usable,
}
use reddyos_osdev.Memory.Pmm.FreeList.{pushed}
use reddyos_osdev.Memory.Pmm.Regions.{
  page_run, first_page, entry_pages, Fits, aligned_end-le, aligned_start_bounds,
}

module _ (hhdm : ℕ) where
  abbrev pub filled : List ℕ → ℕ → Pmm → Pmm
  filled ps o s = record (pushed hhdm ps s) { fill_offset = o }

  fill_pages_lem :
      (e : Entry) (left n : ℕ) (s : Pmm)
      → Fits e
      → e.base + s.fill_offset + 4096 * n ≤ aligned_end e
      → aligned_end e < e.base + s.fill_offset + 4096 * n + 4096
      → fill_pages hhdm e left s ≡ (
        left - n,
        filled
            (take left (page_run (e.base + s.fill_offset) n))
            (s.fill_offset + 4096 * min left n)
            s,
      )
  unfolding fill_pages push_page
  fill_pages_lem e zero n s f lo hi = ground arith
  fill_pages_lem e (suc left) zero s f lo hi = ground (arith, aligned_end-le e f)
  fill_pages_lem e (suc left) (suc n) s f lo hi =
      let page : add64 e.base s.fill_offset ≡ e.base + s.fill_offset =
        omega (arith, aligned_end-le e f) in
      let offset : add64 s.fill_offset page_size ≡ s.fill_offset + 4096 =
        omega (arith, aligned_end-le e f) in
      let test : leb (add64 (e.base + s.fill_offset) page_size) (aligned_end e) ≡ true =
        ground (arith, aligned_end-le e f) in
      let node = phys_to_virt hhdm (e.base + s.fill_offset) in
      let s' : Pmm = record s {
        word = write s.word node s.head;
        head = node;
        fill_offset = s.fill_offset + 4096;
      } in
      let next : e.base + (s.fill_offset + 4096) ≡ e.base + s.fill_offset + 4096 = omega arith in
      rw (page, offset, test, fill_pages_lem e left n s' f (omega arith) (omega arith), next)
        (ap₂ (λ k o. (k, filled (take left (page_run (e.base + s.fill_offset + 4096) n)) o s'))
          (omega arith) (omega arith))

length-page_run : (p n : ℕ) → length (page_run p n) ≡ n
length-page_run p zero = refl
length-page_run p (suc n) = ap suc (length-page_run (p + 4096) n)

drop-page_run : (k p n : ℕ) → drop k (page_run p n) ≡ page_run (p + 4096 * k) (n - k)
drop-page_run zero p n = ap₂ page_run (omega arith) (omega arith)
drop-page_run (suc k) p zero = ap (page_run (p + 4096 * suc k)) {x = 0} (omega arith)
drop-page_run (suc k) p (suc n) =
    drop-page_run k (p + 4096) n ∙ ap₂ page_run (omega arith) (omega arith)

-- Where the cursor stands inside an entry, it stands inside its region.
abbrev pub Within : Entry → ℕ → Type 0
Within e o = o ≢ 0 → e.base + o ≤ aligned_end e

abbrev IsUsable : Entry → Type 0
IsUsable e = (e.kind ≡ limine_memmap_usable) × (aligned_start e < aligned_end e)

abbrev count : Entry → ℕ → ℕ
count e o = (aligned_end e - first_page e o) / 4096

first_page_bounds :
    (e : Entry) (o : ℕ)
    → Fits e
    → IsUsable e
    → Within e o
    → (e.base ≤ first_page e o) × (first_page e o ≤ aligned_end e)
unfolding first_page
first_page_bounds e o f u w = ground (arith, aligned_start_bounds e f, w)

first_page_inside : (e : Entry) (o : ℕ) → o ≢ 0 → first_page e o ≡ e.base + o
unfolding first_page
first_page_inside e o h = ground arith

start_entry_lem :
    (e : Entry) (s : Pmm)
    → Fits e
    → IsUsable e
    → start_entry e s ≡ record s { fill_offset = first_page e s.fill_offset - e.base }
unfolding start_entry first_page
start_entry_lem e s f u = ground (arith, aligned_start_bounds e f, aligned_end-le e f)

entry_pages_usable :
    (e : Entry) (o : ℕ) → IsUsable e → entry_pages e o ≡ page_run (first_page e o) (count e o)
unfolding entry_pages
entry_pages_usable e o u = ground arith

module _ (hhdm : ℕ) (e : Entry) (left : ℕ) (s : Pmm) where
  -- A round ends its entry, or ends the quota inside it.
  pub data Visited (r : ℕ × Pmm) : Type 0 where
    ended :
        r ≡ (
          left - length (entry_pages e s.fill_offset),
          next_entry (pushed hhdm (entry_pages e s.fill_offset) s),
        )
        → length (entry_pages e s.fill_offset) ≤ left
        → Visited r
    stopped :
        (o : ℕ)
        → r ≡ (0, filled hhdm (take left (entry_pages e s.fill_offset)) o s)
        → left < length (entry_pages e s.fill_offset)
        → entry_pages e o ≡ drop left (entry_pages e s.fill_offset)
        → e.base + o ≤ aligned_end e
        → Visited r

  visit_usable :
      Fits e → IsUsable e → Within e s.fill_offset → left ≢ 0 → Visited (visit hhdm e left s)
  unfolding visit finish_entry
  visit_usable f u w pos =
      let b = first_page_bounds e s.fill_offset f u w in
      let q = first_page e s.fill_offset in
      let n = count e s.fill_offset in
      let s1 : Pmm = record s { fill_offset = q - e.base } in
      let inner = fill_pages_lem hhdm e left n s1 f (omega arith) (omega arith) in
      let from : e.base + (q - e.base) ≡ q = omega arith in
      let start = start_entry_lem e s f u in
      let pages = entry_pages_usable e s.fill_offset u in
      let top = aligned_end-le e f in
      elim (Bool-cases (ltb left n)) [
        | inl more ↦
            stopped (q - e.base + 4096 * left)
              (rw (start, inner, from, pages) (ground (arith, top)))
              (rw (pages, length-page_run) (ground arith))
              (entry_pages_usable e (q - e.base + 4096 * left) u
                ∙ ap₂ page_run (first_page_inside e (q - e.base + 4096 * left) (ground arith)) (
                    ap (λ p. (aligned_end e - p) / 4096)
                      (first_page_inside e (q - e.base + 4096 * left) (ground arith)))
                ∙ ap₂ page_run (omega arith) (ground arith)
                ∙ sym (drop-page_run left q n)
                ∙ ap (drop left) (sym pages))
              (ground arith)
        | inr less ↦
            let few : n ≤ left = ground arith in
            ended
              (rw
                (
                  start,
                  inner,
                  from,
                  pages,
                  length-page_run q n,
                  take_all left (page_run q n) (rw length-page_run few),
                )
                (ground (arith, top)))
              (rw (pages, length-page_run) few)
      ]

  pub visit_lem : Fits e → Within e s.fill_offset → left ≢ 0 → Visited (visit hhdm e left s)
  visit_lem f w pos =
      elim (Bool-cases (e.kind == limine_memmap_usable && ltb (aligned_start e) (aligned_end e))) [
        | inl yes' ↦ visit_usable f (ground arith, ground arith) w pos
        | inr skip ↦
            let nothing : entry_pages e s.fill_offset ≡ [] =
              unfold entry_pages in ground (arith, skip) in
            ended (rw nothing (unfold visit in ground (arith, skip))) (rw nothing (omega arith))
      ]
