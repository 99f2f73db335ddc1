-- ===== src/Memory/Pmm/Alloc.antt =====
-- `pmm_alloc_page`, `pmm_free_page` and `pmm_fill` (`src/memory/pmm.c`) on the list of free pages.
use reddyos_osdev.Base.{
  ℕ, ◌+◌, ◌*◌, ◌/◌, ◌%◌, ◌^◌, ◌≤◌, ◌<◌, ◌≡◌, ◌≢◌, ◌∙◌, refl, ap, sym, subst, List, [], ◌∷◌, take,
  drop, arith,
}
use reddyos_osdev.Base.Outcome.{done, panic}
use reddyos_osdev.Memory.Page.{page_size}
use reddyos_osdev.Memory.Store.{
  Words, phys_to_virt, virt_to_phys, virt_to_phys-phys_to_virt, write, write_ne, clear_page,
  clear_page_inside, clear_page_outside, write_self,
}
use reddyos_osdev.Memory.Pmm.{Entry, Pmm, fill, take_page, alloc_page, free_page, push_page}
use reddyos_osdev.Memory.Pmm.FreeList.{
  Holds, Absent, Fresh, onto, links, pushed, pushed-Holds, push_page-Holds, Fresh-drop, Fresh-take,
  Fresh-mono, clear_page-FreeList,
}
use reddyos_osdev.Memory.Pmm.Regions.{pages_left, AllFit}
use reddyos_osdev.Memory.Pmm.Fill.{CursorFits, fill_lem}

module _ (hhdm : ℕ) (entries : List Entry) where
  -- The free list holds `xs`, and the pages that the memory map still has are none of them.
  pub record IsValid (s : Pmm) (xs : List ℕ) : Type 0 where
    pub holds : Holds s xs
    pub fresh : Fresh hhdm (pages_left entries s) xs
    pub cursor : CursorFits entries s

  pub links_frame :
      (ps xs : List ℕ) (w : Words) (h a : ℕ)
      → Fresh hhdm ps xs
      → Absent (a / 4096 * 4096) (onto hhdm ps xs)
      → ((links hhdm ps w h).0 a ≡ w a) × Absent (a / 4096 * 4096) xs
  links_frame [] xs w h a f ab = (refl, ab)
  links_frame (p ∷ ps) xs w h a f ab =
      let node = phys_to_virt hhdm p in
      let (same, outside) = links_frame ps (node ∷ xs) (write w node h) node a f.3 ab in
      (same ∙ write_ne w node h a (λ e. outside.0 (omega (arith, f.0, e))), outside.1)

  -- For a memory map whose entries end below the top of the address space `pmm_fill` ends on every
  -- valid state with a valid state: it puts the next `pages` pages of the map on the free list in
  -- front of what it held, takes them from what is left, and changes no other page.
  pub fill-IsValid :
      (pages : ℕ) (s : Pmm) (xs : List ℕ)
      → AllFit entries
      → IsValid s xs
      → (s' : Pmm) × (fill hhdm entries pages s ≡ done s')
        × IsValid s' (onto hhdm (take pages (pages_left entries s)) xs)
        × (pages_left entries s' ≡ drop pages (pages_left entries s))
        × ((a : ℕ)
            → Absent (a / 4096 * 4096) (onto hhdm (take pages (pages_left entries s)) xs)
            → s'.word a ≡ s.word a)
  fill-IsValid pages s xs f v =
      let (s', run, m) = fill_lem hhdm entries pages s f v.cursor in
      let ps = take pages (pages_left entries s) in
      let ok' = Fresh-take hhdm pages (pages_left entries s) xs v.fresh in
      let h = pushed-Holds hhdm ps s xs v.holds ok' in
      let same : (s'.word ≡ (pushed hhdm ps s).word) = ap (λ (q : Pmm). q.word) m.listed in
      let head : (s'.head ≡ (pushed hhdm ps s).head) = ap (λ (q : Pmm). q.head) m.listed in
      (
        s',
        run,
        record {
          holds =
              rw m.listed
                (record { linked = h.linked; aligned = h.aligned; distinct = h.distinct });
          fresh = rw m.rest (Fresh-drop hhdm pages (pages_left entries s) xs v.fresh);
          cursor = m.cursor;
        },
        m.rest,
        λ a ab. ap (λ w. w a) same ∙ (links_frame ps xs s.word s.head a ok' ab).0,
      )

  -- A page comes from the free list cleared, and no other page is touched.
  pub record Taken (s : Pmm) (y : ℕ) (zs : List ℕ) (s' : Pmm) : Type 0 where
    pub valid : IsValid s' zs
    pub left : pages_left entries s' ≡ pages_left entries s
    pub cleared : (a : ℕ) → y ≤ a → a < y + page_size → s'.word a ≡ 0
    pub frame : (a : ℕ) → a / 4096 * 4096 ≢ y → s'.word a ≡ s.word a

  take_page_lem :
      (s : Pmm) (y : ℕ) (zs : List ℕ)
      → IsValid s (y ∷ zs)
      → (s' : Pmm) × (take_page hhdm s ≡ done (virt_to_phys hhdm y, s')) × Taken s y zs s'
  unfolding take_page
  take_page_lem s y zs v =
      let l = v.holds.linked in
      (
        record s { word = clear_page s.word y; head = s.word y },
        rw l.0 (ground (arith, l.1)),
        record {
          valid = record {
            holds = record {
              linked =
                  clear_page-FreeList s.word y (s.word y) zs v.holds.aligned.0 v.holds.distinct.0
                    v.holds.aligned.1 l.2;
              aligned = v.holds.aligned.1;
              distinct = v.holds.distinct.1;
            };
            fresh = Fresh-mono hhdm (pages_left entries s) (y ∷ zs) zs (λ a q. q.1) v.fresh;
            cursor = v.cursor;
          };
          left = refl;
          cleared = λ a h k. clear_page_inside s.word y a h k;
          frame = λ a h. clear_page_outside s.word y a v.holds.aligned.0 h;
        },
      )

  -- On a valid state with a page on the free list `pmm_alloc_page` gives the first page of the list,
  -- cleared; the rest of the list stays, and no other page changes.
  pub alloc_page_listed :
      (s : Pmm) (y : ℕ) (zs : List ℕ)
      → IsValid s (y ∷ zs)
      → (s' : Pmm) × (alloc_page hhdm entries s ≡ done (virt_to_phys hhdm y, s')) × Taken s y zs s'
  unfolding alloc_page
  alloc_page_listed s y zs v =
      let (s', run, t) = take_page_lem s y zs v in
      let l = v.holds.linked in (s', ground (arith, l.0, l.1, run), t)

  alloc_page_filled :
      (s s1 : Pmm)
      → s.head ≡ 0
      → fill hhdm entries 512 s ≡ done s1
      → alloc_page hhdm entries s ≡ take_page hhdm s1
  unfolding alloc_page
  alloc_page_filled s s1 h run = ground (arith, h, run)

  take_page_empty : (s : Pmm) → s.head ≡ 0 → take_page hhdm s ≡ panic
  unfolding take_page
  take_page_empty s h = ground (arith, h)

  -- On a valid state with an empty free list and pages left in the memory map, whose entries end below
  -- the top of the address space, `pmm_alloc_page` first moves the next 512 of them to the list, then
  -- gives the page moved last, cleared; the pages that neither stand on the list then nor were given
  -- are untouched.
  pub alloc_page_refill :
      (s : Pmm) (y : ℕ) (zs : List ℕ)
      → AllFit entries
      → IsValid s []
      → onto hhdm (take 512 (pages_left entries s)) [] ≡ y ∷ zs
      → (s' : Pmm) × (alloc_page hhdm entries s ≡ done (virt_to_phys hhdm y, s'))
        × IsValid s' zs
        × (pages_left entries s' ≡ drop 512 (pages_left entries s))
        × ((a : ℕ) → y ≤ a → a < y + page_size → s'.word a ≡ 0)
        × ((a : ℕ) → Absent (a / 4096 * 4096) (y ∷ zs) → s'.word a ≡ s.word a)
  alloc_page_refill s y zs f v e =
      let (s1, run, v1, left, same) = fill-IsValid 512 s [] f v in
      let (s2, took, t) = take_page_lem s1 y zs (subst (IsValid s1) e v1) in
      (
        s2,
        alloc_page_filled s s1 v.holds.linked run ∙ took,
        t.valid,
        t.left ∙ left,
        t.cleared,
        λ a ab.
            t.frame a (λ q. ab.0 (sym q)) ∙ same a (subst (Absent (a / 4096 * 4096)) (sym e) ab),
      )

  -- On a valid state with an empty free list and no page left in the memory map, whose entries end
  -- below the top of the address space, `pmm_alloc_page` panics.
  pub alloc_page_exhausted :
      (s : Pmm)
      → AllFit entries
      → IsValid s []
      → pages_left entries s ≡ []
      → alloc_page hhdm entries s ≡ panic
  alloc_page_exhausted s f v e =
      let (s1, run, v1, left, same) = fill-IsValid 512 s [] f v in
      let listed : onto hhdm (take 512 (pages_left entries s)) [] ≡ [] = rw e in
      let empty : s1.head ≡ 0 = (subst (IsValid s1) listed v1).holds.linked in
      alloc_page_filled s s1 v.holds.linked run ∙ take_page_empty s1 empty

  -- `pmm_free_page` keeps the list valid, for an aligned page that is neither on the list nor
  -- still to be handed out.
  pub free_page-IsValid :
      (page : ℕ) (s : Pmm) (xs : List ℕ)
      → IsValid s xs
      → phys_to_virt hhdm page % 4096 ≡ 0
      → phys_to_virt hhdm page ≢ 0
      → Absent (phys_to_virt hhdm page) xs
      → Fresh hhdm (pages_left entries s) (phys_to_virt hhdm page ∷ xs)
      → IsValid (free_page hhdm page s) (phys_to_virt hhdm page ∷ xs)
  unfolding free_page
  free_page-IsValid page s xs v al nz ab fr = record {
    holds = push_page-Holds hhdm page s xs v.holds al nz ab;
    fresh = unfold push_page in fr;
    cursor = unfold push_page in v.cursor;
  }

  -- A page that was freed, whose address in the physical map is not NULL, is the next one given,
  -- cleared, and the head of the list is then as it was before.
  pub alloc_page-free_page :
      (page : ℕ) (s : Pmm)
      → hhdm < 2 ^ 64
      → page < 2 ^ 64
      → phys_to_virt hhdm page ≢ 0
      → (s' : Pmm) × (alloc_page hhdm entries (free_page hhdm page s) ≡ done (page, s'))
        × (s'.head ≡ s.head)
        × ((a : ℕ)
            → phys_to_virt hhdm page ≤ a
            → a < phys_to_virt hhdm page + page_size
            → s'.word a ≡ 0)
  unfolding alloc_page free_page push_page take_page
  alloc_page-free_page page s h k nz =
      let node = phys_to_virt hhdm page in
      let w = write s.word node s.head in
      (
        record s { word = clear_page w node; head = w node },
        ground (arith, nz, virt_to_phys-phys_to_virt hhdm page h k),
        write_self s.word node s.head,
        λ a p q. clear_page_inside w node a p q,
      )
