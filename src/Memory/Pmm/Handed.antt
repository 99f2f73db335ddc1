-- ===== src/Memory/Pmm/Handed.antt =====
-- Which memory the pages lie in that `pmm_alloc_page` (`src/memory/pmm.c`) hands out.
use reddyos_osdev.Base.{
  ℕ, ◌^◌, ◌<◌, ◌≡◌, inl, inr, refl, sym, subst, List, [], ◌∷◌, take, arith, All, All-take, All-drop,
}
use reddyos_osdev.Base.Outcome.{done}
use reddyos_osdev.Memory.Store.{phys_to_virt, virt_to_phys, virt_to_phys-phys_to_virt}
use reddyos_osdev.Memory.Pmm.{Entry, Pmm, alloc_page}
use reddyos_osdev.Memory.Pmm.FreeList.{onto}
use reddyos_osdev.Memory.Pmm.Regions.{pages_left, pages_from, AllFit}
use reddyos_osdev.Memory.Pmm.Usable.{InUsable, IsGoodPage, pages_from-IsGoodPage}
use reddyos_osdev.Memory.Pmm.Owned.{onto-nil}
use reddyos_osdev.Memory.Pmm.Alloc.{
  IsValid, alloc_page_listed, alloc_page_refill, alloc_page_exhausted,
}

-- A page in memory that ends below the top of the address space has an address of 64 bits.
InUsable-lt : (es : List Entry) (p : ℕ) → AllFit es → InUsable es p → p < 2 ^ 64
InUsable-lt [] p f h = absurd h
InUsable-lt (e ∷ es) p f (inl h) = omega (arith, f.0, h.2)
InUsable-lt (e ∷ es) p f (inr h) = InUsable-lt es p f.1 h

module _ (hhdm : ℕ) (entries : List Entry) where
  abbrev IsGoodNode : ℕ → Type 0
  IsGoodNode x = IsGoodPage entries (virt_to_phys hhdm x)

  -- The pages of the list, and those that the map still has for it.
  abbrev AllGood : Pmm → List ℕ → Type 0
  AllGood s xs = All IsGoodNode xs × All (IsGoodPage entries) (pages_left entries s)

  onto-IsGoodNode :
      (ps xs : List ℕ)
      → AllFit entries
      → hhdm < 2 ^ 64
      → All (IsGoodPage entries) ps
      → All IsGoodNode xs
      → All IsGoodNode (onto hhdm ps xs)
  onto-IsGoodNode [] xs f h g q = q
  onto-IsGoodNode (p ∷ ps) xs f h g q =
      let back = virt_to_phys-phys_to_virt hhdm p h (InUsable-lt entries p f g.0.2) in
      onto-IsGoodNode ps (phys_to_virt hhdm p ∷ xs) f h g.1
        (subst (IsGoodPage entries) (sym back) g.0, q)

  -- The states and the page of a call that gives one.
  abbrev Gives : Pmm → ℕ → Pmm → Type 0
  Gives s p s' = alloc_page hhdm entries s ≡ done (p, s')

  abbrev GoodAfter : ℕ → Pmm → Type 0
  GoodAfter p s' =
      IsGoodPage entries p × (xs' : List ℕ) × IsValid hhdm entries s' xs' × AllGood s' xs'

  -- The result that a proof knows for a call is the one that it gave.
  same_call :
      (s s1 s' : Pmm) (p q : ℕ) → Gives s q s1 → Gives s p s' → GoodAfter q s1 → GoodAfter p s'
  same_call s s1 s' p q known run g =
      let page : q ≡ p = cc (known, run) in
      let state : s1 ≡ s' = cc (known, run) in
      subst (λ r. GoodAfter r s') page (subst (λ t. GoodAfter q t) state g)

  alloc_page-IsGoodPage :
      (s s' : Pmm) (xs : List ℕ) (p : ℕ)
      → AllFit entries
      → hhdm < 2 ^ 64
      → IsValid hhdm entries s xs
      → AllGood s xs
      → Gives s p s'
      → GoodAfter p s'
  alloc_page-IsGoodPage s s' (y ∷ zs) p f h v g run =
      let (s1, known, t) = alloc_page_listed hhdm entries s y zs v in
      same_call s s1 s' p (virt_to_phys hhdm y) known run
        (g.0.0, zs, t.valid, (g.0.1, subst (All (IsGoodPage entries)) (sym t.left) g.1))
  alloc_page-IsGoodPage s s' [] p f h v g run = split _ refl
    where
      split : (ys : List ℕ) → onto hhdm (take 512 (pages_left entries s)) [] ≡ ys → GoodAfter p s'
      split [] e =
          let stuck =
            alloc_page_exhausted hhdm entries s f v (onto-nil hhdm 511 (pages_left entries s) e) in
          cc (stuck, run)
      split (y ∷ zs) e =
          let (s1, known, valid, left, _, _) = alloc_page_refill hhdm entries s y zs f v e in
          let ps = pages_left entries s in
          let nodes =
            subst (All IsGoodNode) e (
              onto-IsGoodNode (take 512 ps) [] f h (All-take (IsGoodPage entries) 512 ps g.1) tt) in
          same_call s s1 s' p (virt_to_phys hhdm y) known run (
            nodes.0,
            zs,
            valid,
            (
              nodes.1,
              subst (All (IsGoodPage entries)) (sym left)
                  (All-drop (IsGoodPage entries) 512 ps g.1),
            ),
          )

  -- Calls of `pmm_alloc_page` one after the other, with the pages that they give.
  pub data Gave : Pmm → List ℕ → Pmm → Type 0 where
    stop : {s : Pmm} → Gave s [] s
    again :
        {s s1 s2 : Pmm} {p : ℕ} {ps : List ℕ}
        → alloc_page hhdm entries s ≡ done (p, s1)
        → Gave s1 ps s2
        → Gave s (p ∷ ps) s2

  all_good :
      (s s2 : Pmm) (xs ps : List ℕ)
      → AllFit entries
      → hhdm < 2 ^ 64
      → IsValid hhdm entries s xs
      → AllGood s xs
      → Gave s ps s2
      → All (IsGoodPage entries) ps
  all_good s s2 xs [] f h v g run = tt
  all_good s s2 xs (p ∷ ps) f h v g (again {s1 = s1} call rest) =
      let (good, xs', v', g') = alloc_page-IsGoodPage s s1 xs p f h v g call in
      (good, all_good s1 s2 xs' ps f h v' g' rest)

  -- Every page that calls of `pmm_alloc_page` in a row give, from a valid allocator with an empty list
  -- that has yet to read its memory map, is page-aligned, lies at or above 1 MiB, and lies wholly inside
  -- one usable entry, for entries that end below the top of the address space.
  pub alloc_page_usable :
      (s s2 : Pmm) (ps : List ℕ)
      → AllFit entries
      → hhdm < 2 ^ 64
      → IsValid hhdm entries s []
      → s.fill_entry ≡ 0
      → s.fill_offset ≡ 0
      → Gave s ps s2
      → All (IsGoodPage entries) ps
  alloc_page_usable s s2 ps f h v entry offset run =
      let whole : pages_left entries s ≡ pages_from entries 0 = rw (entry, offset) refl in
      all_good s s2 [] ps f h v
        (tt, subst (All (IsGoodPage entries)) (sym whole) (pages_from-IsGoodPage entries f)) run
