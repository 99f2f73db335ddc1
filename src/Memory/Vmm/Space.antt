-- ===== src/Memory/Vmm/Space.antt =====
-- `paging_create_address_space` (`src/memory/vmm.c`): a new first table that shares the kernel's half.
use reddyos_osdev.Base.{
  ℕ, zero, suc, ◌+◌, ◌*◌, ◌/◌, ◌%◌, ◌^◌, ◌≤◌, ◌<◌, ◌≡◌, ◌≢◌, ◌∙◌, ◌⊎◌, inl, inr, refl, ap, sym,
  subst, List, length, arith, Bool-cases, ==_iff, ◌==◌,
}
use reddyos_osdev.Base.Outcome.{done, panic}
use reddyos_osdev.Memory.Store.{
  write_self, write_ne, clear_page, clear_page_inside, clear_page_outside, phys_to_virt,
  virt_to_phys, phys_to_virt-virt_to_phys,
}
use reddyos_osdev.Memory.Pmm.{Entry, Pmm}
use reddyos_osdev.Memory.Pmm.Regions.{AllFit, pages_left}
use reddyos_osdev.Memory.Pmm.Owned.{
  supply, Apart, IsPool, Outside, alloc_page_owned, write-IsPool, clear_page-IsPool,
}
use reddyos_osdev.Memory.Vmm.{
  AddressSpace, entry_at, put, copy_entries, paging_copy_kernel_half, paging_create_address_space,
}
use reddyos_osdev.Memory.Vmm.Walk.{IsTable, entry_at-page, entry_at-ne}

module _ (hhdm : ℕ) (entries : List Entry) where
  -- The copying loop: the entries from `i` on are the kernel's, and no other word changes.
  pub record Copied (kernel pml4 left i : ℕ) (s : Pmm) (xs : List ℕ) (s' : Pmm) : Type 0 where
    pub pool : IsPool hhdm entries s' xs
    pub left_pages : pages_left entries s' ≡ pages_left entries s
    pub same :
        (j : ℕ) → i ≤ j → j < i + left → s'.word (entry_at pml4 j) ≡ s.word (entry_at kernel j)
    pub frame :
        (a : ℕ) → ((j : ℕ) → i ≤ j → j < i + left → a ≢ entry_at pml4 j) → s'.word a ≡ s.word a

  copy_entries_lem :
      (kernel pml4 left i : ℕ) (s : Pmm) (xs : List ℕ)
      → IsPool hhdm entries s xs
      → IsTable hhdm entries s xs pml4
      → kernel % 4096 ≡ 0
      → kernel ≢ pml4
      → i + left ≤ 512
      → Copied kernel pml4 left i s xs (copy_entries kernel pml4 left i s)
  unfolding copy_entries
  copy_entries_lem kernel pml4 zero i s xs p t kal ne b = record {
    pool = p;
    left_pages = refl;
    same = λ j lo hi. absurd (omega arith);
    frame = λ a h. refl;
  }
  copy_entries_lem kernel pml4 (suc left) i s xs p t kal ne b =
      let e = s.word (entry_at kernel i) in
      let s1 : Pmm = put s (entry_at pml4 i) e in
      let home =
        subst (Outside hhdm entries s xs)
          (sym (entry_at-page hhdm entries pml4 i t.0 (omega (arith, b)))) t.1 in
      let r =
        copy_entries_lem kernel pml4 left (i + 1) s1 xs
          (write-IsPool hhdm entries s xs (entry_at pml4 i) e p home) t kal ne (omega (arith, b)) in
      record {
        pool = r.pool;
        left_pages = r.left_pages;
        same = λ j lo hi. each r.same r.frame j lo hi;
        frame = λ a h.
            r.frame a (λ j lo hi. h j (omega (arith, lo)) (omega (arith, hi)))
            ∙ write_ne s.word (entry_at pml4 i) e a (h i (omega arith) (omega arith));
      }
    where
      s2 : Pmm
      s2 = put s (entry_at pml4 i) (s.word (entry_at kernel i))

      each :
          ((j : ℕ)
            → i + 1 ≤ j
            → j < i + 1 + left
            → (copy_entries kernel pml4 left (i + 1) s2).word (entry_at pml4 j)
              ≡ s2.word (entry_at kernel j))
          → ((a : ℕ)
              → ((j : ℕ) → i + 1 ≤ j → j < i + 1 + left → a ≢ entry_at pml4 j)
              → (copy_entries kernel pml4 left (i + 1) s2).word a ≡ s2.word a)
          → (j : ℕ) → i ≤ j
          → j < i + suc left
          → (copy_entries kernel pml4 left (i + 1) s2).word (entry_at pml4 j)
            ≡ s.word (entry_at kernel j)
      each same frame j lo hi = elim (Bool-cases (j == i)) [
        | inl here ↦
            let e : j ≡ i = (==_iff j i).0 here in
            frame (entry_at pml4 j) (λ k lo' hi' q. absurd (omega (arith, e, q)))
            ∙ ap (λ k. s2.word (entry_at pml4 k)) e
            ∙ write_self s.word (entry_at pml4 i) (s.word (entry_at kernel i))
            ∙ ap (λ k. s.word (entry_at kernel k)) (sym e)
        | inr later ↦
            let past : i + 1 ≤ j = ground (arith, later) in
            same j past (omega (arith, hi))
            ∙ write_ne s.word (entry_at pml4 i) (s.word (entry_at kernel i)) (entry_at kernel j) (
                entry_at-ne hhdm entries pml4 kernel i j t.0 kal (omega (arith, b))
                  (omega (arith, b, hi)) ne)
      ]

  -- `paging_create_address_space` panics if no page is left, and otherwise gives a new first table, in
  -- a page different from every page that callers hold, and leaves the allocator one page fewer: its
  -- lower half is empty, its upper half is the kernel's, its physical address is what the processor is
  -- to be given, and no page that callers hold has changed.
  pub paging_create_address_space_lem :
      (s : Pmm) (xs : List ℕ) (kernel : AddressSpace)
      → AllFit entries
      → hhdm < 2 ^ 64
      → IsPool hhdm entries s xs
      → IsTable hhdm entries s xs kernel.pml4
      → ((supply hhdm entries s xs ≡ 0)
          × (paging_create_address_space hhdm entries kernel s ≡ panic))
        ⊎ ((space : AddressSpace) × (s' : Pmm) × (xs' : List ℕ) × (paging_create_address_space hhdm
                entries kernel s
              ≡ done (space, s'))
            × IsPool hhdm entries s' xs'
            × IsTable hhdm entries s' xs' space.pml4
            × ((a : ℕ) → Outside hhdm entries s xs a → space.pml4 ≢ a)
            × (supply hhdm entries s xs ≡ supply hhdm entries s' xs' + 1)
            × (phys_to_virt hhdm space.cr3 ≡ space.pml4)
            × ((j : ℕ) → j < 256 → s'.word (entry_at space.pml4 j) ≡ 0)
            × ((j : ℕ)
                → 256 ≤ j
                → j < 512
                → s'.word (entry_at space.pml4 j) ≡ s.word (entry_at kernel.pml4 j))
            × ((a : ℕ) → Outside hhdm entries s xs (a / 4096 * 4096) → s'.word a ≡ s.word a))
  unfolding paging_create_address_space paging_copy_kernel_half
  paging_create_address_space_lem s xs kernel f h p t =
      elim (alloc_page_owned hhdm entries s xs f h p) [
        | inl (out, empty) ↦ inl (out, rw empty refl)
        | inr (y, s1, xs1, run, g) ↦
            let back = phys_to_virt-virt_to_phys hhdm y h g.small.0 in
            let s2 : Pmm = record s1 { word = clear_page s1.word y } in
            let ne : kernel.pml4 ≢ y = λ q. g.apart kernel.pml4 t.1 (sym q) in
            let c =
              copy_entries_lem kernel.pml4 y 256 256 s2 xs1
                (clear_page-IsPool hhdm entries s1 xs1 y g.aligned g.pool g.own) (g.aligned, g.own)
                t.0 ne (omega arith) in
            inr (
              record { pml4 = y; cr3 = virt_to_phys hhdm y },
              copy_entries kernel.pml4 y 256 256 s2,
              xs1,
              rw (run, back) refl,
              c.pool,
              (g.aligned, (g.own.0, subst (Apart hhdm y) (sym c.left_pages) g.own.1)),
              g.apart,
              omega (arith, g.count, ap length c.left_pages),
              back,
              λ j b.
                  c.frame (entry_at y j) (λ k lo hi q. absurd (omega (arith, q, lo, b)))
                  ∙ clear_page_inside s1.word y (entry_at y j) (omega arith) (omega (arith, b)),
              λ j lo hi.
                  c.same j lo (omega (arith, hi))
                  ∙ clear_page_outside s1.word y (entry_at kernel.pml4 j) g.aligned
                      (λ q. ne (sym (entry_at-page hhdm entries kernel.pml4 j t.0 hi) ∙ q))
                  ∙ g.frame (entry_at kernel.pml4 j) (
                      subst (Outside hhdm entries s xs)
                        (sym (entry_at-page hhdm entries kernel.pml4 j t.0 hi)) t.1),
              λ a o.
                  c.frame a (λ k lo hi q. g.apart _ o (
                    sym (entry_at-page hhdm entries y k g.aligned hi)
                    ∙ ap (λ b. b / 4096 * 4096) (sym q)))
                  ∙ clear_page_outside s1.word y a g.aligned (λ q. g.apart _ o (sym q))
                  ∙ g.frame a o,
            )
      ]
