-- ===== src/Memory/Vmm/Mapping.antt =====
-- `vmm_map`, `vmm_unmap` and `vmm_virt_to_phys_as` (`src/memory/vmm.c`) on one page.
use Prim.Native.Nat.{bit_and, bit_or}
use reddyos_osdev.Base.{
  ℕ, ◌+◌, ◌*◌, ◌/◌, ◌%◌, ◌^◌, ◌<◌, ◌≡◌, ◌≢◌, ◌∙◌, refl, ap, sym, subst, true, List, [], ◌∷◌, All,
  arith, not, if◌then◌else◌,
}
use reddyos_osdev.Base.Int.{pos, negsuc}
use reddyos_osdev.Memory.Store.{Words, write, write_self, write_ne}
use reddyos_osdev.Memory.Pmm.{Entry, Pmm}
use reddyos_osdev.Memory.Pmm.Owned.{Outside}
use reddyos_osdev.Memory.Vmm.{
  AddressSpace, entry_at, page_present, is_present, vmm_unmap, vmm_virt_to_phys_as, pml4_index,
  pdpt_index, pd_index, pt_index, page_mask,
}
use reddyos_osdev.Memory.Vmm.Entries.{index_bound}
use reddyos_osdev.Memory.Vmm.Walk.{absent_zero, Tables, Leads, Leads-frame, entry_at-ne}

module _ (hhdm : ℕ) where
  -- The tables through which an address is translated.
  pub record Route (w : Words) (root virt pdpt pd pt : ℕ) : Type 0 where
    pub first : Leads hhdm w root (pml4_index virt) pdpt
    pub second : Leads hhdm w pdpt (pdpt_index virt) pd
    pub third : Leads hhdm w pd (pd_index virt) pt

  -- Along a route the translation is read off the last entry.
  translate :
      (w : Words) (space : AddressSpace) (virt pdpt pd pt : ℕ)
      → Route w space.pml4 virt pdpt pd pt
      → vmm_virt_to_phys_as hhdm space virt w ≡ (
          if not (is_present (w (entry_at pt (pt_index virt))))
          then negsuc 3
          else pos
              (bit_or (bit_and (w (entry_at pt (pt_index virt))) page_mask) (bit_and virt 0xFFF)))
  unfolding vmm_virt_to_phys_as
  translate w space virt pdpt pd pt r =
      rw
        (
          r.first.next, r.first.present, r.second.next, r.second.present, r.third.next,
          r.third.present,
        )
        refl

  same_page :
      (v virt : ℕ)
      → v / 4096 ≡ virt / 4096
      → (pml4_index v ≡ pml4_index virt)
        × (pdpt_index v ≡ pdpt_index virt)
        × (pd_index v ≡ pd_index virt)
        × (pt_index v ≡ pt_index virt)
  same_page v virt e = (
    ap (λ q. bit_and q 0x1FF) (omega (arith, e)),
    ap (λ q. bit_and q 0x1FF) (omega (arith, e)),
    ap (λ q. bit_and q 0x1FF) (omega (arith, e)),
    ap (λ q. bit_and q 0x1FF) (omega (arith, e)),
  )

  Route-same_page :
      (w : Words) (root v virt pdpt pd pt : ℕ)
      → v / 4096 ≡ virt / 4096
      → Route w root virt pdpt pd pt
      → Route w root v pdpt pd pt
  Route-same_page w root v virt pdpt pd pt e r =
      let (a, b, c, d) = same_page v virt e in
      record {
        first = subst (λ i. Leads hhdm w root i pdpt) (sym a) r.first;
        second = subst (λ i. Leads hhdm w pdpt i pd) (sym b) r.second;
        third = subst (λ i. Leads hhdm w pd i pt) (sym c) r.third;
      }

module _ (hhdm : ℕ) (entries : List Entry) where
  -- The page after `vmm_map`: its translation, its entry with the flags, and the entries on the way,
  -- which are kept if they were there; what else may have changed is the pages that were the
  -- allocator's.
  pub record Mapped (s : Pmm) (xs : List ℕ) (space : AddressSpace) (virt phys flags : ℕ) (s' : Pmm)
      (xs' : List ℕ) (pdpt pd pt : ℕ) : Type 0 where
    pub tables : Tables hhdm entries s' xs' (pt ∷ pd ∷ pdpt ∷ space.pml4 ∷ [])
    pub route : Route hhdm s'.word space.pml4 virt pdpt pd pt
    pub found :
        (v : ℕ)
        → v / 4096 ≡ virt / 4096
        → vmm_virt_to_phys_as hhdm space v s'.word ≡ pos (phys + v % 4096)
    pub leaf : s'.word (entry_at pt (pt_index virt)) ≡ bit_or (bit_or phys page_present) flags
    pub kept_first :
        is_present (s.word (entry_at space.pml4 (pml4_index virt))) ≡ true
        → s'.word (entry_at space.pml4 (pml4_index virt))
          ≡ s.word (entry_at space.pml4 (pml4_index virt))
    pub kept_second :
        is_present (s.word (entry_at space.pml4 (pml4_index virt))) ≡ true
        → is_present (s.word (entry_at pdpt (pdpt_index virt))) ≡ true
        → s'.word (entry_at pdpt (pdpt_index virt)) ≡ s.word (entry_at pdpt (pdpt_index virt))
    pub kept_third :
        is_present (s.word (entry_at space.pml4 (pml4_index virt))) ≡ true
        → is_present (s.word (entry_at pdpt (pdpt_index virt))) ≡ true
        → is_present (s.word (entry_at pd (pd_index virt))) ≡ true
        → s'.word (entry_at pd (pd_index virt)) ≡ s.word (entry_at pd (pd_index virt))
    pub frame :
        (a : ℕ)
        → Outside hhdm entries s xs (a / 4096 * 4096)
        → a ≢ entry_at space.pml4 (pml4_index virt)
        → a ≢ entry_at pdpt (pdpt_index virt)
        → a ≢ entry_at pd (pd_index virt)
        → a ≢ entry_at pt (pt_index virt)
        → s'.word a ≡ s.word a

  pub indices_small :
      (virt : ℕ) → All (λ j. j < 512) (pml4_index virt ∷ pdpt_index virt ∷ pd_index virt ∷ [])
  indices_small virt = (
    index_bound (virt / 2 ^ 39),
    (index_bound (virt / 2 ^ 30), (index_bound (virt / 2 ^ 21), tt)),
  )

  -- `vmm_unmap` of an address that is reached through tables of the caller: every address of its page
  -- is reported as absent at the last level (-4), and no other word changes.
  pub vmm_unmap_lem :
      (s : Pmm) (xs : List ℕ) (space : AddressSpace) (virt pdpt pd pt : ℕ)
      → Tables hhdm entries s xs (pt ∷ pd ∷ pdpt ∷ space.pml4 ∷ [])
      → Route hhdm s.word space.pml4 virt pdpt pd pt
      → ((v : ℕ)
          → v / 4096 ≡ virt / 4096
          → vmm_virt_to_phys_as hhdm space v (vmm_unmap hhdm space virt s).word ≡ negsuc 3)
        × ((a : ℕ)
            → a ≢ entry_at pt (pt_index virt)
            → (vmm_unmap hhdm space virt s).word a ≡ s.word a)
  unfolding vmm_unmap
  vmm_unmap_lem s xs space virt pdpt pd pt v r =
      let i = pt_index virt in
      let ib = index_bound (virt / 2 ^ 12) in
      let w = write s.word (entry_at pt i) 0 in
      let (b4, (b3, (b2, _))) = indices_small virt in
      let apt = v.distinct.0 in
      let other =
        λ (u j m : ℕ) (h : u % 4096 ≡ 0) (k : j < 512) (ne : u ≢ pt) (l : Leads hhdm s.word u j m).
          Leads-frame hhdm s.word w u j m
            (write_ne s.word (entry_at pt i) 0 (entry_at u j)
              (entry_at-ne hhdm entries pt u i j v.each.0.0 h ib k ne))
            l in
      let route : Route hhdm w space.pml4 virt pdpt pd pt = record {
        first = other space.pml4 (pml4_index virt) pdpt v.each.1.1.1.0.0 b4 apt.1.1.0 r.first;
        second = other pdpt (pdpt_index virt) pd v.each.1.1.0.0 b3 apt.1.0 r.second;
        third = other pd (pd_index virt) pt v.each.1.0.0 b2 apt.0 r.third;
      } in
      rw (r.first.next, r.second.next, r.third.next)
        (
          λ u same.
              let (_, _, _, d) = same_page hhdm u virt same in
              let word : w (entry_at pt (pt_index u)) ≡ 0 =
                ap (λ j. w (entry_at pt j)) d ∙ write_self s.word (entry_at pt i) 0 in
              translate hhdm w space u pdpt pd pt
                (Route-same_page hhdm w space.pml4 u virt pdpt pd pt same route)
              ∙ rw (word, absent_zero) refl,
          λ a ne. write_ne s.word (entry_at pt i) 0 a ne,
        )
