-- ===== src/Memory/Vmm/Walk.antt =====
-- One level of the page tables, followed or made by `get_next` (`src/memory/vmm.c`).
use Prim.Native.Nat.{bit_and}
use reddyos_osdev.Base.{
  ℕ, ◌+◌, ◌*◌, ◌/◌, ◌%◌, ◌^◌, ◌≤◌, ◌<◌, ◌≡◌, ◌≢◌, ◌∙◌, ◌⊎◌, inl, inr, refl, ap, sym, subst, true,
  false, List, [], ◌∷◌, All, arith,
}
use reddyos_osdev.Base.Outcome.{done, panic}
use reddyos_osdev.Memory.Store.{
  Words, write_self, write_ne, clear_page, clear_page_inside, clear_page_outside, phys_to_virt,
  virt_to_phys, phys_to_virt-virt_to_phys, virt_to_phys_aligned,
}
use reddyos_osdev.Memory.Pmm.{Entry, Pmm}
use reddyos_osdev.Memory.Pmm.FreeList.{Absent, Distinct}
use reddyos_osdev.Memory.Pmm.Regions.{AllFit}
use reddyos_osdev.Memory.Pmm.Owned.{
  IsPool, Outside, supply, Granted, alloc_page_owned, write-IsPool, clear_page-IsPool,
}
use reddyos_osdev.Memory.Vmm.{
  entry_at, put, table_entry, is_present, page_mask, next_table, alloc_table, fill_entry, get_next,
}
use reddyos_osdev.Memory.Vmm.Entries.{table_entry_present, table_entry_mask}

pub absent_zero : is_present 0 ≡ false
unfolding is_present
absent_zero = refl

module _ (hhdm : ℕ) where
  -- The entry at `i` leads from `t` to `n`.
  pub record Leads (w : Words) (t i n : ℕ) : Type 0 where
    pub present : is_present (w (entry_at t i)) ≡ true
    pub next : next_table hhdm w t i ≡ n

  -- Only the word of the entry matters.
  pub Leads-frame :
      (w w' : Words) (t i n : ℕ)
      → w' (entry_at t i) ≡ w (entry_at t i)
      → Leads w t i n
      → Leads w' t i n
  unfolding next_table
  Leads-frame w w' t i n e l = record {
    present = ap is_present e ∙ l.present;
    next = ap (λ q. phys_to_virt hhdm (bit_and q page_mask)) e ∙ l.next;
  }

module _ (hhdm : ℕ) (entries : List Entry) where
  -- The page of the kernel's view that holds a table.
  abbrev pub IsTable : Pmm → List ℕ → ℕ → Type 0
  IsTable s xs t = (t % 4096 ≡ 0) × Outside hhdm entries s xs t

  -- Different tables, none of them the allocator's.
  pub record Tables (s : Pmm) (xs ts : List ℕ) : Type 0 where
    pub pool : IsPool hhdm entries s xs
    pub each : All (IsTable s xs) ts
    pub distinct : Distinct ts

  -- From the table `t` on, the entries at the indices lead through tables other than `ts`, as far
  -- as they are present.
  abbrev pub Linked : Pmm → List ℕ → List ℕ → ℕ → List ℕ → Type 0
  Linked s xs ts t [] = Unit
  Linked s xs ts t (i ∷ is) =
      (is_present (s.word (entry_at t i)) ≡ false)
      ⊎ ((is_present (s.word (entry_at t i)) ≡ true)
          × IsTable s xs (next_table hhdm s.word t i)
          × Absent (next_table hhdm s.word t i) ts
          × Linked s xs (next_table hhdm s.word t i ∷ ts) (next_table hhdm s.word t i) is)

  -- A step from `t` by the index `i` to the table `n`; `is` are the indices to come.
  pub record Stepped (s : Pmm) (xs ts : List ℕ) (t i : ℕ) (is : List ℕ) (n : ℕ) (s' : Pmm)
      (xs' : List ℕ) : Type 0 where
    pub tables : Tables s' xs' (n ∷ ts)
    pub count : supply hhdm entries s xs ≤ supply hhdm entries s' xs' + 1
    pub leads : Leads hhdm s'.word t i n
    pub linked : Linked s' xs' (n ∷ ts) n is
    pub kept : is_present (s.word (entry_at t i)) ≡ true → s' ≡ s
    pub frame :
        (a : ℕ)
        → a ≢ entry_at t i
        → Outside hhdm entries s xs (a / 4096 * 4096)
        → s'.word a ≡ s.word a
    pub outside : (a : ℕ) → Outside hhdm entries s xs a → Outside hhdm entries s' xs' a

  pub entry_at-page : (t i : ℕ) → t % 4096 ≡ 0 → i < 512 → entry_at t i / 4096 * 4096 ≡ t
  entry_at-page t i al h = omega arith

  pub All-IsTable :
      (s s' : Pmm) (xs xs' ts : List ℕ)
      → ((a : ℕ) → Outside hhdm entries s xs a → Outside hhdm entries s' xs' a)
      → All (IsTable s xs) ts
      → All (IsTable s' xs') ts
  All-IsTable s s' xs xs' [] h p = tt
  All-IsTable s s' xs xs' (t ∷ ts) h p = ((p.0.0, h t p.0.1), All-IsTable s s' xs xs' ts h p.1)

  new-Absent :
      (s : Pmm) (xs : List ℕ) (y : ℕ) (ts : List ℕ)
      → ((a : ℕ) → Outside hhdm entries s xs a → y ≢ a)
      → All (IsTable s xs) ts
      → Absent y ts
  new-Absent s xs y [] h p = tt
  new-Absent s xs y (t ∷ ts) h p = (λ e. h t p.0.1 (sym e), new-Absent s xs y ts h p.1)

  -- The state in which the cleared page at `y` is the table of the entry at `i`.
  abbrev with_table : Pmm → ℕ → ℕ → ℕ → ℕ → Pmm
  with_table s1 y t i fl =
      put (record s1 { word = clear_page s1.word y }) (entry_at t i)
        (table_entry (virt_to_phys hhdm y) fl)

  -- The entry of a new table: cleared, linked from `t`, and the tables below are still to be made.
  made :
      (s : Pmm) (xs : List ℕ) (t i fl : ℕ) (is us : List ℕ) (y : ℕ) (s1 : Pmm) (xs1 : List ℕ)
      → hhdm < 2 ^ 64
      → hhdm % 4096 ≡ 0
      → Tables s xs (t ∷ us)
      → All (λ j. j < 512) (i ∷ is)
      → is_present (s.word (entry_at t i)) ≡ false
      → Granted hhdm entries s xs y s1 xs1
      → Stepped s xs (t ∷ us) t i is y (with_table s1 y t i fl) xs1
  made s xs t i fl is us y s1 xs1 h al v small absent g =
      let e = table_entry (virt_to_phys hhdm y) fl in
      let s2 : Pmm = record s1 { word = clear_page s1.word y } in
      let s3 : Pmm = put s2 (entry_at t i) e in
      let page = entry_at-page t i v.each.0.0 small.0 in
      let home : Outside hhdm entries s1 xs1 (entry_at t i / 4096 * 4096) =
        subst (Outside hhdm entries s1 xs1) (sym page) (g.outside t v.each.0.1) in
      let self : s3.word (entry_at t i) ≡ e = write_self s2.word (entry_at t i) e in
      let phys_al = virt_to_phys_aligned hhdm y h al g.small.0 g.aligned in
      record {
        tables = record {
          pool =
              write-IsPool hhdm entries s2 xs1 (entry_at t i) e
                (clear_page-IsPool hhdm entries s1 xs1 y g.aligned g.pool g.own) home;
          each = ((g.aligned, g.own), All-IsTable s s1 xs xs1 (t ∷ us) g.outside v.each);
          distinct = (new-Absent s xs y (t ∷ us) g.apart v.each, v.distinct);
        };
        count = omega (arith, g.count);
        leads = record {
          present = ap is_present self ∙ table_entry_present (virt_to_phys hhdm y) fl;
          next =
              unfold next_table in
              ap (λ q. phys_to_virt hhdm (bit_and q page_mask)) self
              ∙ ap (phys_to_virt hhdm) (table_entry_mask (virt_to_phys hhdm y) fl phys_al g.small.1)
              ∙ phys_to_virt-virt_to_phys hhdm y h g.small.0;
        };
        linked = below is small.1 (λ j b.
            ap is_present (
              write_ne s2.word (entry_at t i) e (entry_at y j) (λ q.
                g.apart t v.each.0.1
                  (sym (entry_at-page y j g.aligned b) ∙ ap (λ a. a / 4096 * 4096) q ∙ page))
              ∙ clear_page_inside s1.word y (entry_at y j) (omega arith) (omega (arith, b)))
            ∙ absent_zero);
        kept = λ here. cc (here, absent);
        frame = λ a ne o.
            write_ne s2.word (entry_at t i) e a ne
            ∙ clear_page_outside s1.word y a g.aligned (λ q. g.apart _ o (sym q))
            ∙ g.frame a o;
        outside = g.outside;
      }
    where
      below :
          (js : List ℕ)
          → All (λ j. j < 512) js
          → ((j : ℕ) → j < 512 → is_present ((with_table s1 y t i fl).word (entry_at y j)) ≡ false)
          → Linked (with_table s1 y t i fl) xs1 (y ∷ t ∷ us) y js
      below [] b f = tt
      below (j ∷ js) b f = inl (f j b.0)

  -- `get_next` follows the entry that is there, or makes a table; it panics only when no page is left.
  pub get_next_lem :
      (s : Pmm) (xs : List ℕ) (t i fl : ℕ) (is us : List ℕ)
      → AllFit entries
      → hhdm < 2 ^ 64
      → hhdm % 4096 ≡ 0
      → Tables s xs (t ∷ us)
      → All (λ j. j < 512) (i ∷ is)
      → Linked s xs (t ∷ us) t (i ∷ is)
      → ((supply hhdm entries s xs ≡ 0) × (get_next hhdm entries t i fl s ≡ panic))
        ⊎ ((n : ℕ) × (s' : Pmm) × (xs' : List ℕ) × (get_next hhdm entries t i fl s ≡ done (n, s'))
            × Stepped s xs (t ∷ us) t i is n s' xs')
  unfolding get_next fill_entry alloc_table
  get_next_lem s xs t i fl is us f h al v small (inr (here, table, new, linked)) = inr (
    next_table hhdm s.word t i,
    s,
    xs,
    rw here refl,
    record {
      tables = record { pool = v.pool; each = (table, v.each); distinct = (new, v.distinct) };
      count = omega arith;
      leads = record { present = here; next = refl };
      linked = linked;
      kept = λ _. refl;
      frame = λ a ne o. refl;
      outside = λ a o. o;
    },
  )
  get_next_lem s xs t i fl is us f h al v small (inl absent) =
      elim (alloc_page_owned hhdm entries s xs f h v.pool) [
        | inl (out, empty) ↦ inl (out, rw (absent, empty) refl)
        | inr (y, s1, xs1, run, g) ↦
            let step = made s xs t i fl is us y s1 xs1 h al v small absent g in
            let back = phys_to_virt-virt_to_phys hhdm y h g.small.0 in
            inr (
              y,
              _,
              xs1,
              rw (absent, run, back) (ap (λ n. done (n, with_table s1 y t i fl)) step.leads.next),
              step,
            )
      ]

  -- Two entries of different tables have different addresses.
  pub entry_at-ne :
      (t u i j : ℕ)
      → t % 4096 ≡ 0
      → u % 4096 ≡ 0
      → i < 512
      → j < 512
      → u ≢ t
      → entry_at u j ≢ entry_at t i
  entry_at-ne t u i j al bl h k ne e = ne (omega (arith, e))

  -- A step keeps the entries of the other tables.
  pub Stepped-Leads :
      {s s' : Pmm} {xs xs' ts is : List ℕ} {t i n : ℕ} (u j m : ℕ)
      → Stepped s xs ts t i is n s' xs'
      → IsTable s xs u
      → t % 4096 ≡ 0
      → u ≢ t
      → i < 512
      → j < 512
      → Leads hhdm s.word u j m
      → Leads hhdm s'.word u j m
  Stepped-Leads {s} {s'} {xs} {t} {i} u j m st table al ne h k l =
      Leads-frame hhdm s.word s'.word u j m
        (st.frame (entry_at u j) (entry_at-ne t u i j al table.0 h k ne)
          (subst (Outside hhdm entries s xs) (sym (entry_at-page u j table.0 k)) table.1))
        l
