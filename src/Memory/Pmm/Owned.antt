-- ===== src/Memory/Pmm/Owned.antt =====
-- Which pages belong to the allocator (`src/memory/pmm.c`) and which to its callers.
use reddyos_osdev.Base.{
  ℕ, zero, suc, ◌+◌, ◌*◌, ◌/◌, ◌%◌, ◌^◌, ◌≤◌, ◌<◌, ◌≡◌, ◌≢◌, ◌⊎◌, inl, inr, refl, ap, sym, subst,
  List, [], ◌∷◌, take, drop, arith, length, length-take, length-drop, All, All-take, All-drop,
}
use reddyos_osdev.Base.Outcome.{done, panic}
use reddyos_osdev.Memory.Page.{page_size}
use reddyos_osdev.Memory.Store.{
  write, clear_page, phys_to_virt, virt_to_phys, virt_to_phys-phys_to_virt,
}
use reddyos_osdev.Memory.Pmm.{Entry, Pmm, alloc_page}
use reddyos_osdev.Memory.Pmm.FreeList.{
  Absent, Aligned, Fresh, onto, write-FreeList, clear_page-FreeList,
}
use reddyos_osdev.Memory.Pmm.Regions.{pages_left, AllFit}
use reddyos_osdev.Memory.Pmm.Alloc.{
  IsValid, alloc_page_listed, alloc_page_refill, alloc_page_exhausted, fill-IsValid,
}

Absent-take : (n a : ℕ) (xs : List ℕ) → Absent a xs → Absent a (take n xs)
Absent-take zero a xs h = tt
Absent-take (suc n) a [] h = tt
Absent-take (suc n) a (x ∷ xs) h = (h.0, Absent-take n a xs h.1)

Absent-drop : (n a : ℕ) (xs : List ℕ) → Absent a xs → Absent a (drop n xs)
Absent-drop zero a xs h = h
Absent-drop (suc n) a [] h = h
Absent-drop (suc n) a (x ∷ xs) h = Absent-drop n a xs h.1

Absent-page : (a : ℕ) (xs : List ℕ) → Aligned xs → Absent (a / 4096 * 4096) xs → Absent a xs
Absent-page a [] al h = tt
Absent-page a (x ∷ xs) al h = (λ e. h.0 (omega (arith, al.0, e)), Absent-page a xs al.1 h.1)

module _ (hhdm : ℕ) where
  -- The page `a` of the kernel's view is none of the physical pages `ps`.
  abbrev pub Apart : ℕ → List ℕ → Type 0
  Apart a ps = All (λ p. phys_to_virt hhdm p ≢ a) ps

  Absent-onto : (a : ℕ) (ps xs : List ℕ) → Apart a ps → Absent a xs → Absent a (onto hhdm ps xs)
  Absent-onto a [] xs p q = q
  Absent-onto a (x ∷ ps) xs p q = Absent-onto a ps (phys_to_virt hhdm x ∷ xs) p.1 (p.0, q)

  length-onto : (ps xs : List ℕ) → length (onto hhdm ps xs) ≡ length ps + length xs
  length-onto [] xs = omega arith
  length-onto (p ∷ ps) xs = omega (arith, length-onto ps (phys_to_virt hhdm p ∷ xs))

  pub onto-nil : (n : ℕ) (ps : List ℕ) → onto hhdm (take (suc n) ps) [] ≡ [] → ps ≡ []
  onto-nil n [] e = refl
  onto-nil n (p ∷ ps) e =
      absurd (omega (arith, ap length e, length-onto (take n ps) (phys_to_virt hhdm p ∷ [])))

  Fresh-Apart : (ps : List ℕ) (y : ℕ) (xs : List ℕ) → Fresh hhdm ps (y ∷ xs) → Apart y ps
  Fresh-Apart ps y xs f = go ps (y ∷ xs) (λ a h. h.0) f
    where
      go :
          (ps xs : List ℕ)
          → ((a : ℕ) → Absent a xs → y ≢ a)
          → Fresh hhdm ps xs
          → All (λ p. phys_to_virt hhdm p ≢ y) ps
      go [] xs h f = tt
      go (p ∷ ps) xs h f =
          (λ e. h _ f.2 (sym e), go ps (phys_to_virt hhdm p ∷ xs) (λ a q. h a q.1) f.3)

  -- A node of the physical map whose page a table entry can name.
  abbrev pub Small : ℕ → Type 0
  Small x = (x < 2 ^ 64) × (virt_to_phys hhdm x < 2 ^ 52)

  Small-onto :
      (ps xs : List ℕ)
      → hhdm < 2 ^ 64
      → All (λ p. p < 2 ^ 52) ps
      → All Small xs
      → All Small (onto hhdm ps xs)
  Small-onto [] xs h p q = q
  Small-onto (x ∷ ps) xs h p q =
      let back = virt_to_phys-phys_to_virt hhdm x h (omega (arith, p.0)) in
      let below : phys_to_virt hhdm x < 2 ^ 64 = unfold phys_to_virt in omega arith in
      Small-onto ps (phys_to_virt hhdm x ∷ xs) h p.1 ((below, omega (arith, back, p.0)), q)

  module _ (entries : List Entry) where
    -- A valid allocator of which every page lies below 2 ^ 52.
    pub record IsPool (s : Pmm) (xs : List ℕ) : Type 0 where
      pub valid : IsValid hhdm entries s xs
      pub small : All Small xs
      pub small_left : All (λ p. p < 2 ^ 52) (pages_left entries s)

    -- The page at `a` does not belong to the allocator.
    abbrev pub Outside : Pmm → List ℕ → ℕ → Type 0
    Outside s xs a = Absent a xs × Apart a (pages_left entries s)

    -- How many pages the allocator can still give out.
    abbrev pub supply : Pmm → List ℕ → ℕ
    supply s xs = length xs + length (pages_left entries s)

    -- The page at `y` was given out by a call that led from `s` to `s'`.
    pub record Granted (s : Pmm) (xs : List ℕ) (y : ℕ) (s' : Pmm) (xs' : List ℕ) : Type 0 where
      pub pool : IsPool s' xs'
      pub count : supply s xs ≡ supply s' xs' + 1
      pub small : Small y
      pub aligned : y % 4096 ≡ 0
      pub cleared : (a : ℕ) → y ≤ a → a < y + page_size → s'.word a ≡ 0
      pub own : Outside s' xs' y
      pub apart : (a : ℕ) → Outside s xs a → y ≢ a
      pub outside : (a : ℕ) → Outside s xs a → Outside s' xs' a
      pub frame : (a : ℕ) → Outside s xs (a / 4096 * 4096) → s'.word a ≡ s.word a

    -- A caller that writes to a page of its own does the allocator no harm.
    pub write-IsPool :
        (s : Pmm) (xs : List ℕ) (a v : ℕ)
        → IsPool s xs
        → Outside s xs (a / 4096 * 4096)
        → IsPool (record s { word = write s.word a v }) xs
    write-IsPool s xs a v p o = record {
      valid = record {
        holds = record {
          linked =
              write-FreeList s.word a v s.head xs (Absent-page a xs p.valid.holds.aligned o.0)
                p.valid.holds.linked;
          aligned = p.valid.holds.aligned;
          distinct = p.valid.holds.distinct;
        };
        fresh = p.valid.fresh;
        cursor = p.valid.cursor;
      };
      small = p.small;
      small_left = p.small_left;
    }

    pub clear_page-IsPool :
        (s : Pmm) (xs : List ℕ) (a : ℕ)
        → a % 4096 ≡ 0
        → IsPool s xs
        → Outside s xs a
        → IsPool (record s { word = clear_page s.word a }) xs
    clear_page-IsPool s xs a e p o = record {
      valid = record {
        holds = record {
          linked =
              clear_page-FreeList s.word a s.head xs e o.0 p.valid.holds.aligned
                p.valid.holds.linked;
          aligned = p.valid.holds.aligned;
          distinct = p.valid.holds.distinct;
        };
        fresh = p.valid.fresh;
        cursor = p.valid.cursor;
      };
      small = p.small;
      small_left = p.small_left;
    }

    listed :
        (s : Pmm) (y : ℕ) (zs : List ℕ)
        → IsPool s (y ∷ zs)
        → (s' : Pmm) × (alloc_page hhdm entries s ≡ done (virt_to_phys hhdm y, s'))
          × Granted s (y ∷ zs) y s' zs
    listed s y zs v =
        let (s', run, t) = alloc_page_listed hhdm entries s y zs v.valid in
        let ps = pages_left entries s in
        (
          s',
          run,
          record {
            pool = record {
              valid = t.valid;
              small = v.small.1;
              small_left = subst (All (λ p. p < 2 ^ 52)) (sym t.left) v.small_left;
            };
            count = omega (arith, ap length t.left);
            small = v.small.0;
            aligned = v.valid.holds.aligned.0;
            cleared = t.cleared;
            own = (
              v.valid.holds.distinct.0,
              subst (Apart y) (sym t.left) (Fresh-Apart ps y zs v.valid.fresh),
            );
            apart = λ a o. o.0.0;
            outside = λ a o. (o.0.1, subst (Apart a) (sym t.left) o.1);
            frame = λ a o. t.frame a (λ e. o.0.0 (sym e));
          },
        )

    refilled :
        (s : Pmm) (y : ℕ) (zs : List ℕ)
        → AllFit entries
        → hhdm < 2 ^ 64
        → IsPool s []
        → onto hhdm (take 512 (pages_left entries s)) [] ≡ y ∷ zs
        → (s' : Pmm) × (alloc_page hhdm entries s ≡ done (virt_to_phys hhdm y, s'))
          × Granted s [] y s' zs
    refilled s y zs f h v e =
        let (s', run, valid, left, clean, same) =
          alloc_page_refill hhdm entries s y zs f v.valid e in
        let (s1, _, v1, left1, _) = fill-IsValid hhdm entries 512 s [] f v.valid in
        let w = subst (IsValid hhdm entries s1) e v1 in
        let ps = pages_left entries s in
        let rest = subst (λ q. Fresh hhdm q (y ∷ zs)) left1 w.fresh in
        let kept =
          subst (All Small) e
            (Small-onto (take 512 ps) [] h (All-take (λ p. p < 2 ^ 52) 512 ps v.small_left) tt) in
        let off : (a : ℕ) → Outside s [] a → Absent a (y ∷ zs) =
          λ a o. subst (Absent a) e (Absent-onto a (take 512 ps) [] (All-take _ 512 ps o.1) tt) in
        (
          s',
          run,
          record {
            pool = record {
              valid = valid;
              small = kept.1;
              small_left =
                  subst (All (λ p. p < 2 ^ 52)) (sym left)
                    (All-drop (λ p. p < 2 ^ 52) 512 ps v.small_left);
            };
            count = omega (
              arith,
              ap length e,
              length-onto (take 512 ps) [],
              length-take 512 ps,
              length-drop 512 ps,
              ap length left,
            );
            small = kept.0;
            aligned = w.holds.aligned.0;
            cleared = clean;
            own = (
              w.holds.distinct.0,
              subst (Apart y) (sym left) (Fresh-Apart (drop 512 ps) y zs rest),
            );
            apart = λ a o. (off a o).0;
            outside = λ a o. ((off a o).1, subst (Apart a) (sym left) (All-drop _ 512 ps o.1));
            frame = λ a o. same a (off (a / 4096 * 4096) o);
          },
        )

    -- On a valid allocator `pmm_alloc_page` panics if it has no page left, and otherwise gives a page
    -- that was the allocator's and is the caller's from then on, which leaves it one page fewer: aligned, cleared, and different from every page that callers hold,
    -- none of which changes or comes back to the allocator.
    pub alloc_page_owned :
        (s : Pmm) (xs : List ℕ)
        → AllFit entries
        → hhdm < 2 ^ 64
        → IsPool s xs
        → ((supply s xs ≡ 0) × (alloc_page hhdm entries s ≡ panic))
          ⊎ ((y : ℕ) × (s' : Pmm) × (xs' : List ℕ) × (alloc_page hhdm entries s
                ≡ done (virt_to_phys hhdm y, s'))
              × Granted s xs y s' xs')
    alloc_page_owned s (y ∷ zs) f h v =
        let (s', run, g) = listed s y zs v in inr (y, s', zs, run, g)
    alloc_page_owned s [] f h v = split _ refl
      where
        split :
            (ys : List ℕ)
            → onto hhdm (take 512 (pages_left entries s)) [] ≡ ys
            → ((supply s [] ≡ 0) × (alloc_page hhdm entries s ≡ panic))
              ⊎ ((y : ℕ) × (s' : Pmm) × (xs' : List ℕ) × (alloc_page hhdm entries s
                    ≡ done (virt_to_phys hhdm y, s'))
                  × Granted s [] y s' xs')
        split [] e =
            let none_left = onto-nil 511 (pages_left entries s) e in
            inl (
              omega (arith, ap length none_left),
              alloc_page_exhausted hhdm entries s f v.valid none_left,
            )
        split (y ∷ zs) e = let (s', run, g) = refilled s y zs f h v e in inr (y, s', zs, run, g)
