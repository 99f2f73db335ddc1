-- ===== src/Memory/Vma/Gap.antt =====
-- `scan` and `vma_find_free_region` (`src/memory/vma.c`).
use reddyos_osdev.Base.{
  ℕ, ◌+◌, ◌-◌, ◌%◌, ◌^◌, ◌≤◌, ◌<◌, ◌≡◌, ◌⊎◌, inl, inr, refl, sym, subst, true, false, List, [], ◌∷◌,
  ◌++◌, leb, All, All-append, All-map, arith, Bool-cases,
}
use reddyos_osdev.Base.Outcome.{done}
use reddyos_osdev.Memory.Page.{add64, sub64}
use reddyos_osdev.Memory.BsTree.{BsTree, Shape, leaf, node, order, Among}
use reddyos_osdev.Memory.Vma.{VmArea, Vm, vma_base, areas, scan, vma_find_free_region, vma_overlaps}
use reddyos_osdev.Memory.Vma.Search.{
  Disjoint, InRange, Before, Disjoint-middle, All-left, All-right, IsValid, vma_overlaps_lem,
}

-- What holds of all in a list holds of one of them.
pub All_at : (P : ℕ → Type 0) (b : ℕ) (xs : List ℕ) → Among b xs → All P xs → P b
All_at P b [] m h = absurd m
All_at P b (x ∷ xs) (inl e) h = subst P (sym e) h.0
All_at P b (x ∷ xs) (inr m) h = All_at P b xs m h.1

module _ (area : ℕ → VmArea) where
  Disjoint-left : (xs ys : List ℕ) → Disjoint area (xs ++ ys) → Disjoint area xs
  Disjoint-left [] ys d = tt
  Disjoint-left (x ∷ xs) ys d = (d.0, All-left _ xs ys d.1, Disjoint-left xs ys d.2)

  abbrev pub EndsBy : ℕ → List ℕ → Type 0
  EndsBy m xs = All (λ b. (area b).end ≤ m) xs

  -- No area between `p` and `p + len`.
  abbrev pub Free : ℕ → ℕ → List ℕ → Type 0
  Free p len xs = All (λ b. ((area b).end ≤ p) ⊎ (p + len ≤ (area b).start)) xs

  -- What `scan` has found behind `low` in some areas: no gap, and `last_end` is the end of the last; or
  -- a gap, of which the start is both in `result` and in `last_end`.
  abbrev Scanned : ℕ → ℕ → List ℕ → ℕ × ℕ → Type 0
  Scanned len low xs st =
      ((st.1 ≡ 0)
        × (low ≤ st.0)
        × (st.0 % 4096 ≡ 0)
        × EndsBy st.0 xs
        × ((m : ℕ) → low ≤ m → EndsBy m xs → st.0 ≤ m))
      ⊎ ((st.1 ≡ st.0)
          × (low ≤ st.0)
          × (st.0 % 4096 ≡ 0)
          × Free st.0 len xs
          × ((m : ℕ) → EndsBy m xs → st.0 + len ≤ m))

module _ (bt : BsTree) (s : Vm bt) (len : ℕ) (some_len : 0 < len) (small : len < 2 ^ 63) where
  -- A gap that ends by the start of `a`, behind everything in `xs`.
  gap :
      (low p a : ℕ) (xs ys : List ℕ)
      → low ≤ p
      → p % 4096 ≡ 0
      → Free s.area p len xs
      → p + len ≤ (s.area a).start
      → Disjoint s.area (a ∷ ys)
      → Scanned s.area len low (xs ++ a ∷ ys) (p, p)
  gap low p a xs ys le al free fits d = inr (
    refl,
    le,
    al,
    All-append _ xs (a ∷ ys) free
        (inr fits, All-map _ _ ys (λ b h. inr (omega (arith, fits, d.0, h))) d.1),
    λ m ends. omega (arith, (All-right _ xs (a ∷ ys) ends).0, fits, d.0),
  )

  -- What is found behind `a`, seen from before it.
  behind :
      (low a : ℕ) (xs ys : List ℕ) (st : ℕ × ℕ)
      → low ≤ (s.area a).start
      → All (Before s.area a) xs
      → Disjoint s.area (a ∷ ys)
      → Scanned s.area len (s.area a).end ys st
      → Scanned s.area len low (xs ++ a ∷ ys) st
  behind low a xs ys st le before here (inl (res, from, al, ends, least)) = inl (
    res,
    omega (arith, le, from, here.0),
    al,
    All-append _ xs (a ∷ ys) (All-map _ _ xs (λ b h. omega (arith, h.1, here.0, from)) before)
        (from, ends),
    λ m _ all. let rest = All-right _ xs (a ∷ ys) all in least m rest.0 rest.1,
  )
  behind low a xs ys st le before here (inr (res, from, al, free, last)) = inr (
    res,
    omega (arith, le, from, here.0),
    al,
    All-append _ xs (a ∷ ys) (All-map _ _ xs (λ b h. inl (omega (arith, h.1, here.0, from))) before)
        (inl from, free),
    λ m all. last m (All-right _ xs (a ∷ ys) all).1,
  )

  scan_lem :
      (sh : Shape) (low : ℕ)
      → Disjoint s.area (order sh)
      → All (λ b. InRange (s.area b)) (order sh)
      → All (λ b. low ≤ (s.area b).start) (order sh)
      → 0 < low
      → low % 4096 ≡ 0
      → low < 2 ^ 63
      → Scanned s.area len low (order sh) (scan bt s len sh (low, 0))
  unfolding scan
  scan_lem leaf low d r above z al sm = inl (refl, omega arith, al, tt, λ m h e. h)
  scan_lem (node l a r) low d rg above z al sm =
      let (before, here) = Disjoint-middle s.area (order l) a (order r) d in
      let range = All-right _ (order l) (a ∷ order r) rg in
      elim (scan_lem l low (Disjoint-left s.area (order l) (a ∷ order r) d)
        (All-left _ (order l) (a ∷ order r) rg) (All-left _ (order l) (a ∷ order r) above) z al
        sm) [
          | inr (res, le, al', free, last) ↦
              let p = (scan bt s len l (low, 0)).0 in
              let fits : p + len ≤ (s.area a).start =
                last (s.area a).start (All-map _ _ (order l) (λ b h. h.1) before) in
              let wide : leb len (sub64 (s.area a).start p) ≡ true =
                ground (arith, fits, range.0.1, here.0) in
              rw wide (gap low p a (order l) (order r) le al' free fits here)
          | inl (res, le, al', ends, least) ↦
              let p = (scan bt s len l (low, 0)).0 in
              let below : p ≤ (s.area a).start =
                least (s.area a).start (All-right _ (order l) (a ∷ order r) above).0
                  (All-map _ _ (order l) (λ b h. h.1) before) in
              elim (Bool-cases (leb len (sub64 (s.area a).start p))) [
                | inl wide ↦
                    let fits : p + len ≤ (s.area a).start =
                      ground (arith, below, range.0.1, here.0) in
                    rw wide (
                      gap low p a (order l) (order r) le al'
                        (All-map _ _ (order l) (λ b h. inl h) ends) fits here)
                | inr narrow ↦
                    rw (narrow, res)
                      (behind low a (order l) (order r) _
                        (All-right _ (order l) (a ∷ order r) above).0 before here
                        (scan_lem r (s.area a).end here.2 range.1 here.1 (omega (arith, here.0))
                          range.0.3 range.0.1))
              ]
        ]

-- No area meets a gap.
Free-overlap :
    (bt : BsTree) (s : Vm bt) (p len : ℕ)
    → IsValid bt s
    → Free s.area p len (areas bt s)
    → p + len < 2 ^ 64
    → vma_overlaps bt s p (add64 p len) ≡ done false
Free-overlap bt s p len v free fits =
    let e : add64 p len ≡ p + len = omega (arith, fits) in
    rw e (elim (vma_overlaps_lem bt s p (p + len) v) [
      | inr (run, misses) ↦ run
      | inl (run, b, among, meets) ↦ elim (All_at _ b (areas bt s) among free) [
        | inl before ↦ absurd (omega (arith, meets.0, before))
        | inr behind' ↦ absurd (omega (arith, meets.1, behind'))
      ]
    ])

region_of :
    (bt : BsTree) (s : Vm bt) (len : ℕ) (st : ℕ × ℕ)
    → scan bt s len (bt.shape s.tree) (vma_base, 0) ≡ st
    → vma_overlaps bt s st.0 (add64 st.0 len) ≡ done false
    → (st.1 ≡ 0) ⊎ (st.1 ≡ st.0)
    → vma_find_free_region bt s len ≡ done st.0
unfolding vma_find_free_region
region_of bt s len st e free (inl z) = rw (e, free, z) refl
region_of bt s len st e free (inr z) = rw (e, free, z) (ground arith)

-- On areas in order, `vma_find_free_region` of some length below 2 ^ 63 gives the start of a page,
-- in the part of the address space for areas, from which on no area meets the length asked for; it
-- lies no further up than the end of the last area.
pub vma_find_free_region_lem :
    (bt : BsTree) (s : Vm bt) (len : ℕ)
    → IsValid bt s
    → 0 < len
    → len < 2 ^ 63
    → (p : ℕ) × (vma_find_free_region bt s len ≡ done p)
      × (vma_base ≤ p)
      × (p % 4096 ≡ 0)
      × Free s.area p len (areas bt s)
      × ((m : ℕ) → vma_base ≤ m → EndsBy s.area m (areas bt s) → p ≤ m)
unfolding vma_find_free_region
vma_find_free_region_lem bt s len v some_len small =
    let above = All-map _ _ (areas bt s) (λ b h. h.0) v.range in
    let st = scan bt s len (bt.shape s.tree) (vma_base, 0) in
    let top : EndsBy s.area (2 ^ 63 - 1) (areas bt s) =
      All-map _ _ (areas bt s) (λ b h. omega (arith, h.1)) v.range in
    elim (scan_lem bt s len some_len small (bt.shape s.tree) vma_base v.apart v.range above
      (omega arith) refl (omega arith)) [
        | inl (res, le, al, ends, least) ↦
            let free : Free s.area st.0 len (areas bt s) =
              All-map _ _ (areas bt s) (λ b h. inl h) ends in
            let sm : st.0 ≤ 2 ^ 63 - 1 = least (2 ^ 63 - 1) (omega arith) top in
            (
              st.0,
              region_of bt s len st refl
                  (Free-overlap bt s st.0 len v free (omega (arith, sm, small))) (inl res),
              le,
              al,
              free,
              least,
            )
        | inr (res, le, al, free, last) ↦
            let sm : st.0 + len ≤ 2 ^ 63 - 1 = last (2 ^ 63 - 1) top in
            (
              st.0,
              region_of bt s len st refl (Free-overlap bt s st.0 len v free (omega (arith, sm)))
                  (inr res),
              le,
              al,
              free,
              λ m _ ends. omega (arith, last m ends),
            )
      ]
