-- ===== src/Memory/Vma/Search.antt =====
-- `vma_find` and `vma_overlaps` (`src/memory/vma.c`).
use mathlib.Core.List.{append_assoc}
use reddyos_osdev.Base.{
  ℕ, zero, suc, ◌%◌, ◌^◌, ◌≤◌, ◌<◌, ◌≡◌, ◌≢◌, ◌∙◌, ◌⊎◌, inl, inr, refl, ap, sym, subst, Bool, true,
  false, Option, none, some, List, [], ◌∷◌, ◌++◌, length, length-append, ltb, leb, ◌==◌, All,
  All-append, All-map, arith, Bool-cases,
}
use reddyos_osdev.Base.Outcome.{Outcome, done}
use reddyos_osdev.Memory.BsTree.{
  BsTree, Shape, leaf, node, order, Increasing, nearest, first, after, Among,
}
use reddyos_osdev.Memory.Vma.{
  VmArea, Vm, vma_base, vma_start, areas, vma_find, vma_overlaps, overlaps_from,
}

abbrev pub Contains : VmArea → ℕ → Type 0
Contains vma x = (vma.start ≤ x) × (x < vma.end)

abbrev pub Meets : ℕ → ℕ → VmArea → Type 0
Meets lo hi vma = (lo < vma.end) × (vma.start < hi)

-- Areas of some length, one behind the other.
abbrev pub Disjoint : (ℕ → VmArea) → List ℕ → Type 0
Disjoint area [] = Unit
Disjoint area (a ∷ as') =
    ((area a).start < (area a).end)
    × All (λ b. (area a).end ≤ (area b).start) as'
    × Disjoint area as'

-- Whole pages in the part of the address space that is for areas.
abbrev pub InRange : VmArea → Type 0
InRange vma =
    (vma_base ≤ vma.start) × (vma.end < 2 ^ 63) × (vma.start % 4096 ≡ 0) × (vma.end % 4096 ≡ 0)

module _ (P : ℕ → Type 0) where
  pub All-left : (xs ys : List ℕ) → All P (xs ++ ys) → All P xs
  All-left [] ys h = tt
  All-left (x ∷ xs) ys h = (h.0, All-left xs ys h.1)

  pub All-right : (xs ys : List ℕ) → All P (xs ++ ys) → All P ys
  All-right [] ys h = h
  All-right (x ∷ xs) ys h = All-right xs ys h.1

module _ (area : ℕ → VmArea) where
  -- The areas before one of the list.
  abbrev pub Before : ℕ → ℕ → Type 0
  Before a b = ((area b).start < (area b).end) × ((area b).end ≤ (area a).start)

  pub Disjoint-Increasing : (xs : List ℕ) → Disjoint area xs → Increasing (λ a. (area a).start) xs
  Disjoint-Increasing [] d = tt
  Disjoint-Increasing (x ∷ xs) d =
      (All-map _ _ xs (λ b h. omega (arith, d.0, h)) d.1, Disjoint-Increasing xs d.2)

  pub Disjoint-middle :
      (pre : List ℕ) (a : ℕ) (post : List ℕ)
      → Disjoint area (pre ++ a ∷ post)
      → All (Before a) pre × Disjoint area (a ∷ post)
  Disjoint-middle [] a post d = (tt, d)
  Disjoint-middle (x ∷ pre) a post d =
      let (before, rest) = Disjoint-middle pre a post d.2 in
      (((d.0, (All-right _ pre (a ∷ post) d.1).0), before), rest)

  -- What the search for an address finds, and on which side of it the others lie.
  pub nearest_split :
      (addr : ℕ) (xs : List ℕ)
      → Disjoint area xs
      → ((nearest (λ a. (area a).start) addr xs ≡ none) × All (λ b. addr < (area b).start) xs)
        ⊎ ((pre : List ℕ) × (a : ℕ) × (post : List ℕ) × (xs ≡ pre ++ a ∷ post)
            × (nearest (λ a. (area a).start) addr xs ≡ some a)
            × ((area a).start ≤ addr)
            × All (λ b. addr < (area b).start) post)
  nearest_split addr [] d = inl (refl, tt)
  nearest_split addr (x ∷ xs) d = elim (Bool-cases (leb (area x).start addr)) [
    | inr above ↦
        let lt : addr < (area x).start = ground arith in
        inl (rw above refl, (lt, All-map _ _ xs (λ b h. omega (arith, lt, d.0, h)) d.1))
    | inl below ↦
        let le : (area x).start ≤ addr = ground arith in
        elim (nearest_split addr xs d.2) [
          | inl (e, all) ↦ inr ([], x, xs, refl, rw (below, e) refl, le, all)
          | inr (pre, a, post, e, found, le', all) ↦
              inr (x ∷ pre, a, post, ap (λ t. x ∷ t) e, rw (below, found) refl, le', all)
        ]
  ]

  pub after_middle :
      (pre : List ℕ) (a : ℕ) (post : List ℕ)
      → All (Before a) pre
      → (area a).start < (area a).end
      → after a (pre ++ a ∷ post) ≡ first post
  after_middle [] a post before some_bytes =
      let same : (a == a) ≡ true = ground arith in rw same refl
  after_middle (x ∷ pre) a post before some_bytes =
      let ne : a ≢ x = λ e.
        absurd (omega (arith, before.0.0, before.0.1, some_bytes, ap (λ k. (area k).start) e)) in
      let other : (a == x) ≡ false = ground (arith, ne) in
      rw other (after_middle pre a post before.1 some_bytes)

module _ (bt : BsTree) where
  -- The areas of a process lie one behind the other, on whole pages in their part of the space.
  pub record IsValid (s : Vm bt) : Type 0 where
    pub apart : Disjoint s.area (areas bt s)
    pub range : All (λ a. InRange (s.area a)) (areas bt s)

  search_lem :
      (s : Vm bt) (addr : ℕ)
      → Disjoint s.area (areas bt s)
      → bt.search (vma_start bt s) addr s.tree ≡ nearest (vma_start bt s) addr (areas bt s)
  search_lem s addr d =
      bt.search_nearest (vma_start bt s) addr s.tree (Disjoint-Increasing s.area (areas bt s) d)

  Among-middle : (pre : List ℕ) (a : ℕ) (post : List ℕ) → Among a (pre ++ a ∷ post)
  Among-middle [] a post = inl refl
  Among-middle (x ∷ pre) a post = inr (Among-middle pre a post)

  -- On areas in order, `vma_find` gives the area that contains the address, and NULL exactly if
  -- none does.
  pub vma_find_lem :
      (s : Vm bt) (addr : ℕ)
      → IsValid s
      → ((a : ℕ) × (vma_find bt s addr ≡ some a) × Among a (areas bt s) × Contains (s.area a) addr)
        ⊎ ((vma_find bt s addr ≡ none) × All (λ a. ¬ Contains (s.area a) addr) (areas bt s))
  unfolding vma_find
  vma_find_lem s addr v = elim (nearest_split s.area addr (areas bt s) v.apart) [
    | inl (e, above) ↦ inr (
      rw (search_lem s addr v.apart, e, vma_find) refl,
      All-map _ _ (areas bt s) (λ b h c. absurd (omega (arith, h, c.0))) above,
    )
    | inr (pre, a, post, e, found, le, above) ↦
        let (before, here) =
          Disjoint-middle s.area pre a post (subst (Disjoint s.area) e v.apart) in
        let low : leb (s.area a).start addr ≡ true = ground (arith, le) in
        elim (Bool-cases (ltb addr (s.area a).end)) [
          | inl inside ↦ inl (
            a,
            rw (search_lem s addr v.apart, found, vma_find) (rw (low, inside) refl),
            subst (Among a) (sym e) (Among-middle pre a post),
            (le, ground arith),
          )
          | inr outside ↦
              let ge : (s.area a).end ≤ addr = ground arith in
              inr (
                rw (search_lem s addr v.apart, found, vma_find) (rw (low, outside) refl),
                subst (All (λ b. ¬ Contains (s.area b) addr)) (sym e) (
                    All-append _ pre (a ∷ post)
                      (All-map _ _ pre (λ b h c. absurd (omega (arith, h.0, h.1, c.1, le))) before)
                      (
                        λ c. absurd (omega (arith, ge, c.1)),
                        All-map _ _ post (λ b h c. absurd (omega (arith, h, c.0))) above,
                      )),
              )
        ]
  ]

  -- Some area of a list meets a range, or none does, and a call says which.
  abbrev pub Decides : Vm bt → ℕ → ℕ → List ℕ → Outcome Bool → Type 0
  Decides s lo hi xs r =
      ((r ≡ done true) × (b : ℕ) × Among b xs × Meets lo hi (s.area b))
      ⊎ ((r ≡ done false) × All (λ b. ¬ Meets lo hi (s.area b)) xs)

  -- One round, given what the rest of the list decides.
  round_lem :
      (fuel : ℕ) (s : Vm bt) (lo hi : ℕ) (pre : List ℕ) (a : ℕ) (post : List ℕ)
      → areas bt s ≡ pre ++ a ∷ post
      → Disjoint s.area (areas bt s)
      → Decides s lo hi post (overlaps_from bt fuel s lo hi (first post))
      → Decides s lo hi (a ∷ post) (overlaps_from bt (suc fuel) s lo hi (some a))
  unfolding overlaps_from
  round_lem fuel s lo hi pre a post e d rest =
      let (before, here) = Disjoint-middle s.area pre a post (subst (Disjoint s.area) e d) in
      let next : bt.successor a s.tree ≡ first post =
        bt.successor_after a s.tree
        ∙ ap (after a) e
        ∙ after_middle s.area pre a post before here.0 in
      elim (Bool-cases (leb hi (s.area a).start)) [
        | inl past ↦
            let le : hi ≤ (s.area a).start = ground arith in
            inr (
              rw past refl,
              (
                (λ m. absurd (omega (arith, m.1, le))),
                All-map _ _ post (λ b h m. absurd (omega (arith, m.1, le, here.0, h))) here.1,
              ),
            )
        | inr low ↦
            let lt : (s.area a).start < hi = ground arith in
            let up : ltb (s.area a).start hi ≡ true = ground (arith, lt) in
            elim (Bool-cases (ltb lo (s.area a).end)) [
              | inl reach ↦ inl (rw (low, reach, up) refl, a, inl refl, (ground arith, lt))
              | inr short ↦
                  let misses : ¬ Meets lo hi (s.area a) = λ m. absurd (ground (arith, m.0)) in
                  elim rest [
                    | inl (r, b, among, meets) ↦ inl (rw (low, short, next) r, b, inr among, meets)
                    | inr (r, none_meets) ↦ inr (rw (low, short, next) r, (misses, none_meets))
                  ]
            ]
      ]

  from_lem :
      (fuel : ℕ) (s : Vm bt) (lo hi : ℕ) (pre post : List ℕ)
      → areas bt s ≡ pre ++ post
      → Disjoint s.area (areas bt s)
      → length post ≤ fuel
      → Decides s lo hi post (overlaps_from bt fuel s lo hi (first post))
  unfolding overlaps_from
  from_lem zero s lo hi pre [] e d enough = inr (refl, tt)
  from_lem (suc fuel) s lo hi pre [] e d enough = inr (refl, tt)
  from_lem zero s lo hi pre (a ∷ post) e d enough = absurd (omega arith)
  from_lem (suc fuel) s lo hi pre (a ∷ post) e d enough = round_lem fuel s lo hi pre a post e d (
      from_lem fuel s lo hi (pre ++ a ∷ []) post (e ∙ sym (append_assoc pre (a ∷ []) post)) d
        (omega arith))

  Shape-cases :
      (sh : Shape) → (sh ≡ leaf) ⊎ ((l : Shape) × (a : ℕ) × (r : Shape) × (sh ≡ node l a r))
  Shape-cases leaf = inl refl
  Shape-cases (node l a r) = inr (l, a, r, refl)

  Among-right : (b : ℕ) (pre post : List ℕ) → Among b post → Among b (pre ++ post)
  Among-right b [] post m = m
  Among-right b (x ∷ pre) post m = inr (Among-right b pre post m)

  -- Where the loop of `vma_overlaps` begins.
  abbrev begins_at : Vm bt → Option ℕ → Option ℕ
  begins_at s found = elim found [ none ↦ bt.minimum s.tree | some b ↦ some b ]

  abbrev begins : Vm bt → ℕ → Option ℕ
  begins s lo = begins_at s (bt.search (vma_start bt s) lo s.tree)

  overlaps_of :
      (s : Vm bt) (lo hi : ℕ) (l : Shape) (k : ℕ) (r : Shape)
      → bt.shape s.tree ≡ node l k r
      → vma_overlaps bt s lo hi ≡ overlaps_from bt (length (areas bt s)) s lo hi (begins s lo)
  unfolding vma_overlaps
  overlaps_of s lo hi l k r e =
      ap
        (λ sh. elim sh as (λ x. Outcome Bool) [
          | leaf ↦ done false
          | node l a r ↦ overlaps_from bt (length (areas bt s)) s lo hi (begins s lo)
        ])
        e

  -- On areas in order, `vma_overlaps` ends and says whether the range meets an area.
  pub vma_overlaps_lem :
      (s : Vm bt) (lo hi : ℕ) → IsValid s → Decides s lo hi (areas bt s) (vma_overlaps bt s lo hi)
  unfolding vma_overlaps
  vma_overlaps_lem s lo hi v = elim (Shape-cases (bt.shape s.tree)) [
    | inl e ↦ inr (
      rw (e, vma_overlaps) refl,
      subst (λ sh. All (λ b. ¬ Meets lo hi (s.area b)) (order sh)) (sym e) tt,
    )
    | inr (l, k, r, e) ↦ elim (nearest_split s.area lo (areas bt s) v.apart) [
      | inl (absent, above) ↦
          let all =
            from_lem (length (areas bt s)) s lo hi [] (areas bt s) refl v.apart (omega arith) in
          let at : begins s lo ≡ first (areas bt s) =
            ap (begins_at s) (search_lem s lo v.apart ∙ absent) ∙ bt.minimum_first s.tree in
          rw (overlaps_of s lo hi l k r e, at) all
      | inr (pre, a, post, split, found, le, above) ↦
          let (before, here) =
            Disjoint-middle s.area pre a post (subst (Disjoint s.area) split v.apart) in
          let at : begins s lo ≡ some a = ap (begins_at s) (search_lem s lo v.apart ∙ found) in
          let some_left =
            from_lem (length (areas bt s)) s lo hi pre (a ∷ post) split v.apart
              (omega (arith, ap length split, length-append pre (a ∷ post))) in
          elim some_left [
            | inl (run, b, among, meets) ↦ inl (
              overlaps_of s lo hi l k r e ∙ rw at run,
              b,
              subst (Among b) (sym split) (Among-right b pre (a ∷ post) among),
              meets,
            )
            | inr (run, misses) ↦ inr (
              overlaps_of s lo hi l k r e ∙ rw at run,
              subst (All (λ b. ¬ Meets lo hi (s.area b))) (sym split) (
                  All-append _ pre (a ∷ post)
                    (All-map _ _ pre (λ b h m. absurd (omega (arith, h.0, h.1, m.0, le))) before)
                    misses),
            )
          ]
    ]
  ]
