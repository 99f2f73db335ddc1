-- ===== src/Memory/Vma/Unmapping.antt =====
-- `munmap_region` (`src/memory/vma.c`).
use reddyos_osdev.Base.{
  ℕ, zero, suc, ◌≤◌, ◌<◌, ◌≡◌, ◌≢◌, ◌∙◌, ◌⊎◌, inl, inr, refl, sym, subst, Bool, true, false, List,
  [], ◌∷◌, length, ltb, leb, ◌==◌, All, All-map, arith, Bool-cases, ==_iff,
}
use reddyos_osdev.Base.Outcome.{Outcome, done, panic, out_of_fuel}
use reddyos_osdev.Memory.BsTree.{Among, discard, insert_sorted}
use reddyos_osdev.Memory.Vma.{VmArea, PhysPage, is_outside, cleanup_from}
use reddyos_osdev.Memory.Vma.Search.{Contains, Disjoint}
use reddyos_osdev.Memory.Vma.Gap.{All_at}
use reddyos_osdev.Memory.Vma.Mapping.{Beside, All-both}

-- Pages outside of an area.
abbrev pub HasOutside : VmArea → List PhysPage → Type 0
HasOutside vma [] = ⊥
HasOutside vma (page ∷ pages) = (¬ Contains vma page.start) ⊎ HasOutside vma pages

abbrev pub AllInside : VmArea → List PhysPage → Type 0
AllInside vma pages = All (λ (page : PhysPage). Contains vma page.start) pages

outside_iff :
    (vma : VmArea) (page : PhysPage) → Contains vma page.start → is_outside vma page ≡ false
outside_iff vma page c =
    let low : ltb page.start vma.start ≡ false = ground (arith, c.0) in
    let high : leb vma.end page.start ≡ false = ground (arith, c.1) in rw (low, high) refl

pub cleanup_from_inside :
    (fuel : ℕ) (vma : VmArea) (has_prev : Bool) (pages : List PhysPage)
    → length pages ≤ fuel
    → AllInside vma pages
    → cleanup_from fuel vma has_prev pages ≡ done pages
unfolding cleanup_from
cleanup_from_inside zero vma has_prev [] enough h = refl
cleanup_from_inside (suc fuel) vma has_prev [] enough h = refl
cleanup_from_inside zero vma has_prev (page ∷ pages) enough h = absurd (omega arith)
cleanup_from_inside (suc fuel) vma has_prev (page ∷ pages) enough h =
    rw (outside_iff vma page h.0, cleanup_from_inside fuel vma true pages (omega arith) h.1) refl

-- The loop does not come to an end.
abbrev pub Stuck {ℓ} : {A : Type ℓ} → Outcome A → Type ℓ
Stuck r = (r ≡ panic) ⊎ (r ≡ out_of_fuel)

Stuck-round :
    (fuel : ℕ) (vma : VmArea) (has_prev : Bool) (page : PhysPage) (pages : List PhysPage)
    → is_outside vma page ≡ true
    → Stuck (cleanup_from fuel vma has_prev (page ∷ pages))
unfolding cleanup_from
Stuck-round zero vma has_prev page pages e = inr refl
Stuck-round (suc fuel) vma true page pages e = rw e (Stuck-round fuel vma true page pages e)
Stuck-round (suc fuel) vma false page pages e = rw e (inl refl)

pub cleanup_from_outside :
    (fuel : ℕ) (vma : VmArea) (has_prev : Bool) (pages : List PhysPage)
    → HasOutside vma pages
    → Stuck (cleanup_from fuel vma has_prev pages)
unfolding cleanup_from
cleanup_from_outside fuel vma has_prev [] h = absurd h
cleanup_from_outside zero vma has_prev (page ∷ pages) h = inr refl
cleanup_from_outside (suc fuel) vma has_prev (page ∷ pages) h =
    elim (Bool-cases (is_outside vma page)) [
      | inl gone ↦ Stuck-round (suc fuel) vma has_prev page pages gone
      | inr kept ↦ rw kept (elim h [
        | inl out ↦ absurd (out (ground (arith, kept), ground (arith, kept)))
        | inr more ↦ elim (cleanup_from_outside fuel vma true pages more) [
          | inl e ↦ inl (rw e refl)
          | inr e ↦ inr (rw e refl)
        ]
      ])
    ]

module _ (area : ℕ → VmArea) where
  pub Disjoint-within :
      (area' : ℕ → VmArea) (xs : List ℕ)
      → All
          (λ b.
            ((area b).start ≤ (area' b).start)
            × ((area' b).start < (area' b).end)
            × ((area' b).end ≤ (area b).end))
          xs
      → Disjoint area xs
      → Disjoint area' xs
  Disjoint-within area' [] w d = tt
  Disjoint-within area' (x ∷ xs) w d = (
    w.0.1,
    All-map _ _ xs (λ b h. omega (arith, h.0.0, h.1, w.0.2))
        (All-both _ (λ b. (area x).end ≤ (area b).start) xs w.1 d.1),
    Disjoint-within area' xs w.1 d.2,
  )

  pub All-discard : (P : ℕ → Type 0) (a : ℕ) (xs : List ℕ) → All P xs → All P (discard a xs)
  All-discard P a [] h = tt
  All-discard P a (x ∷ xs) h = elim (Bool-cases (a == x)) [
    | inl e ↦ rw e h.1
    | inr e ↦ rw e (h.0, All-discard P a xs h.1)
  ]

  pub Disjoint-discard : (a : ℕ) (xs : List ℕ) → Disjoint area xs → Disjoint area (discard a xs)
  Disjoint-discard a [] d = tt
  Disjoint-discard a (x ∷ xs) d = elim (Bool-cases (a == x)) [
    | inl e ↦ rw e d.2
    | inr e ↦
        rw e (
          d.0,
          All-discard (λ b. (area x).end ≤ (area b).start) a xs d.1,
          Disjoint-discard a xs d.2,
        )
  ]

  -- Two areas of the list lie one beside the other.
  pub Among-Beside :
      (a b : ℕ) (xs : List ℕ)
      → Disjoint area xs
      → Among a xs
      → Among b xs
      → a ≢ b
      → Beside (area a) (area b)
  Among-Beside a b [] d h k ne = absurd h
  Among-Beside a b (x ∷ xs) d (inl h) (inl k) ne = absurd (ne (h ∙ sym k))
  Among-Beside a b (x ∷ xs) d (inl h) (inr k) ne = inr (
      subst (λ c. (area c).end ≤ (area b).start) (sym h)
        (All_at (λ c. (area x).end ≤ (area c).start) b xs k d.1))
  Among-Beside a b (x ∷ xs) d (inr h) (inl k) ne = inl (
      subst (λ c. (area c).end ≤ (area a).start) (sym k)
        (All_at (λ c. (area x).end ≤ (area c).start) a xs h d.1))
  Among-Beside a b (x ∷ xs) d (inr h) (inr k) ne = Among-Beside a b xs d.2 h k ne

pub Among-discard : (a b : ℕ) (xs : List ℕ) → Among b (discard a xs) → Among b xs
Among-discard a b [] h = h
Among-discard a b (x ∷ xs) h = elim (Bool-cases (a == x)) [
  | inl e ↦ inr (rw e at h)
  | inr e ↦ elim (shown a b x xs e h) [ inl k ↦ inl k | inr k ↦ inr (Among-discard a b xs k) ]
]
  where
    shown :
        (a b x : ℕ) (xs : List ℕ)
        → (a == x) ≡ false
        → Among b (discard a (x ∷ xs))
        → (b ≡ x) ⊎ Among b (discard a xs)
    shown a b x xs e h = rw e at h

pub Among-discard_ne : (a b : ℕ) (xs : List ℕ) → b ≢ a → Among b xs → Among b (discard a xs)
Among-discard_ne a b [] ne h = h
Among-discard_ne a b (x ∷ xs) ne h = elim (Bool-cases (a == x)) [
  | inl e ↦ rw e (elim h [ inl k ↦ absurd (ne (k ∙ sym ((==_iff a x).0 e))) | inr k ↦ k ])
  | inr e ↦ rw e (elim h [ inl k ↦ inl k | inr k ↦ inr (Among-discard_ne a b xs ne k) ])
]

pub Among-insert_sorted :
    (value : ℕ → ℕ) (a b : ℕ) (xs : List ℕ)
    → Among b (insert_sorted value a xs)
    → (b ≡ a) ⊎ Among b xs
Among-insert_sorted value a b [] h = h
Among-insert_sorted value a b (x ∷ xs) h = elim (Bool-cases (ltb (value a) (value x))) [
  | inl e ↦ rw e at h
  | inr e ↦ elim (shown e h) [
    | inl k ↦ inr (inl k)
    | inr k ↦ elim (Among-insert_sorted value a b xs k) [ inl q ↦ inl q | inr q ↦ inr (inr q) ]
  ]
]
  where
    shown :
        ltb (value a) (value x) ≡ false
        → Among b (insert_sorted value a (x ∷ xs))
        → (b ≡ x) ⊎ Among b (insert_sorted value a xs)
    shown e h = rw e at h

pub Among-insert_sorted_self :
    (value : ℕ → ℕ) (a : ℕ) (xs : List ℕ) → Among a (insert_sorted value a xs)
Among-insert_sorted_self value a [] = inl refl
Among-insert_sorted_self value a (x ∷ xs) = elim (Bool-cases (ltb (value a) (value x))) [
  | inl e ↦ rw e (inl refl)
  | inr e ↦ rw e (inr (Among-insert_sorted_self value a xs))
]

pub Among-insert_sorted_old :
    (value : ℕ → ℕ) (a b : ℕ) (xs : List ℕ) → Among b xs → Among b (insert_sorted value a xs)
Among-insert_sorted_old value a b [] h = absurd h
Among-insert_sorted_old value a b (x ∷ xs) h = elim (Bool-cases (ltb (value a) (value x))) [
  | inl e ↦ rw e (inr h)
  | inr e ↦ rw e (elim h [ inl k ↦ inl k | inr k ↦ inr (Among-insert_sorted_old value a b xs k) ])
]
