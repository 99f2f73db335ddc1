-- ===== src/Memory/Vma/Mapping.antt =====
-- A new area in the tree, and `do_sys_mmap` (`src/memory/vma.c`, `src/syscalls/memory/memory.c`).
use reddyos_osdev.Base.{
  ℕ, ◌+◌, ◌*◌, ◌/◌, ◌%◌, ◌^◌, ◌≤◌, ◌<◌, ◌≡◌, ◌≢◌, ◌⊎◌, inl, inr, refl, ap, sym, subst, Bool, true,
  false, List, [], ◌∷◌, ltb, ◌==◌, if◌then◌else◌, All, All-map, arith, Bool-cases,
}
use reddyos_osdev.Base.Int.{pos}
use reddyos_osdev.Base.Outcome.{done}
use reddyos_osdev.Memory.Page.{add64, page_size, align_up, align_up_page}
use reddyos_osdev.Memory.BsTree.{BsTree, insert_sorted}
use reddyos_osdev.Memory.Vma.{
  VmArea, Vm, vma_base, vma_start, areas, put_area, empty_area, vma_file, new_area, vma_insert,
  mmap_region, do_sys_mmap,
}
use reddyos_osdev.Memory.Vma.Search.{Disjoint, InRange, Disjoint-Increasing, IsValid}
use reddyos_osdev.Memory.Vma.Gap.{Free, EndsBy, vma_find_free_region_lem}

-- Different from every one of the list.
abbrev pub Unlisted : ℕ → List ℕ → Type 0
Unlisted a xs = All (λ b. b ≢ a) xs

pub All-both : (P Q : ℕ → Type 0) (xs : List ℕ) → All P xs → All Q xs → All (λ b. P b × Q b) xs
All-both P Q [] p q = tt
All-both P Q (x ∷ xs) p q = ((p.0, q.0), All-both P Q xs p.1 q.1)

pub Disjoint-long :
    (area : ℕ → VmArea) (xs : List ℕ)
    → Disjoint area xs
    → All (λ b. (area b).start < (area b).end) xs
Disjoint-long area [] d = tt
Disjoint-long area (x ∷ xs) d = (d.0, Disjoint-long area xs d.2)

-- Only the bounds of the areas in the list matter.
pub Disjoint-frame :
    (area area' : ℕ → VmArea) (xs : List ℕ)
    → All (λ b. ((area' b).start ≡ (area b).start) × ((area' b).end ≡ (area b).end)) xs
    → Disjoint area xs
    → Disjoint area' xs
Disjoint-frame area area' [] same d = tt
Disjoint-frame area area' (x ∷ xs) same d = (
  omega (arith, same.0.0, same.0.1, d.0),
  All-map _ _ xs (λ b h. omega (arith, h.0.0, h.1, same.0.1))
      (All-both _ (λ b. (area x).end ≤ (area b).start) xs same.1 d.1),
  Disjoint-frame area area' xs same.1 d.2,
)

pub All-insert_sorted :
    (P : ℕ → Type 0) (value : ℕ → ℕ) (a : ℕ) (xs : List ℕ)
    → P a
    → All P xs
    → All P (insert_sorted value a xs)
All-insert_sorted P value a [] p h = (p, tt)
All-insert_sorted P value a (x ∷ xs) p h = elim (Bool-cases (ltb (value a) (value x))) [
  | inl before ↦ rw before (p, h)
  | inr behind ↦ rw behind (h.0, All-insert_sorted P value a xs p h.1)
]

-- Two areas of which one ends before the other begins.
abbrev pub Beside : VmArea → VmArea → Type 0
Beside x y = (y.end ≤ x.start) ⊎ (x.end ≤ y.start)

pub Disjoint-insert_sorted :
    (area : ℕ → VmArea) (a : ℕ) (xs : List ℕ)
    → Disjoint area xs
    → (area a).start < (area a).end
    → All (λ b. Beside (area a) (area b)) xs
    → Disjoint area (insert_sorted (λ k. (area k).start) a xs)
Disjoint-insert_sorted area a [] d some_bytes beside = (some_bytes, tt, tt)
Disjoint-insert_sorted area a (x ∷ xs) d some_bytes beside =
    elim (Bool-cases (ltb (area a).start (area x).start)) [
      | inl before ↦
          let lt : (area a).start < (area x).start = ground arith in
          let le : (area a).end ≤ (area x).start = elim beside.0 [
            | inl h ↦ omega (arith, h, lt, d.0)
            | inr h ↦ h
          ] in
          rw before (some_bytes, (le, All-map _ _ xs (λ b h. omega (arith, le, d.0, h)) d.1), d)
      | inr behind ↦
          let ge : (area x).start ≤ (area a).start = ground arith in
          let le : (area x).end ≤ (area a).start = elim beside.0 [
            | inl h ↦ h
            | inr h ↦ absurd (omega (arith, h, ge, some_bytes))
          ] in
          rw behind (
            d.0,
            All-insert_sorted (λ b. (area x).end ≤ (area b).start) (λ k. (area k).start) a xs le
                d.1,
            Disjoint-insert_sorted area a xs d.2 some_bytes beside.1,
          )
    ]

module _ (bt : BsTree) where
  -- The state with the area `vma` at `a` in the tree.
  abbrev pub with_area : Vm bt → ℕ → VmArea → Vm bt
  with_area s a vma = vma_insert bt a (put_area bt s a vma)

  pub put_self : (s : Vm bt) (a : ℕ) (vma : VmArea) → (put_area bt s a vma).area a ≡ vma
  put_self s a vma = let same : (a == a) ≡ true = ground arith in rw same refl

  pub put_other :
      (s : Vm bt) (a b : ℕ) (vma : VmArea) → b ≢ a → (put_area bt s a vma).area b ≡ s.area b
  put_other s a b vma ne = let other : (b == a) ≡ false = ground (arith, ne) in rw other refl

  -- An area beside all others hangs in the tree in its place.
  pub with_area-IsValid :
      (s : Vm bt) (a : ℕ) (vma : VmArea)
      → IsValid bt s
      → Unlisted a (areas bt s)
      → InRange vma
      → vma.start < vma.end
      → All (λ b. Beside vma (s.area b)) (areas bt s)
      → (areas bt (with_area s a vma)
          ≡ insert_sorted (vma_start bt (put_area bt s a vma)) a (areas bt s))
        × IsValid bt (with_area s a vma)
  unfolding vma_insert
  with_area-IsValid s a vma v new range some_bytes beside =
      let s1 = put_area bt s a vma in
      let xs = areas bt s in
      let here = put_self s a vma in
      let same =
        All-map (λ b. b ≢ a) (λ b. s1.area b ≡ s.area b) xs (λ b ne. put_other s a b vma ne) new in
      let d : Disjoint s1.area xs =
        Disjoint-frame s.area s1.area xs
          (All-map _ _ xs (λ b e. (ap (λ (k : VmArea). k.start) e, ap (λ (k : VmArea). k.end) e))
            same)
          v.apart in
      let long : (s1.area a).start < (s1.area a).end =
        subst (λ (k : VmArea). k.start < k.end) (sym here) some_bytes in
      let beside' : All (λ b. Beside (s1.area a) (s1.area b)) xs =
        All-map _ _ xs
          (λ b h.
            subst (λ (k : VmArea). Beside k (s1.area b)) (sym here)
              (subst (Beside vma) (sym h.1) h.0))
          (All-both (λ b. Beside vma (s.area b)) (λ b. s1.area b ≡ s.area b) xs beside same) in
      let placed : areas bt (with_area s a vma) ≡ insert_sorted (vma_start bt s1) a xs =
        bt.order-insert (vma_start bt s1) a s.tree (Disjoint-Increasing s1.area xs d) (
          All-map _ _ xs
            (λ b h e. elim h.0 [
              | inl p ↦ absurd (omega (arith, p, e, h.1))
              | inr p ↦ absurd (omega (arith, p, e, long))
            ])
            (All-both (λ b. Beside (s1.area a) (s1.area b))
              (λ b. (s1.area b).start < (s1.area b).end) xs beside'
              (Disjoint-long s1.area xs d))) in
      (
        placed,
        record {
          apart =
              subst (Disjoint s1.area) (sym placed)
                (Disjoint-insert_sorted s1.area a xs d long beside');
          range = subst (All (λ b. InRange (s1.area b))) (sym placed) (
              All-insert_sorted _ (vma_start bt s1) a xs (subst InRange (sym here) range) (
                All-map _ _ xs (λ b h. subst InRange (sym h.1) h.0)
                  (All-both (λ b. InRange (s.area b)) (λ b. s1.area b ≡ s.area b) xs v.range
                    same)));
        },
      )

-- What `mmap` is asked for: memory of its own, or a file whose node can answer a fault.
abbrev pub Mappable : (ℕ → Bool) → ℕ → Type 0
Mappable has_fault file = (file ≡ 0) ⊎ ((file ≢ 0) × (has_fault file ≡ true))

-- The area that `mmap_region` makes.
abbrev pub mapped_area : ℕ → ℕ → ℕ → ℕ → ℕ → VmArea
mapped_area file addr len vm_flags pgoff =
    let vma : VmArea = record empty_area {
      start = addr;
      end = add64 addr len;
      vm_flags = vm_flags;
    } in
    if file == 0 then vma else record vma { kind = vma_file; file = file; pgoff = pgoff }

mapped_area_bounds :
    (file addr len vm_flags pgoff : ℕ)
    → ((mapped_area file addr len vm_flags pgoff).start ≡ addr)
      × ((mapped_area file addr len vm_flags pgoff).end ≡ add64 addr len)
mapped_area_bounds file addr len vm_flags pgoff = elim (Bool-cases (file == 0)) [
  | inl e ↦ rw e (refl, refl)
  | inr e ↦ rw e (refl, refl)
]

-- A gap between pages has room for whole pages.
whole_pages :
    (area : ℕ → VmArea) (p len : ℕ) (xs : List ℕ)
    → p % 4096 ≡ 0
    → All (λ b. InRange (area b)) xs
    → Free area p len xs
    → Free area p ((len + 4095) / 4096 * 4096) xs
whole_pages area p len xs al range free =
    All-map _ _ xs
      (λ b h. elim h.1 [
        | inl before ↦ inl before
        | inr behind ↦ inr (omega (arith, behind, al, h.0.2))
      ])
      (All-both (λ b. InRange (area b)) _ xs range free)

module _ (bt : BsTree) where
  pub new_area_lem :
      (vma : VmArea) (s : Vm bt) (a : ℕ) (more : List ℕ)
      → s.fresh ≡ a ∷ more
      → a ≢ 0
      → new_area bt vma s ≡ done (a, put_area bt (record s { fresh = more }) a vma)
  unfolding new_area
  new_area_lem vma s a more e z =
      let some_address : (a == 0) ≡ false = ground (arith, z) in
      rw (e, new_area) (rw some_address refl)

  mmap_region_lem :
      (enodev : ℕ) (has_fault : ℕ → Bool) (file addr len vm_flags pgoff : ℕ) (s : Vm bt) (a : ℕ)
      (more : List ℕ)
      → s.fresh ≡ a ∷ more
      → a ≢ 0
      → Mappable has_fault file
      → mmap_region bt enodev has_fault file addr len vm_flags pgoff s
        ≡ done (
          pos addr,
          with_area bt (record s { fresh = more }) a (mapped_area file addr len vm_flags pgoff),
        )
  unfolding mmap_region
  mmap_region_lem enodev has_fault file addr len vm_flags pgoff s a more e z (inl anon) =
      let anon' : (file == 0) ≡ true = ground (arith, anon) in
      rw (anon', new_area_lem _ s a more e z) refl
  mmap_region_lem enodev has_fault file addr len vm_flags pgoff s a more e z (inr (f, can)) =
      let backed : (file == 0) ≡ false = ground (arith, f) in
      rw (backed, can, new_area_lem _ s a more e z) refl

  -- On areas in order, `mmap` of some bytes, of no file or of one whose node can answer a fault,
  -- with memory for the new area and room above the last one, gives the start of whole pages that
  -- no area met, and adds an area for exactly these; the areas stay in order, and the others as
  -- they are.
  pub do_sys_mmap_lem :
      (einval enomem enodev : ℕ) (has_fault : ℕ → Bool) (file len offset : ℕ) (s : Vm bt) (a : ℕ)
      (more : List ℕ) (top : ℕ)
      → IsValid bt s
      → s.fresh ≡ a ∷ more
      → a ≢ 0
      → Unlisted a (areas bt s)
      → Mappable has_fault file
      → 0 < len
      → vma_base ≤ top
      → EndsBy s.area top (areas bt s)
      → top + len + 4096 < 2 ^ 63
      → (p : ℕ) × (s' : Vm bt) × (do_sys_mmap bt einval enomem enodev has_fault file len offset s
          ≡ done (pos p, s'))
        × IsValid bt s'
        × (areas bt s' ≡ insert_sorted (vma_start bt s') a (areas bt s))
        × (s'.area a ≡ mapped_area file p ((len + 4095) / 4096 * 4096) 0 offset)
        × ((b : ℕ) → b ≢ a → s'.area b ≡ s.area b)
        × Free s.area p ((len + 4095) / 4096 * 4096) (areas bt s)
        × (p % 4096 ≡ 0)
  unfolding do_sys_mmap vma_insert
  do_sys_mmap_lem einval enomem enodev has_fault file len offset s a more top v e z new ok some_len
        low ends room =
      let (p, found, base, al, free, least) =
        vma_find_free_region_lem bt s len v some_len (omega arith) in
      let n = (len + 4095) / 4096 * 4096 in
      let up : align_up len page_size ≡ n = align_up_page len (omega arith) in
      let below : p ≤ top = least top low ends in
      let some_pages : (n == 0) ≡ false = ground (arith, some_len) in
      let some_place : (p == 0) ≡ false = ground (arith, base) in
      let end' : add64 p n ≡ p + n = omega (arith, below, room) in
      let vma = mapped_area file p n 0 offset in
      let bounds = mapped_area_bounds file p n 0 offset in
      let wide : Free s.area p n (areas bt s) =
        whole_pages s.area p len (areas bt s) al v.range free in
      let r =
        with_area-IsValid bt (record s { fresh = more }) a vma
          (record { apart = v.apart; range = v.range }) new
          (
            omega (arith, bounds.0, base),
            omega (arith, bounds.1, end', below, room),
            omega (arith, bounds.0, al),
            omega (arith, bounds.1, end', al),
          )
          (omega (arith, bounds.0, bounds.1, end', some_len))
          (All-map _ _ (areas bt s)
            (λ b h. elim h [
              | inl before ↦ inl (omega (arith, before, bounds.0))
              | inr behind ↦ inr (omega (arith, behind, bounds.1, end'))
            ])
            wide) in
      (
        p,
        with_area bt (record s { fresh = more }) a vma,
        rw (up, some_pages, found, some_place)
            (mmap_region_lem enodev has_fault file p n 0 offset s a more e z ok),
        r.1,
        r.0,
        put_self bt s a vma,
        (λ b ne. put_other bt s a b vma ne),
        wide,
        al,
      )
