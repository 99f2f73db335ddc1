-- ===== src/Memory/Pmm/FreeList.antt =====
-- The free list of `src/memory/pmm.c` as a list of nodes: what its links in memory stand for.
use reddyos_osdev.Base.{
  ℕ, zero, suc, ◌*◌, ◌/◌, ◌%◌, ◌≡◌, ◌≢◌, refl, List, [], ◌∷◌, take, drop, arith,
}
use reddyos_osdev.Memory.Store.{
  Words, write, write_self, write_ne, clear_page, clear_page_outside, phys_to_virt,
}
use reddyos_osdev.Memory.Pmm.{Pmm, push_page}

-- From the pointer `p` the links lead through `xs` to NULL.
abbrev pub FreeList : Words → ℕ → List ℕ → Type 0
FreeList w p [] = p ≡ 0
FreeList w p (x ∷ xs) = (p ≡ x) × (x ≢ 0) × FreeList w (w x) xs

abbrev pub Absent : ℕ → List ℕ → Type 0
Absent a [] = Unit
Absent a (x ∷ xs) = (x ≢ a) × Absent a xs

abbrev pub Distinct : List ℕ → Type 0
Distinct [] = Unit
Distinct (x ∷ xs) = Absent x xs × Distinct xs

abbrev pub Aligned : List ℕ → Type 0
Aligned [] = Unit
Aligned (x ∷ xs) = (x % 4096 ≡ 0) × Aligned xs

-- The allocator's list is `xs`: pages at multiples of the page size, each once.
pub record Holds (s : Pmm) (xs : List ℕ) : Type 0 where
  pub linked : FreeList s.word s.head xs
  pub aligned : Aligned xs
  pub distinct : Distinct xs

pub write-FreeList :
    (w : Words) (a v p : ℕ) (xs : List ℕ)
    → Absent a xs
    → FreeList w p xs
    → FreeList (write w a v) p xs
write-FreeList w a v p [] h l = l
write-FreeList w a v p (x ∷ xs) h l =
    (l.0, l.1, rw (write_ne w a v x h.0) (write-FreeList w a v (w x) xs h.1 l.2))

pub clear_page-FreeList :
    (w : Words) (a p : ℕ) (xs : List ℕ)
    → a % 4096 ≡ 0
    → Absent a xs
    → Aligned xs
    → FreeList w p xs
    → FreeList (clear_page w a) p xs
clear_page-FreeList w a p [] e h al l = l
clear_page-FreeList w a p (x ∷ xs) e h al l =
    let other : x / 4096 * 4096 ≢ a = λ q. h.0 (omega (arith, al.0, q)) in
    (
      l.0,
      l.1,
      rw (clear_page_outside w a x e other) (clear_page-FreeList w a (w x) xs e h.1 al.1 l.2),
    )

module _ (hhdm : ℕ) where
  -- The nodes of `ps`, pushed one after the other onto `xs`.
  abbrev pub onto : List ℕ → List ℕ → List ℕ
  onto [] xs = xs
  onto (p ∷ ps) xs = onto ps (phys_to_virt hhdm p ∷ xs)

  -- The pages `ps` can be pushed onto `xs`: their nodes are aligned, not NULL, and met once.
  abbrev pub Fresh : List ℕ → List ℕ → Type 0
  Fresh [] xs = Unit
  Fresh (p ∷ ps) xs =
      (phys_to_virt hhdm p % 4096 ≡ 0)
      × (phys_to_virt hhdm p ≢ 0)
      × Absent (phys_to_virt hhdm p) xs
      × Fresh ps (phys_to_virt hhdm p ∷ xs)

  abbrev pub links : List ℕ → Words → ℕ → Words × ℕ
  links [] w h = (w, h)
  links (p ∷ ps) w h = links ps (write w (phys_to_virt hhdm p) h) (phys_to_virt hhdm p)

  abbrev pub pushed : List ℕ → Pmm → Pmm
  pushed ps s = record s { word = (links ps s.word s.head).0; head = (links ps s.word s.head).1 }

  pub push_page-Holds :
      (p : ℕ) (s : Pmm) (xs : List ℕ)
      → Holds s xs
      → phys_to_virt hhdm p % 4096 ≡ 0
      → phys_to_virt hhdm p ≢ 0
      → Absent (phys_to_virt hhdm p) xs
      → Holds (push_page hhdm p s) (phys_to_virt hhdm p ∷ xs)
  unfolding push_page
  push_page-Holds p s xs h al nz ab = record {
    linked = (
      refl,
      nz,
      rw (write_self s.word (phys_to_virt hhdm p) s.head)
          (write-FreeList s.word (phys_to_virt hhdm p) s.head s.head xs ab h.linked),
    );
    aligned = (al, h.aligned);
    distinct = (ab, h.distinct);
  }

  pub pushed-Holds :
      (ps : List ℕ) (s : Pmm) (xs : List ℕ)
      → Holds s xs
      → Fresh ps xs
      → Holds (pushed ps s) (onto ps xs)
  unfolding push_page
  pushed-Holds [] s xs h f = h
  pushed-Holds (p ∷ ps) s xs h f =
      pushed-Holds ps (push_page hhdm p s) (phys_to_virt hhdm p ∷ xs)
        (push_page-Holds p s xs h f.0 f.1 f.2) f.3

  pub Fresh-drop : (n : ℕ) (ps xs : List ℕ) → Fresh ps xs → Fresh (drop n ps) (onto (take n ps) xs)
  Fresh-drop zero ps xs f = f
  Fresh-drop (suc n) [] xs f = tt
  Fresh-drop (suc n) (p ∷ ps) xs f = Fresh-drop n ps (phys_to_virt hhdm p ∷ xs) f.3

  pub Fresh-take : (n : ℕ) (ps xs : List ℕ) → Fresh ps xs → Fresh (take n ps) xs
  Fresh-take zero ps xs f = tt
  Fresh-take (suc n) [] xs f = tt
  Fresh-take (suc n) (p ∷ ps) xs f = (f.0, f.1, f.2, Fresh-take n ps (phys_to_virt hhdm p ∷ xs) f.3)

  -- A list with fewer nodes leaves as much room.
  pub Fresh-mono :
      (ps xs ys : List ℕ) → ((a : ℕ) → Absent a xs → Absent a ys) → Fresh ps xs → Fresh ps ys
  Fresh-mono [] xs ys h f = tt
  Fresh-mono (p ∷ ps) xs ys h f = (
    f.0,
    f.1,
    h (phys_to_virt hhdm p) f.2,
    Fresh-mono ps (phys_to_virt hhdm p ∷ xs) (phys_to_virt hhdm p ∷ ys) (λ a q. (q.0, h a q.1)) f.3,
  )
