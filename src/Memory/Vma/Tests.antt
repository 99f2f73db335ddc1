-- ===== src/Memory/Vma/Tests.antt =====
-- Runs of the areas of a process (`src/memory/vma.c`), with lists in order for the search trees.
use reddyos_osdev.Base.{
  ℕ, ◌+◌, ◌*◌, ◌/◌, ◌%◌, ◌≤◌, ◌≡◌, ◌≢◌, ◌∙◌, ◌⊎◌, inl, inr, refl, ap, sym, true, false, some, none,
  List, [], ◌∷◌, All, arith, if◌then◌else◌, ◌==◌,
}
use reddyos_osdev.Base.Int.{pos}
use reddyos_osdev.Base.Outcome.{done}
use reddyos_osdev.Memory.BsTree.{
  BsTree, Shape, leaf, node, order, insert_sorted, discard, nearest, first, after, Among,
}
use reddyos_osdev.Memory.Vma.{
  Vm, vma_base, vma_start, areas, empty_area, shrink, vma_find, vma_overlaps, vma_find_free_region,
  do_sys_mmap, munmap_region,
}
use reddyos_osdev.Memory.Vma.Search.{Contains, Meets, IsValid, vma_find_lem, vma_overlaps_lem}
use reddyos_osdev.Memory.Vma.Gap.{Free, EndsBy, vma_find_free_region_lem}
use reddyos_osdev.Memory.Vma.Mapping.{mapped_area, do_sys_mmap_lem}
use reddyos_osdev.Memory.Vma.Unmapping.{Stuck}
use reddyos_osdev.Memory.Vma.Ranges.{Removed}
use reddyos_osdev.Memory.Vma.Munmap.{munmap_region_lem, munmap_region_touched}

abbrev spine : List ℕ → Shape
spine [] = leaf
spine (a ∷ as') = node leaf a (spine as')

order-spine : (xs : List ℕ) → order (spine xs) ≡ xs
order-spine [] = refl
order-spine (x ∷ xs) = ap (λ t. x ∷ t) (order-spine xs)

abbrev lists : BsTree
lists = record {
  Tree = List ℕ;
  shape = spine;
  insert = insert_sorted;
  remove = discard;
  search = nearest;
  minimum = first;
  successor = after;
  order-insert = λ value a t up new.
      order-spine (insert_sorted value a t) ∙ ap (insert_sorted value a) (sym (order-spine t));
  order-remove = λ a t. order-spine (discard a t) ∙ ap (discard a) (sym (order-spine t));
  search_nearest = λ value key t up. ap (nearest value key) (sym (order-spine t));
  minimum_first = λ t. ap first (sym (order-spine t));
  successor_after = λ a t. ap (after a) (sym (order-spine t));
}

-- Four pages, of which the first was touched; a gap of two pages; two pages.
abbrev two_areas : Vm lists
two_areas = record {
  area = λ a.
      if a == 1
      then record empty_area {
        start = 0x10000000;
        end = 0x10004000;
        phys_pages = record { start = 0x10000000; phys = 0x5000 } ∷ [];
      }
      else record empty_area { start = 0x10006000; end = 0x10008000 };
  tree = 1 ∷ 2 ∷ [];
  fresh = 9 ∷ [];
  unmapped = [];
}

two_areas-IsValid : IsValid lists two_areas
two_areas-IsValid = record {
  apart = (omega arith, (omega arith, tt), (omega arith, tt, tt));
  range = ((omega arith, omega arith, refl, refl), ((omega arith, omega arith, refl, refl), tt));
}

vma_find_lem_example :
    ((a : ℕ) × (vma_find lists two_areas 0x10001000 ≡ some a)
      × Among a (areas lists two_areas)
      × Contains (two_areas.area a) 0x10001000)
    ⊎ ((vma_find lists two_areas 0x10001000 ≡ none)
        × All (λ a. ¬ Contains (two_areas.area a) 0x10001000) (areas lists two_areas))
vma_find_lem_example = vma_find_lem lists two_areas 0x10001000 two_areas-IsValid

vma_overlaps_lem_example :
    ((vma_overlaps lists two_areas 0x10004000 0x10006000 ≡ done true)
      × (b : ℕ) × Among b (areas lists two_areas)
      × Meets 0x10004000 0x10006000 (two_areas.area b))
    ⊎ ((vma_overlaps lists two_areas 0x10004000 0x10006000 ≡ done false)
        × All (λ b. ¬ Meets 0x10004000 0x10006000 (two_areas.area b)) (areas lists two_areas))
vma_overlaps_lem_example = vma_overlaps_lem lists two_areas 0x10004000 0x10006000 two_areas-IsValid

vma_find_free_region_lem_example :
    (p : ℕ) × (vma_find_free_region lists two_areas 0x1800 ≡ done p)
    × (vma_base ≤ p)
    × (p % 4096 ≡ 0)
    × Free two_areas.area p 0x1800 (areas lists two_areas)
    × ((m : ℕ) → vma_base ≤ m → EndsBy two_areas.area m (areas lists two_areas) → p ≤ m)
vma_find_free_region_lem_example =
    vma_find_free_region_lem lists two_areas 0x1800 two_areas-IsValid (omega arith) (omega arith)

do_sys_mmap_lem_example :
    (p : ℕ) × (s' : Vm lists) × (do_sys_mmap lists 22 12 19 (λ _. false) 0 0x1800 0 two_areas
      ≡ done (pos p, s'))
    × IsValid lists s'
    × (areas lists s' ≡ insert_sorted (vma_start lists s') 9 (areas lists two_areas))
    × (s'.area 9 ≡ mapped_area 0 p ((0x1800 + 4095) / 4096 * 4096) 0 0)
    × ((b : ℕ) → b ≢ 9 → s'.area b ≡ two_areas.area b)
    × Free two_areas.area p ((0x1800 + 4095) / 4096 * 4096) (areas lists two_areas)
    × (p % 4096 ≡ 0)
do_sys_mmap_lem_example =
    do_sys_mmap_lem lists 22 12 19 (λ _. false) 0 0x1800 0 two_areas 9 [] 0x10008000
      two_areas-IsValid refl (omega arith) (omega arith, (omega arith, tt)) (inl refl) (omega arith)
      (omega arith) (omega arith, (omega arith, tt)) (omega arith)

munmap_region_lem_example :
    (s' : Vm lists) × (munmap_region lists 1 22 0x10002000 0x1000 two_areas ≡ done (pos 0, s'))
    × Removed lists two_areas 0x10002000 0x1000 s'
munmap_region_lem_example =
    munmap_region_lem lists 1 22 0x10002000 0x1000 two_areas 1 9 [] two_areas-IsValid (inl refl)
      (omega arith) (omega arith) (omega arith) refl (omega arith) (omega arith, (omega arith, tt))
      (omega arith) refl refl (inr (unfold shrink in ((omega arith, omega arith), tt)))

munmap_region_touched_example : Stuck (munmap_region lists 7 22 0x10000000 0x1000 two_areas)
munmap_region_touched_example =
    munmap_region_touched lists 7 22 0x10000000 0x1000 two_areas 1 9 [] two_areas-IsValid (inl refl)
      (omega arith) (omega arith) (omega arith) refl (omega arith) (omega arith, (omega arith, tt))
      (inr (omega arith)) (inl (λ c. absurd (unfold shrink in omega (arith, c.0))))
