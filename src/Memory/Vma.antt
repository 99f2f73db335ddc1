-- ===== src/Memory/Vma.antt =====
-- The areas of a process (`src/memory/vma.c`, `headers/memory/vma.h`) and the system calls that make and
-- remove them (`src/syscalls/memory/memory.c`). The areas lie on the heap and hang in a search tree by
-- the node within them; one is named by its address. The addresses that `kcalloc` and `kmalloc` give,
-- one call after the other, are part of the state; a list that has ended gives NULL, which the code
-- writes through.
pub mod Search
pub mod Gap
pub mod Mapping
pub mod Unmapping
pub mod Ranges
pub mod Munmap
mod Tests
use reddyos_osdev.Base.{
  ℕ, zero, suc, ◌+◌, ◌-◌, ◌%◌, ◌^◌, Bool, true, false, Option, none, some, List, [], ◌∷◌, ◌++◌, ltb,
  leb, ◌==◌, not, ◌&&◌, ◌||◌, if◌then◌else◌, length,
}
use reddyos_osdev.Base.Int.{ℤ, pos, negsuc}
use reddyos_osdev.Base.Outcome.{Outcome, done, panic, out_of_fuel, ◌>>=◌}
use reddyos_osdev.Memory.Page.{page_size, add64, sub64, align_up}
use reddyos_osdev.Memory.BsTree.{BsTree, Shape, leaf, node, order}

abbrev pub vma_base : ℕ
vma_base = 0x10000000

pub data VmaType : Type 0 where
  vma_anon vma_file : VmaType

-- `vma_phys_page_t`, in a list.
pub record PhysPage : Type 0 where
  pub start : ℕ
  pub phys : ℕ

-- `vm_area_t` without its node. `file` and `pgoff` are 0 in an area without a file.
pub record VmArea : Type 0 where
  pub start : ℕ
  pub end : ℕ
  pub vm_flags : ℕ
  pub kind : VmaType
  pub phys_pages : List PhysPage
  pub file : ℕ
  pub pgoff : ℕ

abbrev pub empty_area : VmArea
empty_area = record {
  start = 0;
  end = 0;
  vm_flags = 0;
  kind = vma_anon;
  phys_pages = [];
  file = 0;
  pgoff = 0;
}

-- The error `-code`.
abbrev pub failure : ℕ → ℤ
failure zero = pos 0
failure (suc code) = negsuc code

-- `vma_add_page`, behind the pages that the area has.
unfoldable pub vma_add_page : ℕ → ℕ → VmArea → VmArea
vma_add_page start phys vma = record vma {
  phys_pages = vma.phys_pages ++ record { start = start; phys = phys } ∷ [];
}

-- `page.start` is not in the area.
abbrev pub is_outside : VmArea → PhysPage → Bool
is_outside vma page = ltb page.start vma.start || leb vma.end page.start

-- The loop of `vma_cleanup` from a page on; `has_prev` says whether `prev` was set. A page that is
-- outside is given back to the heap, which marks its block and leaves what is in it, and is read again
-- in the next round, as it is not stepped over. If `prev` was not set, it is read all the same: a fault.
unfoldable pub cleanup_from : ℕ → VmArea → Bool → List PhysPage → Outcome (List PhysPage)
cleanup_from fuel vma has_prev [] = done []
cleanup_from zero vma has_prev (page ∷ pages) = out_of_fuel
cleanup_from (suc fuel) vma has_prev (page ∷ pages) =
    let again = cleanup_from fuel vma has_prev (page ∷ pages) in
    let rest = cleanup_from fuel vma true pages in
    if is_outside vma page
    then (if has_prev then again else panic)
    else rest >>= λ kept. done (page ∷ kept)

unfoldable pub vma_cleanup : ℕ → VmArea → Outcome VmArea
vma_cleanup fuel vma =
    cleanup_from fuel vma false vma.phys_pages >>= λ kept. done (record vma { phys_pages = kept })

-- The area behind the gap, if the part to unmap lies in the middle.
abbrev pub tail_area : VmArea → ℕ → ℕ → VmArea
tail_area vma addr len =
    let plain : VmArea = record empty_area {
      start = add64 addr len;
      end = vma.end;
      vm_flags = vma.vm_flags;
      kind = vma.kind;
    } in
    elim vma.kind [
      | vma_anon ↦ plain
      | vma_file ↦ record plain {
        file = vma.file;
        pgoff = add64 vma.pgoff (sub64 (add64 addr len) vma.start);
      }
    ]

-- What is left of the area before the gap, or behind it.
unfoldable pub shrink : ℕ → ℕ → VmArea → VmArea
shrink addr len vma =
    if addr == vma.start
    then record vma {
      start = add64 vma.start len;
      pgoff = elim vma.kind [ vma_anon ↦ vma.pgoff | vma_file ↦ add64 vma.pgoff len ];
    }
    else record vma { end = addr }

module _ (bt : BsTree) where
  open bt use {Tree, shape, insert, remove, search, minimum, successor}

  -- The areas by address, the tree of the process, the addresses to come from the heap, and the
  -- pages unmapped so far, the last first.
  pub record Vm : Type 0 where
    pub area : ℕ → VmArea
    pub tree : Tree
    pub fresh : List ℕ
    pub unmapped : List ℕ

  -- `vma_tree_get_value`.
  abbrev pub vma_start : Vm → ℕ → ℕ
  vma_start s a = (s.area a).start

  abbrev pub areas : Vm → List ℕ
  areas s = order (shape s.tree)

  abbrev pub put_area : Vm → ℕ → VmArea → Vm
  put_area s a vma = record s { area = λ b. if b == a then vma else s.area b }

  -- `kcalloc(1, sizeof(vm_area_t))`, written through at once.
  unfoldable pub new_area : VmArea → Vm → Outcome (ℕ × Vm)
  new_area vma s = elim s.fresh [
    | [] ↦ panic
    | a ∷ more ↦ if a == 0 then panic else done (a, put_area (record s { fresh = more }) a vma)
  ]

  unfoldable pub vma_insert : ℕ → Vm → Vm
  vma_insert a s = record s { tree = insert (vma_start s) a s.tree }

  unfoldable pub vma_remove : ℕ → Vm → Vm
  vma_remove a s = record s { tree = remove a s.tree }

  -- The pages are unmapped one by one.
  unfoldable pub unmap_pages : List PhysPage → List ℕ → List ℕ
  unmap_pages [] log = log
  unmap_pages (page ∷ pages) log = unmap_pages pages (page.start ∷ log)

  unfoldable pub vma_destroy : ℕ → Vm → Vm
  vma_destroy a s = record s { unmapped = unmap_pages (s.area a).phys_pages s.unmapped }

  unfoldable pub vma_find : Vm → ℕ → Option ℕ
  vma_find s addr = elim (search (vma_start s) addr s.tree) [
    | none ↦ none
    | some a ↦ if leb (s.area a).start addr && ltb addr (s.area a).end then some a else none
  ]

  -- The loop of `vma_overlaps` from a node on.
  unfoldable pub overlaps_from : ℕ → Vm → ℕ → ℕ → Option ℕ → Outcome Bool
  overlaps_from fuel s start end none = done false
  overlaps_from zero s start end (some a) = out_of_fuel
  overlaps_from (suc fuel) s start end (some a) =
      let rest = overlaps_from fuel s start end (successor a s.tree) in
      if leb end (s.area a).start
      then done false
      else if ltb start (s.area a).end && ltb (s.area a).start end
      then done true
      else rest

  unfoldable pub vma_overlaps : Vm → ℕ → ℕ → Outcome Bool
  vma_overlaps s start end = elim (shape s.tree) [
    | leaf ↦ done false
    | node l a r ↦
        overlaps_from (length (areas s)) s start end
          (elim (search (vma_start s) start s.tree) [ none ↦ minimum s.tree | some b ↦ some b ])
  ]

  -- `scan`, on the two variables that it is given by address: `last_end` and `result`.
  unfoldable pub scan : Vm → ℕ → Shape → ℕ × ℕ → ℕ × ℕ
  scan s len leaf st = st
  scan s len (node l a r) st =
      let left = scan s len l st in
      let right = scan s len r ((s.area a).end, left.1) in
      if not (st.1 == 0)
      then st
      else if leb len (sub64 (s.area a).start left.0)
      then (left.0, left.0)
      else right

  unfoldable pub vma_find_free_region : Vm → ℕ → Outcome ℕ
  vma_find_free_region s len =
      let st = scan s len (shape s.tree) (vma_base, 0) in
      vma_overlaps s st.0 (add64 st.0 len) >>= λ overlap.
      done (if overlap then 0 else if st.1 == 0 then st.0 else st.1)

  -- `file` is 0 for no file; `has_fault` says whether the functions of a file's node have a
  -- `vma_fault`.
  unfoldable pub mmap_region : ℕ → (ℕ → Bool) → ℕ → ℕ → ℕ → ℕ → ℕ → Vm → Outcome (ℤ × Vm)
  mmap_region enodev has_fault file addr len vm_flags pgoff s =
      let vma : VmArea = record empty_area {
        start = addr;
        end = add64 addr len;
        vm_flags = vm_flags;
      } in
      if file == 0
      then (new_area vma s >>= λ r. done (pos addr, vma_insert r.0 r.1))
      else if not (has_fault file)
      then (new_area vma s >>= λ r. done (failure enodev, r.1))
      else (new_area (record vma { kind = vma_file; file = file; pgoff = pgoff }) s >>= λ r.
          done (pos addr, vma_insert r.0 r.1))

  unfoldable pub split_tail : ℕ → ℕ → ℕ → Vm → Outcome Vm
  split_tail a addr len s =
      let vma = s.area a in
      if ltb vma.start addr && ltb (add64 addr len) vma.end
      then (new_area (tail_area vma addr len) s >>= λ r. done (vma_insert r.0 r.1))
      else done s

  -- The end of `munmap_region`, on the area that was shrunk.
  unfoldable pub settle : ℕ → ℕ → Vm → Outcome Vm
  settle fuel a s =
      if leb (s.area a).end (s.area a).start
      then done (vma_destroy a (vma_remove a s))
      else vma_cleanup fuel (s.area a) >>= λ vma. done (put_area s a vma)

  unfoldable pub munmap_region : ℕ → ℕ → ℕ → ℕ → Vm → Outcome (ℤ × Vm)
  munmap_region fuel einval addr len s = elim (vma_find s addr) [
    | none ↦ done (failure einval, s)
    | some a ↦
        if ltb addr (s.area a).start || ltb (s.area a).end (add64 addr len)
        then done (failure einval, s)
        else split_tail a addr len s >>= λ s1.
            settle fuel a (put_area s1 a (shrink addr len (s1.area a))) >>= λ s2. done (pos 0, s2)
  ]

  -- `file` is what `process_unpack_fd` gives.
  unfoldable pub do_sys_mmap : ℕ → ℕ → ℕ → (ℕ → Bool) → ℕ → ℕ → ℕ → Vm → Outcome (ℤ × Vm)
  do_sys_mmap einval enomem enodev has_fault file len offset s =
      let rounded = align_up len page_size in
      if rounded == 0
      then done (failure einval, s)
      else vma_find_free_region s len >>= λ addr.
          if addr == 0
          then done (failure enomem, s)
          else mmap_region enodev has_fault file addr rounded 0 offset s

  unfoldable pub do_sys_munmap : ℕ → ℕ → ℕ → ℕ → Vm → Outcome (ℤ × Vm)
  do_sys_munmap fuel einval addr len s =
      let rounded = align_up len page_size in
      if rounded == 0 then done (failure einval, s) else munmap_region fuel einval addr rounded s
