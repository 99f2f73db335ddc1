-- ===== src/Filesystem/Vfs.antt =====
-- The virtual file system (`src/filesystem/vfs/vfs.c`, `src/filesystem/vfs/mount.c`). Nodes are named
-- by their address; a text is the list of its bytes before the NUL, and an array of pointers that ends
-- with NULL is the list before it.
pub mod Path
pub mod Lookup
use Prim.Native.Nat.{bit_and}
use reddyos_osdev.Base.{
  ℕ, zero, suc, ◌+◌, ◌-◌, ◌*◌, ◌/◌, ◌%◌, ◌^◌, Bool, true, false, Option, none, some, List, [], ◌∷◌,
  ◌++◌, ◌==◌, leb, ltb, not, ◌&&◌, if◌then◌else◌, length,
}
use reddyos_osdev.Base.Int.{ℤ, pos, negsuc, ◌+ℤ◌, ltb_ℤ, pos_part}
use reddyos_osdev.Base.Outcome.{Outcome, done, panic, out_of_fuel, ◌>>=◌}

-- The byte `/`.
abbrev pub slash : ℕ
slash = 47

-- `internal` of a node: NULL, the children of a directory, or something else, such as the bytes of a
-- file, by its first word. The code takes these for children all the same: a first word of 0 ends them
-- at once, any other is followed as a pointer.
pub data Internal : Type 0 where
  nothing : Internal
  children : List ℕ → Internal
  raw : ℕ → Internal

-- `vnode_ops_t`, by the addresses of the functions, 0 for NULL.
pub record VnodeOps : Type 0 where
  pub read : ℕ
  pub write : ℕ
  pub ioctl : ℕ
  pub vma_fault : ℕ

pub record Vnode : Type 0 where
  pub name : List ℕ
  pub size : ℤ
  pub ops : Option VnodeOps
  pub internal : Internal

-- `file_t`.
pub record File : Type 0 where
  pub vnode : ℕ
  pub offset : ℕ
  pub refcount : ℕ
  pub flags : ℕ

-- The nodes by address, and the root of `root_mount`, if there is one.
pub record Vfs : Type 0 where
  pub node : ℕ → Vnode
  pub root : Option ℕ

-- `strcmp(a, b) == 0`.
unfoldable pub same_text : List ℕ → List ℕ → Bool
same_text [] [] = true
same_text [] (d ∷ b) = false
same_text (c ∷ a) [] = false
same_text (c ∷ a) (d ∷ b) = c == d && same_text a b

unfoldable pub find_child : (ℕ → Vnode) → List ℕ → List ℕ → Option ℕ
find_child node [] name = none
find_child node (n ∷ ns) name =
    if same_text (node n).name name then some n else find_child node ns name

-- The bytes before the next slash, and those behind it.
unfoldable pub component : List ℕ → List ℕ × Option (List ℕ)
component [] = ([], none)
component (c ∷ path) =
    if c == slash then ([], some path) else (c ∷ (component path).0, (component path).1)

unfoldable pub strip_leading : List ℕ → List ℕ
strip_leading [] = []
strip_leading (c ∷ path) = if c == slash then path else c ∷ path

unfoldable pub strip_trailing : List ℕ → List ℕ
strip_trailing [] = []
strip_trailing (c ∷ []) = if c == slash then [] else c ∷ []
strip_trailing (c ∷ d ∷ path) = c ∷ strip_trailing (d ∷ path)

-- The search among the children of a node; following the bytes of something else is a fault.
unfoldable pub step_into : (ℕ → Vnode) → ℕ → List ℕ → Outcome (Option ℕ)
step_into node n name = elim (node n).internal [
  | nothing ↦ done none
  | raw word ↦ if word == 0 then done none else panic
  | children ns ↦ done (find_child node ns name)
]

-- The end of a round: nothing found, the last component found, or more components to go.
abbrev pub descend :
    Option ℕ → Option (List ℕ) → (ℕ → List ℕ → Outcome (Option ℕ)) → Outcome (Option ℕ)
descend none rest go = done none
descend (some m) none go = done (some m)
descend (some m) (some rest) go = go m rest

-- The traversal, component by component.
unfoldable pub walk : (ℕ → Vnode) → ℕ → ℕ → List ℕ → Outcome (Option ℕ)
walk node zero n path = out_of_fuel
walk node (suc fuel) n [] = done (some n)
walk node (suc fuel) n (c ∷ path) =
    let part = component (c ∷ path) in
    if length part.0 == 0
    then done none
    else if leb 64 (length part.0)
    then done none
    else step_into node n part.0 >>= λ found. descend found part.1 (walk node fuel)

-- The match of a whole path with one child of the root.
unfoldable pub direct_child : (ℕ → Vnode) → ℕ → List ℕ → Outcome (Option ℕ)
direct_child node n path = elim (node n).internal [
  | nothing ↦ done none
  | raw word ↦ if word == 0 then done none else panic
  | children ns ↦ done (find_child node ns path)
]

abbrev pub or_walk : Option ℕ → Outcome (Option ℕ) → Outcome (Option ℕ)
or_walk (some n) rest = done (some n)
or_walk none rest = rest

unfoldable pub vfs_find_vnode : Vfs → List ℕ → Outcome (Option ℕ)
vfs_find_vnode v path = elim v.root [
  | none ↦ done none
  | some root ↦
      let path' = strip_leading path in
      let tmp = strip_trailing path' in
      if length path' == 0
      then done (some root)
      else if leb 128 (length path')
      then done none
      else direct_child v.node root tmp >>= λ direct.
          or_walk direct (walk v.node (length tmp + 1) root tmp)
]

abbrev pub is_directory : Vnode → Bool
is_directory n = elim n.ops [
  | some o ↦ false
  | none ↦ elim n.internal [ nothing ↦ false | children ns ↦ true | raw word ↦ true ]
]

unfoldable pub vfs_is_dir : Vfs → List ℕ → Outcome Bool
vfs_is_dir v path = do
  found ← vfs_find_vnode v path
  done (elim found [ none ↦ false | some n ↦ is_directory (v.node n) ])

-- -1 for a path that names nothing or a node without children.
unfoldable pub vfs_dir_count : Vfs → List ℕ → Outcome ℤ
vfs_dir_count v path = do
  found ← vfs_find_vnode v path
  elim found [
    | none ↦ done (negsuc 0)
    | some n ↦ elim (v.node n).internal [
      | nothing ↦ done (negsuc 0)
      | raw word ↦ if word == 0 then done (pos 0) else panic
      | children ns ↦ done (pos (length ns))
    ]
  ]

abbrev pub o_trunc : ℕ
o_trunc = 16

abbrev pub put_node : (ℕ → Vnode) → ℕ → Vnode → ℕ → Vnode
put_node node a n b = if b == a then n else node b

-- The filled file and the file system, of which truncation changes a node; none for -1.
unfoldable pub vfs_open : Vfs → List ℕ → ℕ → Outcome (Option (File × Vfs))
vfs_open v path flags = do
  found ← vfs_find_vnode v path
  elim found [
    | none ↦ done none
    | some n ↦
        let file : File = record { vnode = n; offset = 0; refcount = 0; flags = flags } in
        done (
          some (
            file,
            if bit_and flags o_trunc == 0
                then v
                else record v { node = put_node v.node n (record (v.node n) { size = pos 0 }) },
          ))
  ]
