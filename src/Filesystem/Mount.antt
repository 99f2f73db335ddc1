-- ===== src/Filesystem/Mount.antt =====
-- `mount_fs` (`src/filesystem/vfs/mount.c`).
use reddyos_osdev.Base.{
  ℕ, ◌<◌, ◌≡◌, ◌∙◌, refl, ap, Bool, true, false, Option, none, some, List, [], ◌∷◌, ◌++◌, ◌==◌, ltb,
  leb, if◌then◌else◌, length, arith, Bool-cases, Option-cases, inl, inr, is_some, some-injective,
}
use reddyos_osdev.Base.Int.{ℤ, pos, negsuc}
use reddyos_osdev.Base.Outcome.{Outcome, done, panic}
use reddyos_osdev.Filesystem.Vfs.{
  Vfs, Vnode, nothing, children, raw, slash, put_node, same_text, find_child, component,
  strip_leading, direct_child, vfs_find_vnode,
}
use reddyos_osdev.Filesystem.Vfs.Path.{IsName, component-name, strip_trailing-name}

-- The children with the first of that name replaced; none if there is none.
unfoldable pub replace_child : (ℕ → Vnode) → List ℕ → List ℕ → ℕ → Option (List ℕ)
replace_child node [] name new = none
replace_child node (n ∷ ns) name new =
    if same_text (node n).name name
    then some (new ∷ ns)
    else elim (replace_child node ns name new) [ none ↦ none | some ms ↦ some (n ∷ ms) ]

-- The children with the new one; none if there is no room among 64.
unfoldable pub mount_child : (ℕ → Vnode) → List ℕ → List ℕ → ℕ → Option (List ℕ)
mount_child node ns name new = elim (replace_child node ns name new) [
  | some ms ↦ some ms
  | none ↦ if ltb (length ns) 64 then some (ns ++ new ∷ []) else none
]

-- The part of `mount_fs` behind the tests of the path.
unfoldable pub mount_under : ℕ → List ℕ → ℕ → Vfs → Outcome (ℤ × Vfs)
mount_under parent name new v = elim (v.node parent).internal [
  | nothing ↦ done (negsuc 0, v)
  | raw word ↦
      if word == 0
      then done (
        pos 0,
        record v { node = put_node v.node parent (record (v.node parent) { internal = raw new }) },
      )
      else panic
  | children ns ↦ elim (mount_child v.node ns name new) [
    | none ↦ done (negsuc 0, v)
    | some ms ↦ done (
      pos 0,
      record v {
        node = put_node v.node parent (record (v.node parent) { internal = children ms });
      },
    )
  ]
]

abbrev pub is_root_path : Option (List ℕ) → Bool
is_root_path none = true
is_root_path (some path) = same_text path (slash ∷ [])

unfoldable pub mount_fs : Option (List ℕ) → Option ℕ → Vfs → Outcome (ℤ × Vfs)
mount_fs path none v = done (negsuc 0, v)
mount_fs none (some new) v = elim v.root [
  | none ↦ done (negsuc 0, v)
  | some root ↦ done (pos 0, record v { root = some new })
]
mount_fs (some path) (some new) v = elim v.root [
  | none ↦
      if same_text path (slash ∷ [])
      then done (pos 0, record v { root = some new })
      else done (negsuc 0, v)
  | some root ↦
      if same_text path (slash ∷ [])
      then done (pos 0, record v { root = some new })
      else if is_some (component (strip_leading path)).1
      then done (negsuc 0, v)
      else mount_under root (strip_leading path) new v
]

same_text_refl : (a : List ℕ) → same_text a a ≡ true
unfolding same_text
same_text_refl [] = refl
same_text_refl (c ∷ a) = ground (arith, same_text_refl a)

-- No child of that name before; the new one is the first and only one.
replace_child-none :
    (node : ℕ → Vnode) (ns name : List ℕ) (new : ℕ)
    → (node new).name ≡ name
    → replace_child node ns name new ≡ none
    → find_child node (ns ++ new ∷ []) name ≡ some new
unfolding replace_child find_child
replace_child-none node [] name new e h = rw (e, same_text_refl name) refl
replace_child-none node (n ∷ ns) name new e h = elim (Bool-cases (same_text (node n).name name)) [
  | inl same ↦ cc (rw same at h)
  | inr other ↦ elim (Option-cases (replace_child node ns name new)) [
    | inl absent ↦ rw other (replace_child-none node ns name new e absent)
    | inr (ms, found) ↦ cc (rw (other, found) at h)
  ]
]

replace_child-some :
    (node : ℕ → Vnode) (ns name : List ℕ) (new : ℕ) (ms : List ℕ)
    → (node new).name ≡ name
    → replace_child node ns name new ≡ some ms
    → find_child node ms name ≡ some new
unfolding replace_child find_child
replace_child-some node [] name new ms e h = cc
replace_child-some node (n ∷ ns) name new ms e h =
    elim (Bool-cases (same_text (node n).name name)) [
      | inl same ↦
          let hit : new ∷ ns ≡ ms = some-injective _ _ (rw same at h) in
          rw (← hit, e, same_text_refl name) refl
      | inr other ↦ elim (Option-cases (replace_child node ns name new)) [
        | inl absent ↦ cc (rw (other, absent) at h)
        | inr (ks, found) ↦
            let hit : n ∷ ks ≡ ms = some-injective _ _ (rw (other, found) at h) in
            rw (← hit, other) (replace_child-some node ns name new ks e found)
      ]
    ]

mount_child_lem :
    (node : ℕ → Vnode) (ns name : List ℕ) (new : ℕ)
    → (node new).name ≡ name
    → length ns < 64
    → (ms : List ℕ) × (mount_child node ns name new ≡ some ms)
      × (find_child node ms name ≡ some new)
unfolding mount_child
mount_child_lem node ns name new e room = elim (Option-cases (replace_child node ns name new)) [
  | inl absent ↦
      let free : ltb (length ns) 64 ≡ true = ground (arith, room) in
      (
        ns ++ new ∷ [],
        rw (absent, mount_child) (rw free refl),
        replace_child-none node ns name new e absent,
      )
  | inr (ms, found) ↦
      (ms, rw (found, mount_child) refl, replace_child-some node ns name new ms e found)
]

-- Only the names of the nodes matter to a search.
find_child_names :
    (node node' : ℕ → Vnode) (ns name : List ℕ)
    → ((b : ℕ) → (node' b).name ≡ (node b).name)
    → find_child node' ns name ≡ find_child node ns name
unfolding find_child
find_child_names node node' [] name h = refl
find_child_names node node' (n ∷ ns) name h = rw (h n, find_child_names node node' ns name h) refl

-- Through a directory that is a child, directly under the root.
find_direct :
    (v : Vfs) (root m : ℕ) (ms name : List ℕ)
    → v.root ≡ some root
    → (v.node root).internal ≡ children ms
    → IsName name
    → find_child v.node ms name ≡ some m
    → vfs_find_vnode v (slash ∷ name) ≡ done (some m)
unfolding vfs_find_vnode strip_leading direct_child
find_direct v root m ms name e dir h found =
    let some_bytes : (length name == 0) ≡ false = ground (arith, h.0) in
    let short : leb 128 (length name) ≡ false = ground (arith, h.1) in
    let direct : direct_child v.node root name ≡ done (some m) =
      rw (dir, direct_child) (ap done found) in
    rw (e, some_bytes, short, strip_trailing-name name h.2, direct) refl

proper_path : (name : List ℕ) → IsName name → same_text (slash ∷ name) (slash ∷ []) ≡ false
unfolding same_text
proper_path [] h = absurd (omega (arith, h.0))
proper_path (b ∷ name) h = refl

-- Mounting a node under its own name, on a root that is a directory with room for one more child,
-- succeeds, and the path with that name then leads to the node, whether or not another had the name
-- before.
pub mount_fs_lem :
    (v : Vfs) (root new : ℕ) (ns name : List ℕ)
    → v.root ≡ some root
    → (v.node root).internal ≡ children ns
    → IsName name
    → (v.node new).name ≡ name
    → length ns < 64
    → (v' : Vfs) × (mount_fs (some (slash ∷ name)) (some new) v ≡ done (pos 0, v'))
      × (vfs_find_vnode v' (slash ∷ name) ≡ done (some new))
unfolding mount_fs mount_under strip_leading
mount_fs_lem v root new ns name e dir h own room =
    let (ms, mounted, found) = mount_child_lem v.node ns name new own room in
    let node' = put_node v.node root (record (v.node root) { internal = children ms }) in
    let v' : Vfs = record v { node = node' } in
    let dir' : (node' root).internal ≡ children ms = ground arith in
    let same : (b : ℕ) → (node' b).name ≡ (v.node b).name =
      λ b. ground (arith, ap (λ k. (v.node k).name) {x = root} {y = b}) in
    (
      v',
      rw (e, proper_path name h, component-name name h.2, dir, mounted) refl,
      find_direct v' root new ms name e dir' h (find_child_names v.node node' ms name same ∙ found),
    )
