-- ===== src/Filesystem/Vfs/Lookup.antt =====
-- What a path finds, by the names of the nodes (`vfs_find_vnode` of `src/filesystem/vfs/vfs.c`).
use reddyos_osdev.Base.{
  ℕ, ◌<◌, ◌≡◌, ◌≢◌, ◌∙◌, ◌⊎◌, inl, inr, refl, ap, sym, true, false, Option, none, some, List, [],
  ◌∷◌, ◌++◌, ◌==◌, length, All, arith, Bool-cases, ==_iff,
}
use reddyos_osdev.Base.Outcome.{done, ◌>>=◌}
use reddyos_osdev.Filesystem.Vfs.{
  Vfs, Vnode, nothing, children, raw, slash, same_text, find_child, step_into, direct_child,
  or_walk, vfs_find_vnode,
}
use reddyos_osdev.Filesystem.Vfs.Path.{join, IsName, follow, resolve, find_spec, find_spec_lem}

-- `m` is the first of some nodes with the name.
abbrev pub FirstNamed : (ℕ → Vnode) → List ℕ → List ℕ → ℕ → Type 0
FirstNamed node [] name m = ⊥
FirstNamed node (n ∷ ns) name m =
    (((node n).name ≡ name) × (m ≡ n)) ⊎ (((node n).name ≢ name) × FirstNamed node ns name m)

-- `m` is the child of `n` with the name.
abbrev pub Child : (ℕ → Vnode) → ℕ → List ℕ → ℕ → Type 0
Child node n name m = (ns : List ℕ) × ((node n).internal ≡ children ns) × FirstNamed node ns name m

-- `n` has no children, or none with the name.
abbrev pub NoChild : (ℕ → Vnode) → ℕ → List ℕ → Type 0
NoChild node n name =
    ((node n).internal ≡ nothing)
    ⊎ (((node n).internal ≡ raw 0)
        ⊎ ((ns : List ℕ) × ((node n).internal ≡ children ns) × All (λ k. (node k).name ≢ name) ns))

-- The names lead from `n` to `m`, from child to child.
abbrev pub Leads : (ℕ → Vnode) → ℕ → List (List ℕ) → ℕ → Type 0
Leads node n [] m = n ≡ m
Leads node n (c ∷ cs) m = (k : ℕ) × Child node n c k × Leads node k cs m

-- On the way along the names there is a node without a child of the next.
abbrev pub Lost : (ℕ → Vnode) → ℕ → List (List ℕ) → Type 0
Lost node n [] = ⊥
Lost node n (c ∷ cs) = NoChild node n c ⊎ ((k : ℕ) × Child node n c k × Lost node k cs)

-- What joined names stand for: the child of the root with all of them for its name, or, without such a
-- child, the node that they lead to, if they do.
abbrev pub Means : (ℕ → Vnode) → ℕ → List (List ℕ) → Option ℕ → Type 0
Means node root cs none = NoChild node root (join cs) × Lost node root cs
Means node root cs (some m) =
    Child node root (join cs) m ⊎ (NoChild node root (join cs) × Leads node root cs m)

same_text_self : (a : List ℕ) → same_text a a ≡ true
unfolding same_text
same_text_self [] = refl
same_text_self (c ∷ a) = ground (arith, same_text_self a)

same_text_ne : (a b : List ℕ) → a ≢ b → same_text a b ≡ false
unfolding same_text
same_text_ne [] [] ne = absurd (ne refl)
same_text_ne [] (d ∷ b) ne = refl
same_text_ne (c ∷ a) [] ne = refl
same_text_ne (c ∷ a) (d ∷ b) ne = elim (Bool-cases (c == d)) [
  | inl e ↦ rw e (same_text_ne a b (λ q. ne (cc ((==_iff c d).0 e, q))))
  | inr e ↦ rw e refl
]

find_child_first :
    (node : ℕ → Vnode) (ns name : List ℕ) (m : ℕ)
    → FirstNamed node ns name m
    → find_child node ns name ≡ some m
unfolding find_child
find_child_first node [] name m h = absurd h
find_child_first node (n ∷ ns) name m (inl (e, same)) =
    rw (e, same_text_self name) (ap some (sym same))
find_child_first node (n ∷ ns) name m (inr (ne, h)) =
    rw (same_text_ne (node n).name name ne) (find_child_first node ns name m h)

find_child-none :
    (node : ℕ → Vnode) (ns name : List ℕ)
    → All (λ k. (node k).name ≢ name) ns
    → find_child node ns name ≡ none
unfolding find_child
find_child-none node [] name h = refl
find_child-none node (n ∷ ns) name h =
    rw (same_text_ne (node n).name name h.0) (find_child-none node ns name h.1)

module _ (node : ℕ → Vnode) where
  -- The two searches among children, for a whole path and for one name, give the child or none.
  step_into-Child :
      (n m : ℕ) (name : List ℕ) → Child node n name m → step_into node n name ≡ done (some m)
  unfolding step_into
  step_into-Child n m name (ns, e, h) =
      rw (e, step_into) (ap done (find_child_first node ns name m h))

  step_into-NoChild :
      (n : ℕ) (name : List ℕ) → NoChild node n name → step_into node n name ≡ done none
  unfolding step_into
  step_into-NoChild n name (inl e) = rw (e, step_into) refl
  step_into-NoChild n name (inr (inl e)) = rw (e, step_into) refl
  step_into-NoChild n name (inr (inr (ns, e, h))) =
      rw (e, step_into) (ap done (find_child-none node ns name h))

  direct_child-step_into :
      (n : ℕ) (name : List ℕ) → direct_child node n name ≡ step_into node n name
  unfolding direct_child step_into
  direct_child-step_into n name = refl

  resolve-Leads :
      (n m : ℕ) (cs : List (List ℕ)) → Leads node n cs m → resolve node n cs ≡ done (some m)
  unfolding resolve
  resolve-Leads n m [] h = ap (λ k. done (some k)) h
  resolve-Leads n m (c ∷ cs) (k, child, h) =
      ap (λ o. o >>= λ found. follow found (λ j. resolve node j cs)) (step_into-Child n k c child)
      ∙ resolve-Leads k m cs h

  resolve-Lost : (n : ℕ) (cs : List (List ℕ)) → Lost node n cs → resolve node n cs ≡ done none
  unfolding resolve
  resolve-Lost n [] h = absurd h
  resolve-Lost n (c ∷ cs) (inl h) =
      ap (λ o. o >>= λ found. follow found (λ j. resolve node j cs)) (step_into-NoChild n c h)
  resolve-Lost n (c ∷ cs) (inr (k, child, h)) =
      ap (λ o. o >>= λ found. follow found (λ j. resolve node j cs)) (step_into-Child n k c child)
      ∙ resolve-Lost k cs h

  -- With no child of the whole name the search goes along the names.
  find_spec-resolve :
      (root : ℕ) (cs : List (List ℕ))
      → NoChild node root (join cs)
      → find_spec node root cs ≡ resolve node root cs
  unfolding find_spec
  find_spec-resolve root cs h =
      ap (λ o. o >>= λ direct. or_walk direct (resolve node root cs))
        (direct_child-step_into root (join cs) ∙ step_into-NoChild root (join cs) h)

  find_spec-Means :
      (root : ℕ) (cs : List (List ℕ)) (r : Option ℕ)
      → Means node root cs r
      → find_spec node root cs ≡ done r
  unfolding find_spec
  find_spec-Means root cs none (whole, lost) =
      find_spec-resolve root cs whole ∙ resolve-Lost root cs lost
  find_spec-Means root cs (some m) (inl child) =
      ap (λ o. o >>= λ direct. or_walk direct (resolve node root cs))
        (direct_child-step_into root (join cs) ∙ step_into-Child root m (join cs) child)
  find_spec-Means root cs (some m) (inr (whole, leads)) =
      find_spec-resolve root cs whole ∙ resolve-Leads root m cs leads

-- A path of proper names, of fewer than 127 bytes, finds what the names stand for, or gives NULL if they
-- stand for nothing, with a slash in front, and with or without one at the end.
pub vfs_find_vnode_lem :
    (v : Vfs) (root : ℕ) (c : List ℕ) (cs : List (List ℕ)) (r : Option ℕ)
    → v.root ≡ some root
    → All IsName (c ∷ cs)
    → length (join (c ∷ cs)) < 127
    → Means v.node root (c ∷ cs) r
    → (vfs_find_vnode v (slash ∷ join (c ∷ cs)) ≡ done r)
      × (vfs_find_vnode v (slash ∷ (join (c ∷ cs) ++ slash ∷ [])) ≡ done r)
vfs_find_vnode_lem v root c cs r e h small means =
    let both = find_spec_lem v root c cs e h small in
    let found = find_spec-Means v.node root (c ∷ cs) r means in (both.0 ∙ found, both.1 ∙ found)
