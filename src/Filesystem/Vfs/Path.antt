-- ===== src/Filesystem/Vfs/Path.antt =====
-- What path `vfs_find_vnode` (`src/filesystem/vfs/vfs.c`) takes through the nodes.
use reddyos_osdev.Base.{
  ℕ, zero, suc, ◌+◌, ◌<◌, ◌≡◌, ◌≢◌, ◌∙◌, refl, ap, false, Option, none, some, List, [], ◌∷◌, ◌++◌,
  ◌==◌, leb, length, length-append, All, arith, fun_ext, sym,
}
use mathlib.Core.List.{append-nil}
use reddyos_osdev.Base.Outcome.{Outcome, done, ◌>>=◌}
use reddyos_osdev.Filesystem.Vfs.{
  Vfs, Vnode, slash, component, strip_leading, strip_trailing, step_into, walk, descend, or_walk,
  direct_child, vfs_find_vnode,
}

-- Names without slashes, joined by slashes.
abbrev pub join : List (List ℕ) → List ℕ
join [] = []
join (c ∷ []) = c
join (c ∷ d ∷ cs) = c ++ slash ∷ join (d ∷ cs)

-- A name that can stand in a path.
abbrev pub IsName : List ℕ → Type 0
IsName c = (0 < length c) × (length c < 64) × All (λ b. b ≢ slash) c

abbrev pub follow : Option ℕ → (ℕ → Outcome (Option ℕ)) → Outcome (Option ℕ)
follow none go = done none
follow (some m) go = go m

-- Along the names, from one node to a child of it.
unfoldable pub resolve : (ℕ → Vnode) → ℕ → List (List ℕ) → Outcome (Option ℕ)
resolve node n [] = done (some n)
resolve node n (c ∷ cs) = step_into node n c >>= λ found. follow found (λ m. resolve node m cs)

pub component-name : (c : List ℕ) → All (λ b. b ≢ slash) c → component c ≡ (c, none)
unfolding component
component-name [] h = refl
component-name (b ∷ c) h = ground (arith, h.0, component-name c h.1)

component-append :
    (c rest : List ℕ) → All (λ b. b ≢ slash) c → component (c ++ slash ∷ rest) ≡ (c, some rest)
unfolding component
component-append [] rest h = refl
component-append (b ∷ c) rest h = ground (arith, h.0, component-append c rest h.1)

descend-none :
    (found : Option ℕ) (go : ℕ → List ℕ → Outcome (Option ℕ))
    → descend found none go ≡ follow found (λ m. done (some m))
descend-none none go = refl
descend-none (some m) go = refl

descend-some :
    (found : Option ℕ) (rest : List ℕ) (go : ℕ → List ℕ → Outcome (Option ℕ))
    → descend found (some rest) go ≡ follow found (λ m. go m rest)
descend-some none rest go = refl
descend-some (some m) rest go = refl

-- One round on a component of proper length.
walk_round :
    (node : ℕ → Vnode) (fuel n b : ℕ) (path c : List ℕ) (r : Option (List ℕ))
    → component (b ∷ path) ≡ (c, r)
    → 0 < length c
    → length c < 64
    → walk node (suc fuel) n (b ∷ path)
      ≡ (step_into node n c >>= λ found. descend found r (walk node fuel))
unfolding walk
walk_round node fuel n b path c r e pos small =
    let some_bytes : (length c == 0) ≡ false = ground (arith, pos) in
    let short : leb 64 (length c) ≡ false = ground (arith, small) in rw (e, some_bytes, short) refl

walk_last :
    (node : ℕ → Vnode) (fuel n : ℕ) (c : List ℕ)
    → IsName c
    → walk node (suc fuel) n c ≡ resolve node n (c ∷ [])
unfolding resolve
walk_last node fuel n [] h = absurd (omega (arith, h.0))
walk_last node fuel n (b ∷ c) h =
    walk_round node fuel n b c (b ∷ c) none (component-name (b ∷ c) h.2) h.0 h.1
    ∙ ap (λ k. step_into node n (b ∷ c) >>= k)
        (fun_ext (λ found. descend-none found (walk node fuel)))

walk_more :
    (node : ℕ → Vnode) (fuel n : ℕ) (c rest : List ℕ)
    → IsName c
    → walk node (suc fuel) n (c ++ slash ∷ rest)
      ≡ (step_into node n c >>= λ found. follow found (λ m. walk node fuel m rest))
walk_more node fuel n [] rest h = absurd (omega (arith, h.0))
walk_more node fuel n (b ∷ c) rest h =
    walk_round node fuel n b (c ++ slash ∷ rest) (b ∷ c) (some rest)
      (component-append (b ∷ c) rest h.2) h.0 h.1
    ∙ ap (λ k. step_into node n (b ∷ c) >>= k)
        (fun_ext (λ found. descend-some found rest (walk node fuel)))

-- The traversal of joined names follows them one by one, within as many rounds as there are bytes.
pub walk_lem :
    (node : ℕ → Vnode) (fuel n : ℕ) (c : List ℕ) (cs : List (List ℕ))
    → All IsName (c ∷ cs)
    → length (join (c ∷ cs)) < fuel
    → walk node fuel n (join (c ∷ cs)) ≡ resolve node n (c ∷ cs)
unfolding resolve
walk_lem node zero n c cs h enough = absurd (omega arith)
walk_lem node (suc fuel) n c [] h enough = walk_last node fuel n c h.0
walk_lem node (suc fuel) n c (d ∷ cs) h enough =
    walk_more node fuel n c (join (d ∷ cs)) h.0
    ∙ ap (λ (k : ℕ → Outcome (Option ℕ)). step_into node n c >>= λ found. follow found k)
        (fun_ext (λ m.
          walk_lem node fuel m d cs h.1
            (omega (arith, enough, length-append c (slash ∷ join (d ∷ cs))))))

strip_trailing-append :
    (a : List ℕ) (b : ℕ) (c : List ℕ) → strip_trailing (a ++ b ∷ c) ≡ a ++ strip_trailing (b ∷ c)
unfolding strip_trailing
strip_trailing-append [] b c = refl
strip_trailing-append (x ∷ []) b c = refl
strip_trailing-append (x ∷ y ∷ a) b c = ap (λ t. x ∷ t) (strip_trailing-append (y ∷ a) b c)

pub strip_trailing-name : (c : List ℕ) → All (λ b. b ≢ slash) c → strip_trailing c ≡ c
unfolding strip_trailing
strip_trailing-name [] h = refl
strip_trailing-name (b ∷ []) h = ground (arith, h.0)
strip_trailing-name (b ∷ d ∷ c) h = ap (λ t. b ∷ t) (strip_trailing-name (d ∷ c) h.1)

strip_trailing-slash : (p : List ℕ) → strip_trailing (p ++ slash ∷ []) ≡ p
unfolding strip_trailing
strip_trailing-slash p = strip_trailing-append p slash [] ∙ append-nil p

join_head :
    (b : ℕ) (d : List ℕ) (cs : List (List ℕ))
    → (x : ℕ) × (xs : List ℕ) × (join ((b ∷ d) ∷ cs) ≡ x ∷ xs)
join_head b d [] = (b, d, refl)
join_head b d (c ∷ cs) = (b, d ++ slash ∷ join (c ∷ cs), refl)

strip_trailing-join : (cs : List (List ℕ)) → All IsName cs → strip_trailing (join cs) ≡ join cs
unfolding strip_trailing
strip_trailing-join [] h = refl
strip_trailing-join (c ∷ []) h = strip_trailing-name c h.0.2
strip_trailing-join (c ∷ [] ∷ cs) h = absurd (omega (arith, h.1.0.0))
strip_trailing-join (c ∷ (b ∷ d) ∷ cs) h =
    let (x, xs, e) = join_head b d cs in
    ap (λ t. strip_trailing (c ++ slash ∷ t)) e
    ∙ strip_trailing-append c slash (x ∷ xs)
    ∙ ap (λ t. c ++ slash ∷ t) (ap strip_trailing (sym e) ∙ strip_trailing-join ((b ∷ d) ∷ cs) h.1)

-- What a path stands for: a child of the root with the whole path for its name, or else the node that
-- the names lead to.
unfoldable pub find_spec : (ℕ → Vnode) → ℕ → List (List ℕ) → Outcome (Option ℕ)
find_spec node root cs =
    direct_child node root (join cs) >>= λ direct. or_walk direct (resolve node root cs)

join-pos : (c : List ℕ) (cs : List (List ℕ)) → All IsName (c ∷ cs) → 0 < length (join (c ∷ cs))
join-pos c [] h = h.0.0
join-pos c (d ∷ cs) h = omega (arith, length-append c (slash ∷ join (d ∷ cs)))

found :
    (v : Vfs) (root : ℕ) (c : List ℕ) (cs : List (List ℕ)) (p : List ℕ)
    → v.root ≡ some root
    → All IsName (c ∷ cs)
    → strip_trailing p ≡ join (c ∷ cs)
    → 0 < length p
    → length p < 128
    → vfs_find_vnode v (slash ∷ p) ≡ find_spec v.node root (c ∷ cs)
unfolding vfs_find_vnode find_spec strip_leading
found v root c cs p e h strip pos small =
    let some_bytes : (length p == 0) ≡ false = ground (arith, pos) in
    let short : leb 128 (length p) ≡ false = ground (arith, small) in
    rw (e, some_bytes, short, strip)
      (ap (λ w. direct_child v.node root (join (c ∷ cs)) >>= λ direct. or_walk direct w)
        (walk_lem v.node (length (join (c ∷ cs)) + 1) root c cs h (omega arith)))

-- Names joined by slashes, with a slash in front, and with or without one at the end.
pub find_spec_lem :
    (v : Vfs) (root : ℕ) (c : List ℕ) (cs : List (List ℕ))
    → v.root ≡ some root
    → All IsName (c ∷ cs)
    → length (join (c ∷ cs)) < 127
    → (vfs_find_vnode v (slash ∷ join (c ∷ cs)) ≡ find_spec v.node root (c ∷ cs))
      × (vfs_find_vnode v (slash ∷ (join (c ∷ cs) ++ slash ∷ [])) ≡ find_spec v.node root (c ∷ cs))
find_spec_lem v root c cs e h small =
    let p = join (c ∷ cs) in
    let pos = join-pos c cs h in
    let long = length-append p (slash ∷ []) in
    (
      found v root c cs p e h (strip_trailing-join (c ∷ cs) h) pos (omega (arith, small)),
      found v root c cs (p ++ slash ∷ []) e h (strip_trailing-slash p) (omega (arith, long))
          (omega (arith, long, small)),
    )
