-- ===== src/Memory/BsTree.antt =====
-- What the kernel uses of the search trees of `bstree.h` and `rbtree.h`, libraries outside the
-- repository: their calls, and their documented behaviour on the nodes in order. A node is named by
-- its address, and its value is read by a function of the caller.
use reddyos_osdev.Base.{
  ℕ, ◌<◌, ◌≡◌, ◌⊎◌, Option, none, some, List, [], ◌∷◌, ◌++◌, ltb, leb, ◌==◌, if◌then◌else◌, All,
}

pub data Shape : Type 0 where
  leaf : Shape
  node : Shape → ℕ → Shape → Shape

-- The nodes from left to right.
abbrev pub order : Shape → List ℕ
order leaf = []
order (node l a r) = order l ++ a ∷ order r

abbrev pub Increasing : (ℕ → ℕ) → List ℕ → Type 0
Increasing value [] = Unit
Increasing value (a ∷ as') = All (λ b. value a < value b) as' × Increasing value as'

abbrev pub insert_sorted : (ℕ → ℕ) → ℕ → List ℕ → List ℕ
insert_sorted value a [] = a ∷ []
insert_sorted value a (b ∷ bs) =
    if ltb (value a) (value b) then a ∷ b ∷ bs else b ∷ insert_sorted value a bs

abbrev pub discard : ℕ → List ℕ → List ℕ
discard a [] = []
discard a (b ∷ bs) = if a == b then bs else b ∷ discard a bs

-- The last of those with a value of at most `key`.
abbrev pub nearest : (ℕ → ℕ) → ℕ → List ℕ → Option ℕ
nearest value key [] = none
nearest value key (a ∷ as') =
    if leb (value a) key
    then elim (nearest value key as') [ none ↦ some a | some b ↦ some b ]
    else none

abbrev pub first : List ℕ → Option ℕ
first [] = none
first (a ∷ as') = some a

abbrev pub after : ℕ → List ℕ → Option ℕ
after a [] = none
after a (b ∷ bs) = if a == b then first bs else after a bs

abbrev pub Among : ℕ → List ℕ → Type 0
Among a [] = ⊥
Among a (b ∷ bs) = (a ≡ b) ⊎ Among a bs

-- `root`, `left` and `right` are in `shape`; `insert` is `bstree_insert`, `search` is `bstree_search`
-- with `BST_SEARCH_TYPE_NEAREST_LTE`.
pub record BsTree : Type 1 where
  pub Tree : Type 0
  pub shape : Tree → Shape
  pub insert : (ℕ → ℕ) → ℕ → Tree → Tree
  pub remove : ℕ → Tree → Tree
  pub search : (ℕ → ℕ) → ℕ → Tree → Option ℕ
  pub minimum : Tree → Option ℕ
  pub successor : ℕ → Tree → Option ℕ
  pub order-insert :
      (value : ℕ → ℕ) (a : ℕ) (t : Tree)
      → Increasing value (order (shape t))
      → All (λ b. (value b ≡ value a) → ⊥) (order (shape t))
      → order (shape (insert value a t)) ≡ insert_sorted value a (order (shape t))
  pub order-remove : (a : ℕ) (t : Tree) → order (shape (remove a t)) ≡ discard a (order (shape t))
  pub search_nearest :
      (value : ℕ → ℕ) (key : ℕ) (t : Tree)
      → Increasing value (order (shape t))
      → search value key t ≡ nearest value key (order (shape t))
  pub minimum_first : (t : Tree) → minimum t ≡ first (order (shape t))
  pub successor_after : (a : ℕ) (t : Tree) → successor a t ≡ after a (order (shape t))
