-- ===== src/Filesystem/Fd/Slots.antt =====
-- The search for a free place in an array that grows (`src/filesystem/fd/fd.c`).
use reddyos_osdev.Base.{
  ℕ, zero, suc, ◌≤◌, ◌<◌, ◌≡◌, ◌≢◌, ◌∙◌, ◌⊎◌, inl, inr, refl, ap, sym, Bool, true, false, Option,
  none, some, some-injective, List, [], ◌∷◌, ◌++◌, length, get_elem?, set, replicate, length-set,
  length-append, arith, Bool-cases, Option-cases,
}
use reddyos_osdev.Base.Outcome.{done}
use reddyos_osdev.Filesystem.Fd.{granted, later, first_free, extend, insert_slot}

-- The next so many answers grant memory.
abbrev pub Granting : ℕ → List Bool → Type 0
Granting zero memory = Unit
Granting (suc n) memory = (granted memory ≡ true) × Granting n (later memory)

Granting-fewer : (n : ℕ) (memory : List Bool) → Granting (suc n) memory → Granting n memory
Granting-fewer zero memory g = tt
Granting-fewer (suc n) memory g = (g.0, Granting-fewer n (later memory) g.1)

module _ {ℓ} {A : Type ℓ} where
  -- What stands at a place; a free place and one out of range are alike.
  abbrev pub slot : List (Option A) → ℕ → Option A
  slot [] i = none
  slot (x ∷ xs) zero = x
  slot (x ∷ xs) (suc i) = slot xs i

  pub slot-get :
      (xs : List (Option A)) (i : ℕ) {a : A} → slot xs i ≡ some a → get_elem? xs i ≡ some (some a)
  slot-get [] i h = cc
  slot-get (x ∷ xs) zero h = ap some h
  slot-get (x ∷ xs) (suc i) h = slot-get xs i h

  pub slot-set_self :
      (xs : List (Option A)) (i : ℕ) (v : Option A) → i < length xs → slot (set xs i v) i ≡ v
  slot-set_self [] i v h = absurd (omega arith)
  slot-set_self (x ∷ xs) zero v h = refl
  slot-set_self (x ∷ xs) (suc i) v h = slot-set_self xs i v (omega arith)

  pub slot-set_ne :
      (xs : List (Option A)) (i j : ℕ) (v : Option A) → j ≢ i → slot (set xs i v) j ≡ slot xs j
  slot-set_ne [] i j v h = refl
  slot-set_ne (x ∷ xs) zero zero v h = absurd (h refl)
  slot-set_ne (x ∷ xs) zero (suc j) v h = refl
  slot-set_ne (x ∷ xs) (suc i) zero v h = refl
  slot-set_ne (x ∷ xs) (suc i) (suc j) v h = slot-set_ne xs i j v (λ e. h (ap suc e))

  pub slot_inside : (xs : List (Option A)) (i : ℕ) {a : A} → slot xs i ≡ some a → i < length xs
  slot_inside [] i h = cc
  slot_inside (x ∷ xs) zero h = omega arith
  slot_inside (x ∷ xs) (suc i) h = omega (arith, slot_inside xs i h)

  slot-replicate : (n i : ℕ) → slot (replicate n none) i ≡ none
  slot-replicate zero i = refl
  slot-replicate (suc n) zero = refl
  slot-replicate (suc n) (suc i) = slot-replicate n i

  slot-append : (xs : List (Option A)) (n i : ℕ) → slot (xs ++ replicate n none) i ≡ slot xs i
  slot-append [] n i = slot-replicate n i
  slot-append (x ∷ xs) n zero = refl
  slot-append (x ∷ xs) n (suc i) = slot-append xs n i

  slot-extend : (xs : List (Option A)) (i : ℕ) → slot (extend xs) i ≡ slot xs i
  unfolding extend
  slot-extend xs i = slot-append xs (length xs) i

  first_free-some :
      (xs : List (Option A)) (i : ℕ) → first_free xs ≡ some i → (i < length xs) × (slot xs i ≡ none)
  unfolding first_free
  first_free-some [] i h = cc
  first_free-some (none ∷ xs) i h = ground arith
  first_free-some (some a ∷ xs) i h = elim (Option-cases (first_free xs)) [
    | inl full ↦ cc (rw full at h)
    | inr (k, found) ↦
        let (inside, free) = first_free-some xs k found in
        let e : suc k ≡ i = some-injective _ _ (rw found at h) in
        rw (← e) (omega (arith, inside), free)
  ]

  first_free-append :
      (xs : List (Option A)) (n : ℕ)
      → first_free xs ≡ none
      → 0 < n
      → first_free (xs ++ replicate n none) ≡ some (length xs)
  unfolding first_free
  first_free-append [] zero h p = absurd (omega arith)
  first_free-append [] (suc n) h p = refl
  first_free-append (none ∷ xs) n h p = cc
  first_free-append (some a ∷ xs) n h p = elim (Option-cases (first_free xs)) [
    | inl full ↦ rw (first_free-append xs n full p) refl
    | inr (k, found) ↦ cc (rw found at h)
  ]

  -- The place was free, now holds the value, and the other places are as before.
  pub record Inserted (a : A) (xs : List (Option A)) (i : ℕ) (ys : List (Option A)) : Type ℓ where
    pub free : slot xs i ≡ none
    pub here : slot ys i ≡ some a
    pub others : (j : ℕ) → j ≢ i → slot ys j ≡ slot xs j
    pub capacity : length xs ≤ length ys

  inserted :
      (a : A) (xs : List (Option A)) (i : ℕ)
      → first_free xs ≡ some i
      → Inserted a xs i (set xs i (some a))
  inserted a xs i h =
      let (inside, free) = first_free-some xs i h in
      record {
        free = free;
        here = slot-set_self xs i (some a) inside;
        others = λ j ne. slot-set_ne xs i j (some a) ne;
        capacity = omega (arith, length-set xs i (some a));
      }

  insert_found :
      (fuel : ℕ) (a : A) (xs : List (Option A)) (memory : List Bool) (i : ℕ)
      → first_free xs ≡ some i
      → insert_slot (suc fuel) a xs memory ≡ done (some (i, set xs i (some a)), memory)
  unfolding insert_slot
  insert_found fuel a xs memory i h = rw (h, insert_slot) refl

  insert_full :
      (fuel : ℕ) (a : A) (xs : List (Option A)) (memory : List Bool)
      → first_free xs ≡ none
      → granted memory ≡ true
      → insert_slot (suc fuel) a xs memory ≡ insert_slot fuel a (extend xs) (later memory)
  unfolding insert_slot
  insert_full fuel a xs memory h g = rw (h, insert_slot) (rw g refl)

  insert_refused :
      (fuel : ℕ) (a : A) (xs : List (Option A)) (memory : List Bool)
      → first_free xs ≡ none
      → granted memory ≡ false
      → insert_slot (suc fuel) a xs memory ≡ done (none, later memory)
  unfolding insert_slot
  insert_refused fuel a xs memory h g = rw (h, insert_slot) (rw g refl)

  -- In an array of some capacity the search ends: without any place if memory is refused for a longer
  -- array, and otherwise with the value at a place that was free, after one answer at most.
  pub insert_slot_lem :
      (a : A) (xs : List (Option A)) (memory : List Bool)
      → 0 < length xs
      → ((granted memory ≡ false)
          × (rest : List Bool) × (insert_slot 2 a xs memory ≡ done (none, rest)))
        ⊎ ((i : ℕ) × (ys : List (Option A)) × (rest : List Bool) × (insert_slot 2 a xs memory
              ≡ done (some (i, ys), rest))
            × ((n : ℕ) → Granting (suc n) memory → Granting n rest)
            × Inserted a xs i ys)
  insert_slot_lem a xs memory room = elim (Option-cases (first_free xs)) [
    | inr (i, found) ↦ inr (
      i,
      set xs i (some a),
      memory,
      insert_found 1 a xs memory i found,
      λ n g. Granting-fewer n memory g,
      inserted a xs i found,
    )
    | inl full ↦ elim (Bool-cases (granted memory)) [
      | inr refused ↦ inl (refused, later memory, insert_refused 1 a xs memory full refused)
      | inl given ↦
          let found : first_free (extend xs) ≡ some (length xs) =
            unfold extend in first_free-append xs (length xs) full room in
          let r = inserted a (extend xs) (length xs) found in
          inr (
            length xs,
            set (extend xs) (length xs) (some a),
            later memory,
            insert_full 1 a xs memory full given
                ∙ insert_found 0 a (extend xs) (later memory) (length xs) found,
            λ n g. g.1,
            record {
              free = sym (slot-extend xs (length xs)) ∙ r.free;
              here = r.here;
              others = λ j ne. r.others j ne ∙ slot-extend xs j;
              capacity = omega (arith, r.capacity, length_extend xs);
            },
          )
    ]
  ]
    where
      length_extend : (xs : List (Option A)) → length xs ≤ length (extend xs)
      length_extend xs =
          unfold extend in omega (arith, length-append xs (replicate (length xs) none))
