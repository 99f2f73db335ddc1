-- ===== src/Process/Vector.antt =====
-- The auxiliary vector as a program reads it from its first stack (`src/scheduler/process.c`).
use reddyos_osdev.Base.{
  ℕ, zero, suc, ◌+◌, ◌≤◌, ◌<◌, ◌≡◌, ◌≢◌, refl, ap, Option, none, some, List, [], ◌∷◌, ◌++◌, length,
  ◌==◌, if◌then◌else◌, All, All-map, arith, true, false,
}
use reddyos_osdev.CGeneric.Mem.{Bytes}
use reddyos_osdev.Process.{Process, ElfInfo, at_null, process_default_env, setup_process_stack}
use reddyos_osdev.Process.Words.{load, Holds}
use reddyos_osdev.Process.Layout.{
  HasWords, StringsAt-length, StringsAt-bounds, setup_process_stack_lem,
}

-- The System V ABI has the vector right behind the NULL that ends `envp`; `after_null` looks for the
-- address behind a NULL.
unfoldable pub after_null : ℕ → Bytes → ℕ → Option ℕ
after_null zero m a = none
after_null (suc fuel) m a =
    let rest = after_null fuel m (a + 8) in if load 8 a m == 0 then some (a + 8) else rest

-- Its entries, up to the first `AT_NULL`.
unfoldable pub entries : ℕ → Bytes → ℕ → List (ℕ × ℕ)
entries zero m a = []
entries (suc fuel) m a =
    let rest = entries fuel m (a + 16) in
    if load 8 a m == at_null then [] else (load 8 a m, load 8 (a + 8) m) ∷ rest

unfoldable pub found_vector : ℕ → Bytes → ℕ → Option (List (ℕ × ℕ))
found_vector fuel m rsp = elim (after_null fuel m (rsp + 8)) [
  | none ↦ none
  | some envp ↦ elim (after_null fuel m envp) [
    | none ↦ none
    | some auxv ↦ some (entries fuel m auxv)
  ]
]

after_null_lem :
    (fuel : ℕ) (m : Bytes) (a : ℕ) (xs ys : List ℕ)
    → All (λ v. v ≢ 0) xs
    → length xs < fuel
    → Holds m a (xs ++ 0 ∷ ys)
    → (b : ℕ) × (after_null fuel m a ≡ some b) × Holds m b ys
unfolding after_null
after_null_lem zero m a xs ys all enough held = absurd (omega (arith, enough))
after_null_lem (suc fuel) m a [] ys all enough held =
    let end : (load 8 a m == 0) ≡ true = ground (arith, held.0) in (a + 8, rw end refl, held.1)
after_null_lem (suc fuel) m a (x ∷ xs) ys all enough held =
    let (b, e, rest) = after_null_lem fuel m (a + 8) xs ys all.1 (omega (arith, enough)) held.1 in
    let on : (load 8 a m == 0) ≡ false = ground (arith, held.0, all.0) in (b, rw on e, rest)

found_nothing :
    (fuel : ℕ) (m : Bytes) (rsp b c : ℕ)
    → after_null fuel m (rsp + 8) ≡ some b
    → after_null fuel m b ≡ some c
    → load 8 c m ≡ 0
    → found_vector fuel m rsp ≡ some []
unfolding found_vector entries
found_nothing fuel m rsp b c e e' z = rw (e, found_vector) (rw e' (ap some (ends fuel z)))
  where
    ends : (fuel : ℕ) → load 8 c m ≡ 0 → entries fuel m c ≡ []
    ends zero z = refl
    ends (suc fuel) z = let end : (load 8 c m == 0) ≡ true = ground (arith, z) in rw end refl

-- With that room, a program that reads its first stack as the ABI says finds an empty auxiliary
-- vector: the word of 0 between `envp` and the vector is its `AT_NULL`.
pub setup_process_stack_hidden :
    (fuel : ℕ) (now : ℕ) (p : Process) (filename : List ℕ) (info : ElfInfo) (m : Bytes)
    → HasWords p info
    → length filename + 1024 ≤ p.rsp
    → 6 ≤ fuel
    → found_vector fuel
        (setup_process_stack now p filename info m).1
        (setup_process_stack now p filename info m).0.rsp
      ≡ some []
setup_process_stack_hidden fuel now p filename info m w low enough =
    let (f, _) = setup_process_stack_lem now p filename info m w low in
    let m' = (setup_process_stack now p filename info m).1 in
    let rsp = (setup_process_stack now p filename info m).0.rsp in
    let (b, e, held) =
      after_null_lem fuel m' (rsp + 8) (f.prog ∷ []) _
        ((λ z. absurd (omega (arith, z, f.name.0))), tt) (omega (arith, enough)) f.words.1 in
    let five = StringsAt-length m' (f.random + 16) p.rsp f.envs process_default_env f.environment in
    let (c, e', held') =
      after_null_lem fuel m' b f.envs _
        (All-map _ _ f.envs (λ v h z. absurd (omega (arith, z, h.0)))
          (StringsAt-bounds m' (f.random + 16) p.rsp f.envs process_default_env f.environment))
        (omega (arith, five, enough)) held in
    found_nothing fuel m' rsp b c e e' held'.0
