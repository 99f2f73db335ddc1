-- ===== src/Acpi/Sync.antt =====
-- Mutexes, spinlocks and events (`src/acpi/uacpi_kernel.c`). What other contexts do to the word
-- between two attempts is an argument: the values that the attempts find, in order.
use reddyos_osdev.Base.{
  ◌&&◌, ◌%◌, ◌^◌, ◌-◌, ltb, ℕ, zero, suc, ◌+◌, ◌-◌, ◌*◌, ◌<◌, ◌≡◌, ◌≢◌, refl, Bool, true, false,
  Option, none, some, ◌==◌, ltb, if◌then◌else◌, arith, Bool-cases, inl, inr, ◌⊎◌, ==_iff, ◌∙◌, ap,
}

pub data Status : Type 0 where
  ok timeout : Status

-- `__sync_bool_compare_and_swap`: whether it stored, and the word after it.
unfoldable pub compare_and_swap : ℕ → ℕ → ℕ → Bool × ℕ
compare_and_swap old new word = if word == old then (true, new) else (false, word)

-- The attempts left, with the word that attempt `i` finds; the word is the last one when the call
-- returns.
unfoldable pub acquire_loop : (ℕ → ℕ) → ℕ → ℕ → Status × ℕ
acquire_loop seen zero i = (timeout, seen i)
acquire_loop seen (suc left) i =
    let (stored, word) = compare_and_swap 0 1 (seen i) in
    let rest = acquire_loop seen left (i + 1) in if stored then (ok, word) else rest

-- `uacpi_kernel_acquire_mutex`: one attempt for a timeout of 0, else 1000 for each unit.
unfoldable pub acquire_mutex : (ℕ → ℕ) → ℕ → Status × ℕ
acquire_mutex seen limit =
    if limit == 0
    then (let (stored, word) = compare_and_swap 0 1 (seen 0) in
        if stored then (ok, word) else (timeout, word))
    else acquire_loop seen (limit * 1000) 0

unfoldable pub release_mutex : ℕ → ℕ
release_mutex word = (compare_and_swap 1 0 word).1

-- The loop of `uacpi_kernel_lock_spinlock`, `while (compare_and_swap(..., 0, 1)) pause`, on a word
-- that nobody else changes.
unfoldable pub spin : ℕ → ℕ → Option ℕ
spin zero word = none
spin (suc fuel) word =
    let (stored, word') = compare_and_swap 0 1 word in
    let rest = spin fuel word' in if stored then rest else some word'

unfoldable pub unlock_spinlock : ℕ → ℕ
unlock_spinlock word = (compare_and_swap 1 0 word).1

-- `event->counter > 0`, on the 32 bits of an `int`.
unfoldable pub counts : ℕ → Bool
counts counter = ltb 0 counter && ltb counter (2 ^ 31)

-- `uacpi_kernel_wait_for_event`, with the counter that round `i` finds.
unfoldable pub wait_loop : (ℕ → ℕ) → ℕ → ℕ → Bool × ℕ
wait_loop seen zero i = (false, seen i)
wait_loop seen (suc left) i =
    let rest = wait_loop seen left (i + 1) in if counts (seen i) then (true, seen i - 1) else rest

unfoldable pub wait_for_event : (ℕ → ℕ) → ℕ → Bool × ℕ
wait_for_event seen limit =
    wait_loop seen (if limit == 0xFFFF then 0xFFFFFFFFFFFFFFFF else limit * 1000) 0

unfoldable pub signal_event : ℕ → ℕ
signal_event counter = (counter + 1) % 2 ^ 32

unfoldable pub reset_event : ℕ → ℕ
reset_event counter = 0

-- The number of attempts that a call makes.
abbrev pub attempts : ℕ → ℕ
attempts limit = if limit == 0 then 1 else limit * 1000

abbrev Acquired : (ℕ → ℕ) → ℕ → ℕ → Status × ℕ → Type 0
Acquired seen n i r =
    ((r ≡ (ok, 1)) × ((k : ℕ) × (k < n) × (seen (i + k) ≡ 0)))
    ⊎ ((r.0 ≡ timeout) × ((k : ℕ) → k < n → seen (i + k) ≢ 0))

-- One failed attempt in front of the others.
one_more :
    (seen : ℕ → ℕ) (n i : ℕ) (r : Status × ℕ)
    → seen i ≢ 0
    → Acquired seen n (i + 1) r
    → Acquired seen (suc n) i r
one_more seen n i r nz (inl (e, (k, lt, z))) =
    inl (e, (suc k, omega arith, ap seen (omega arith) ∙ z))
one_more seen n i r nz (inr (e, all)) = inr (e, none_free)
  where
    none_free : (k : ℕ) → k < suc n → seen (i + k) ≢ 0
    none_free zero lt z = nz (ap seen (omega arith) ∙ z)
    none_free (suc k) lt z = all k (omega arith) (ap seen (omega arith) ∙ z)

acquire_loop_lem : (seen : ℕ → ℕ) (left i : ℕ) → Acquired seen left i (acquire_loop seen left i)
unfolding acquire_loop compare_and_swap
acquire_loop_lem seen zero i = inr (refl, λ k h. absurd (omega arith))
acquire_loop_lem seen (suc left) i = elim (Bool-cases (seen i == 0)) [
  | inl free ↦
      rw free (inl (refl, (0, omega arith, ap seen (omega arith) ∙ (==_iff (seen i) 0).0 free)))
  | inr held ↦ rw held (
      one_more seen left i _ (λ z. cc ((==_iff (seen i) 0).1 z, held))
        (acquire_loop_lem seen left (i + 1)))
]

-- `uacpi_kernel_acquire_mutex` succeeds, and leaves the word at 1, exactly when one of its attempts
-- finds the word 0; else it reports a timeout, and every attempt found the word held.
pub acquire_mutex_lem :
    (seen : ℕ → ℕ) (limit : ℕ)
    → ((acquire_mutex seen limit ≡ (ok, 1)) × ((k : ℕ) × (k < attempts limit) × (seen k ≡ 0)))
      ⊎ (((acquire_mutex seen limit).0 ≡ timeout) × ((k : ℕ) → k < attempts limit → seen k ≢ 0))
unfolding acquire_mutex compare_and_swap
acquire_mutex_lem seen limit = elim (Bool-cases (limit == 0)) [
  | inl single ↦ elim (Bool-cases (seen 0 == 0)) [
    | inl free ↦ rw (single, free) (inl (refl, (0, omega arith, (==_iff (seen 0) 0).0 free)))
    | inr held ↦
        rw (single, held)
          (inr (refl, λ k lt z. cc (held, (==_iff (seen 0) 0).1 (ap seen (omega arith) ∙ z))))
  ]
  | inr many ↦ rw many (shift (acquire_loop_lem seen (limit * 1000) 0))
]
  where
    shift :
        Acquired seen (limit * 1000) 0 (acquire_loop seen (limit * 1000) 0)
        → ((acquire_loop seen (limit * 1000) 0 ≡ (ok, 1))
            × ((k : ℕ) × (k < limit * 1000) × (seen k ≡ 0)))
          ⊎ (((acquire_loop seen (limit * 1000) 0).0 ≡ timeout)
              × ((k : ℕ) → k < limit * 1000 → seen k ≢ 0))
    shift (inl (e, (k, lt, z))) = inl (e, (k, lt, ap seen (omega arith) ∙ z))
    shift (inr (e, all)) = inr (e, λ k lt z. all k lt (ap seen (omega arith) ∙ z))

-- Each signal lets one wait succeed: below 2 ^ 31 - 1 signals, a wait whose first round finds the
-- counter `c + 1` after a signal succeeds and leaves `c`; a wait of at most `n` rounds on a counter
-- that stays 0 fails.
pub wait_loop-signal_event :
    (left c : ℕ)
    → c < 2 ^ 31 - 1
    → (wait_loop (λ _. signal_event c) (suc left) 0 ≡ (true, c))
      × (wait_loop (λ _. reset_event c) left 0 ≡ (false, 0))
unfolding wait_loop signal_event reset_event counts
wait_loop-signal_event left c small =
    let wrap : (c + 1) % 2 ^ 32 ≡ suc c = omega arith in
    (rw wrap (ground (arith, small)), never left 0)
  where
    never : (n i : ℕ) → wait_loop (λ _. 0) n i ≡ (false, 0)
    never zero i = refl
    never (suc n) i = never n (i + 1)
