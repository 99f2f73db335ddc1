-- ===== src/CGeneric/Str.antt =====
-- `strlen` (`src/kernel_common/c_generic/string.c`), for as many rounds as the fuel gives.
use reddyos_osdev.Base.{
  ℕ, zero, suc, ◌+◌, ◌-◌, ◌≤◌, ◌<◌, ◌≡◌, ◌≢◌, ◌∙◌, ap, Option, none, some, ◌==◌, if◌then◌else◌,
  arith, Bool-cases, inl, inr, ==_iff, sym,
}
use reddyos_osdev.CGeneric.Mem.{Bytes}

unfoldable pub strlen_from : ℕ → ℕ → ℕ → Bytes → Option ℕ
strlen_from s zero len m = none
strlen_from s (suc fuel) len m =
    let rest = strlen_from s fuel (len + 1) m in if m (s + len) == 0 then some len else rest

unfoldable pub strlen : ℕ → ℕ → Bytes → Option ℕ
strlen fuel s m = strlen_from s fuel 0 m

strlen_from_lem :
    (s k fuel len : ℕ) (m : Bytes)
    → k < fuel
    → m (s + (len + k)) ≡ 0
    → (n : ℕ) × (strlen_from s fuel len m ≡ some (len + n))
      × (n ≤ k)
      × (m (s + (len + n)) ≡ 0)
      × ((i : ℕ) → i < n → m (s + (len + i)) ≢ 0)
unfolding strlen_from
strlen_from_lem s k zero len m h nul = absurd (omega arith)
strlen_from_lem s k (suc fuel) len m h nul = elim (Bool-cases (m (s + len) == 0)) [
  | inl ends ↦ (
    0,
    rw ends (ap some (omega arith)),
    omega arith,
    ap m (omega arith) ∙ (==_iff (m (s + len)) 0).0 ends,
    λ i lt. absurd (omega arith),
  )
  | inr goes ↦
      let first : m (s + (len + 0)) ≢ 0 =
        λ z. cc (goes, (==_iff (m (s + len)) 0).1 (ap m (omega arith) ∙ z)) in
      let later : k ≢ 0 =
        λ e. first (ap (λ j. m (s + (len + j))) {x = 0} {y = k} (omega (arith, e)) ∙ nul) in
      let (n, run, le, stop, before) =
        strlen_from_lem s (k - 1) fuel (len + 1) m (omega (arith, later))
          (ap m (omega (arith, later)) ∙ nul) in
      (
        suc n,
        rw goes (run ∙ ap some (omega arith)),
        omega (arith, le, later),
        ap m (omega arith) ∙ stop,
        each first n before,
      )
]
  where
    each :
        m (s + (len + 0)) ≢ 0
        → (n : ℕ) → ((i : ℕ) → i < n → m (s + (len + 1 + i)) ≢ 0)
        → (i : ℕ) → i < suc n
        → m (s + (len + i)) ≢ 0
    each first n before zero lt = first
    each first n before (suc i) lt = λ z. before i (omega arith) (ap m (omega arith) ∙ z)

-- On bytes with a NUL at index `k`, `strlen` ends within `k + 1` rounds, at the first NUL.
pub strlen_lem :
    (s k fuel : ℕ) (m : Bytes)
    → k < fuel
    → m (s + k) ≡ 0
    → (n : ℕ) × (strlen fuel s m ≡ some n)
      × (n ≤ k)
      × (m (s + n) ≡ 0)
      × ((i : ℕ) → i < n → m (s + i) ≢ 0)
unfolding strlen
strlen_lem s k fuel m h nul =
    let (n, run, le, stop, before) =
      strlen_from_lem s k fuel 0 m h (ap m {x = s + (0 + k)} {y = s + k} (omega arith) ∙ nul) in
    let at : (i : ℕ) → m (s + i) ≡ m (s + (0 + i)) = λ i. ap m (omega arith) in
    (n, run ∙ ap some (omega arith), le, at n ∙ stop, λ i lt z. before i lt (sym (at i) ∙ z))
