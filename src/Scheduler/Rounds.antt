-- ===== src/Scheduler/Rounds.antt =====
-- Calls of `schedule`, one after the other (`src/scheduler/scheduler.c`).
use reddyos_osdev.Base.{
  ℕ, zero, suc, ◌+◌, ◌≤◌, ◌≡◌, ◌≢◌, ◌∙◌, ◌⊎◌, inl, inr, refl, ap, sym, true, false, List, [], ◌∷◌,
  length, ◌==◌, not, ◌&&◌, if◌then◌else◌, arith, ℕ_discrete, All,
}
use reddyos_osdev.Base.Outcome.{done, ◌>>=◌, done-injective, >>=-eq-done}
use reddyos_osdev.Memory.Pmm.FreeList.{Absent, Distinct}
use reddyos_osdev.Scheduler.{
  Thread, Scheduler, next_thread, target_cr3, switch_to, schedule, schedule_times,
}

-- The list that starts at `p` is `ts`.
abbrev pub Chain : (ℕ → Thread) → ℕ → List ℕ → Type 0
Chain thread p [] = p ≡ 0
Chain thread p (t ∷ ts) = (p ≡ t) × (t ≢ 0) × Chain thread (thread t).next ts

abbrev pub Lists : ℕ → List ℕ → Type 0
Lists u [] = ⊥
Lists u (t ∷ ts) = (u ≡ t) ⊎ Lists u ts

module _ (kernel_cr3 : ℕ) where
  -- A thread that the assertions let through.
  pub record IsRunnable (t : Thread) : Type 0 where
    pub rsp : t.rsp ≢ 0
    pub entry : t.entry ≢ 0
    pub target : target_cr3 kernel_cr3 t ≢ 0

  -- The state in which the thread `t` runs.
  abbrev pub running : Scheduler → ℕ → ℕ → Scheduler
  running s t cr3 = record s { current = t; cr3 = cr3 }

  -- Whatever CR3 holds, calls from the thread `t` on lead to the thread `u`, by at most so many.
  abbrev pub Reaches : Scheduler → ℕ → ℕ → ℕ → Type 0
  Reaches s bound t u =
      (cr3 : ℕ)
      → (n : ℕ) × (cr3' : ℕ) × (n ≤ bound)
        × (schedule_times kernel_cr3 n (running s t cr3) ≡ done (running s u cr3'))

  cr3_set : (t c : ℕ) → t ≢ 0 → (if not (t == 0) && not (t == c) then t else c) ≡ t
  cr3_set t c z = ground arith

  test_false : (a b : ℕ) → a ≢ b → (a == b) ≡ false
  test_false a b ne = ground arith

  switch_to_lem :
      (s : Scheduler) (next : ℕ)
      → IsRunnable (s.thread next)
      → switch_to kernel_cr3 next s ≡ done (running s next (target_cr3 kernel_cr3 (s.thread next)))
  unfolding switch_to
  switch_to_lem s next r =
      let t = target_cr3 kernel_cr3 (s.thread next) in
      let same : (t == t) ≡ true = ground arith in
      rw (cr3_set t s.cr3 r.target, same, test_false _ 0 r.rsp, test_false _ 0 r.entry) refl

  schedule_step :
      (s : Scheduler) (next : ℕ)
      → s.current ≢ 0
      → next_thread s ≡ next
      → next ≢ 0
      → next ≢ s.current
      → IsRunnable (s.thread next)
      → schedule kernel_cr3 s ≡ done (running s next (target_cr3 kernel_cr3 (s.thread next)))
  unfolding schedule
  schedule_step s next c e z ne r =
      rw (test_false s.current 0 c, e, test_false next 0 z, test_false next s.current ne)
        (switch_to_lem s next r)

  one_step :
      (s : Scheduler) (t next : ℕ)
      → t ≢ 0
      → ((c : ℕ) → next_thread (running s t c) ≡ next)
      → next ≢ 0
      → next ≢ t
      → IsRunnable (s.thread next)
      → Reaches s 1 t next
  unfolding schedule_times
  one_step s t next z e z' ne r c = (
    1,
    target_cr3 kernel_cr3 (s.thread next),
    omega arith,
    rw (schedule_step (running s t c) next z (e c) z' ne r) refl,
  )

  times_trans :
      (n m : ℕ) (s s1 : Scheduler)
      → schedule_times kernel_cr3 n s ≡ done s1
      → schedule_times kernel_cr3 (n + m) s ≡ schedule_times kernel_cr3 m s1
  unfolding schedule_times
  times_trans zero m s s1 h =
      ap (λ k. schedule_times kernel_cr3 k s) {x = 0 + m} {y = m} (omega arith)
      ∙ ap (schedule_times kernel_cr3 m) (done-injective h)
  times_trans (suc n) m s s1 h =
      let (s0, first, rest) = >>=-eq-done (schedule kernel_cr3 s) (schedule_times kernel_cr3 n) h in
      ap (λ k. schedule_times kernel_cr3 k s) {x = suc n + m} {y = suc (n + m)} (omega arith)
      ∙ ap (λ o. o >>= schedule_times kernel_cr3 (n + m)) first
      ∙ times_trans n m s0 s1 rest

  Reaches-none : (s : Scheduler) (bound t u : ℕ) → u ≡ t → Reaches s bound t u
  unfolding schedule_times
  Reaches-none s bound t u e c = (0, c, omega arith, ap (λ k. done (running s k c)) (sym e))

  Reaches-trans :
      (s : Scheduler) (a b t u v : ℕ) → Reaches s a t u → Reaches s b u v → Reaches s (a + b) t v
  Reaches-trans s a b t u v p q c =
      let (n, c1, le, run) = p c in
      let (m, c2, le', run') = q c1 in
      (
        n + m,
        c2,
        omega (arith, le, le'),
        times_trans n m (running s t c) (running s u c1) run ∙ run',
      )

  -- From a thread to the one behind it.
  to_next :
      (s : Scheduler) (t u : ℕ) (us : List ℕ)
      → t ≢ 0
      → Chain s.thread (s.thread t).next (u ∷ us)
      → Absent t (u ∷ us)
      → IsRunnable (s.thread u)
      → Reaches s 1 t u
  unfolding next_thread
  to_next s t u us z ch ab r =
      one_step s t u z (λ c. rw (ch.0, test_false u 0 ch.1) refl) ch.1 (λ e. ab.0 e) r

  along :
      (s : Scheduler) (t : ℕ) (us : List ℕ) (u : ℕ)
      → t ≢ 0
      → Chain s.thread (s.thread t).next us
      → Distinct (t ∷ us)
      → All (λ k. IsRunnable (s.thread k)) us
      → Lists u (t ∷ us)
      → Reaches s (length us) t u
  along s t us u z ch d r (inl e) = Reaches-none s (length us) t u e
  along s t [] u z ch d r (inr e) = absurd e
  along s t (v ∷ vs) u z ch d r (inr e) = λ c.
      let (n, c', le, run) =
        Reaches-trans s 1 (length vs) t v u (to_next s t v vs z ch d.0 r.0)
          (along s v vs u ch.1 ch.2 d.1 r.1 e) c in
      (n, c', omega (arith, le), run)

  to_end :
      (s : Scheduler) (t : ℕ) (us : List ℕ)
      → t ≢ 0
      → Chain s.thread (s.thread t).next us
      → Distinct (t ∷ us)
      → All (λ k. IsRunnable (s.thread k)) us
      → (l : ℕ) × (l ≢ 0) × ((s.thread l).next ≡ 0) × Reaches s (length us) t l
  to_end s t [] z ch d r = (t, z, ch, Reaches-none s 0 t t refl)
  to_end s t (v ∷ vs) z ch d r =
      let (l, z', e, go) = to_end s v vs ch.1 ch.2 d.1 r.1 in
      (
        l,
        z',
        e,
        λ c.
            let (n, c', le, run) =
              Reaches-trans s 1 (length vs) t v l (to_next s t v vs z ch d.0 r.0) go c in
            (n, c', omega (arith, le), run),
      )

  -- From any thread, behind which the threads `us` stand, `schedule` comes to every thread of the list,
  -- with at most one call for each of `us` and of the list, if all of these can run.
  pub schedule_lem :
      (s : Scheduler) (t h : ℕ) (us ts : List ℕ) (u : ℕ)
      → t ≢ 0
      → Chain s.thread (s.thread t).next us
      → Chain s.thread s.list (h ∷ ts)
      → Distinct (t ∷ us)
      → Distinct (h ∷ ts)
      → All (λ k. IsRunnable (s.thread k)) us
      → All (λ k. IsRunnable (s.thread k)) (h ∷ ts)
      → Lists u (h ∷ ts)
      → Reaches s (length us + length (h ∷ ts)) t u
  unfolding next_thread
  schedule_lem s t h us ts u z ch all d d' r r' e =
      let (l, z', end', there) = to_end s t us z ch d r in
      let wrap : Reaches s 1 l h = elim (ℕ_discrete h l) [
        | yes same ↦ Reaches-none s 1 l h same
        | no ne ↦ one_step s l h z' (λ c. rw end' all.0) all.1 ne r'.0
      ] in
      let round = along s h ts u all.1 all.2 d' r'.1 e in
      λ c.
        let (n, c', le, run) =
          Reaches-trans s (length us) (1 + length ts) t l u there
            (Reaches-trans s 1 (length ts) l h u wrap round) c in
        (n, c', omega (arith, le), run)
