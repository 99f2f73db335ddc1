-- ===== src/Scheduler/Adding.antt =====
-- `scheduler_add` (`src/scheduler/scheduler.c`).
use reddyos_osdev.Base.{
  false, ℕ, zero, suc, ◌≤◌, ◌<◌, ◌≡◌, ◌≢◌, ◌∙◌, inl, inr, refl, sym, List, [], ◌∷◌, ◌++◌, length,
  ◌==◌, if◌then◌else◌, arith,
}
use reddyos_osdev.Base.Outcome.{done}
use reddyos_osdev.Memory.Pmm.FreeList.{Absent, Distinct}
use reddyos_osdev.Scheduler.{Thread, Scheduler, last_thread, scheduler_add}
use reddyos_osdev.Scheduler.Rounds.{Chain, Lists}

abbrev with_next : (ℕ → Thread) → ℕ → ℕ → ℕ → Thread
with_next thread l new t = if t == l then record (thread t) { next = new } else thread t

Absent-Lists : (t l : ℕ) (ts : List ℕ) → Absent t ts → Lists l ts → t ≢ l
Absent-Lists t l [] ab e = absurd e
Absent-Lists t l (u ∷ us) ab (inl e) = λ q. ab.0 (sym (q ∙ e))
Absent-Lists t l (u ∷ us) ab (inr e) = Absent-Lists t l us ab.1 e

self_next : (thread : ℕ → Thread) (l new : ℕ) → (with_next thread l new l).next ≡ new
self_next thread l new = ground arith

other_next :
    (thread : ℕ → Thread) (l new t : ℕ) → t ≢ l → (with_next thread l new t).next ≡ (thread t).next
other_next thread l new t ne = ground arith

appended :
    (thread : ℕ → Thread) (t : ℕ) (ts : List ℕ) (fuel new : ℕ)
    → Chain thread (thread t).next ts
    → length ts < fuel
    → Distinct (t ∷ ts)
    → Absent new (t ∷ ts)
    → new ≢ 0
    → (thread new).next ≡ 0
    → (l : ℕ) × (last_thread thread fuel t ≡ done l)
      × Lists l (t ∷ ts)
      × Chain (with_next thread l new) (with_next thread l new t).next (ts ++ new ∷ [])
unfolding last_thread
appended thread t ts zero new ch enough d ab z e = absurd (omega arith)
appended thread t [] (suc fuel) new ch enough d ab z e =
    let ne : new ≢ t = λ q. ab.0 (sym q) in
    (t, rw ch refl, inl refl, (self_next thread t new, z, other_next thread t new new ne ∙ e))
appended thread t (v ∷ vs) (suc fuel) new ch enough d ab z e =
    let (l, run, among, rest) =
      appended thread v vs fuel new ch.2 (omega (arith, enough)) d.1 ab.1 z e in
    let more : ((thread t).next == 0) ≡ false = rw ch.0 (ground (arith, ch.1)) in
    (
      l,
      rw (more, ch.0) run,
      inr among,
      (other_next thread l new t (Absent-Lists t l (v ∷ vs) d.0 among) ∙ ch.0, ch.1, rest),
    )

-- A new thread without a successor comes to the end of the list, behind the threads that are in it
-- already, whose order stays; the search for the end takes as many rounds as there are threads.
pub scheduler_add_lem :
    (s : Scheduler) (ts : List ℕ) (fuel new : ℕ)
    → Chain s.thread s.list ts
    → length ts ≤ fuel
    → Distinct ts
    → Absent new ts
    → new ≢ 0
    → (s.thread new).next ≡ 0
    → (s' : Scheduler) × (scheduler_add fuel new s ≡ done s')
      × Chain s'.thread s'.list (ts ++ new ∷ [])
      × (s'.current ≡ s.current)
unfolding scheduler_add
scheduler_add_lem s [] fuel new ch enough d ab z e =
    (record s { list = new }, rw ch refl, (refl, z, e), refl)
scheduler_add_lem s (h ∷ ts) fuel new ch enough d ab z e =
    let (l, run, among, rest) =
      appended s.thread h ts fuel new ch.2 (omega (arith, enough)) d ab z e in
    let some_threads : (s.list == 0) ≡ false = rw ch.0 (ground (arith, ch.1)) in
    (
      record s { thread = with_next s.thread l new },
      rw (some_threads, ch.0, run) refl,
      (ch.0, ch.1, rest),
      refl,
    )
