-- ===== src/Scheduler.antt =====
-- The choice of the next thread (`src/scheduler/scheduler.c`). A thread is named by its address, and 0
-- is NULL; the change of stacks has no part in it: the state after a call is the one in which the thread
-- chosen runs.
pub mod Rounds
pub mod Adding
mod Tests
use reddyos_osdev.Base.{ℕ, zero, suc, Option, none, some, ◌==◌, not, ◌&&◌, ◌||◌, if◌then◌else◌}
use reddyos_osdev.Base.Outcome.{Outcome, done, panic, out_of_fuel, ◌>>=◌}

-- `thread_t`; `process` is the `cr3` of the address space of its process, none for a kernel thread.
pub record Thread : Type 0 where
  pub rsp : ℕ
  pub entry : ℕ
  pub process : Option ℕ
  pub next : ℕ

-- The threads, the variables of the file, and the register CR3.
pub record Scheduler : Type 0 where
  pub thread : ℕ → Thread
  pub current : ℕ
  pub list : ℕ
  pub cr3 : ℕ

unfoldable pub scheduler_init : ℕ → Scheduler → Scheduler
scheduler_init bootstrap s = record s { current = bootstrap }

-- The address of the last thread of a list.
unfoldable pub last_thread : (ℕ → Thread) → ℕ → ℕ → Outcome ℕ
last_thread thread zero iter = out_of_fuel
last_thread thread (suc fuel) iter =
    let rest = last_thread thread fuel (thread iter).next in
    if (thread iter).next == 0 then done iter else rest

unfoldable pub scheduler_add : ℕ → ℕ → Scheduler → Outcome Scheduler
scheduler_add fuel new s = if s.list == 0 then done (record s { list = new }) else do
  end' ← last_thread s.thread fuel s.list
  done (record s {
    thread = λ t. if t == end' then record (s.thread t) { next = new } else s.thread t;
  })

unfoldable pub next_thread : Scheduler → ℕ
next_thread s = if (s.thread s.current).next == 0 then s.list else (s.thread s.current).next

module _ (kernel_cr3 : ℕ) where
  unfoldable pub target_cr3 : Thread → ℕ
  target_cr3 t = elim t.process [ none ↦ kernel_cr3 | some cr3 ↦ cr3 ]

  -- The loading of the target, the assertions, and the switch.
  unfoldable pub switch_to : ℕ → Scheduler → Outcome Scheduler
  switch_to next s =
      let target = target_cr3 (s.thread next) in
      let cr3 = if not (target == 0) && not (target == s.cr3) then target else s.cr3 in
      if not (cr3 == target)
      then panic
      else if (s.thread next).rsp == 0
      then panic
      else if (s.thread next).entry == 0
      then panic
      else done (record s { current = next; cr3 = cr3 })

  unfoldable pub schedule : Scheduler → Outcome Scheduler
  schedule s =
      let next = next_thread s in
      if s.current == 0
      then done s
      else if next == 0 || next == s.current
      then done s
      else switch_to next s

  -- So many calls, one after the other.
  unfoldable pub schedule_times : ℕ → Scheduler → Outcome Scheduler
  schedule_times zero s = done s
  schedule_times (suc n) s = schedule s >>= schedule_times n
