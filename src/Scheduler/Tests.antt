-- ===== src/Scheduler/Tests.antt =====
-- Runs of the scheduler (`src/scheduler/scheduler.c`).
use reddyos_osdev.Base.{ℕ, ◌≡◌, refl, inl, inr, none, some, [], ◌∷◌, arith, if◌then◌else◌, ◌==◌}
use reddyos_osdev.Base.Outcome.{done}
use reddyos_osdev.Scheduler.{Scheduler, target_cr3, scheduler_add}
use reddyos_osdev.Scheduler.Rounds.{Chain, IsRunnable, Reaches, schedule_lem}
use reddyos_osdev.Scheduler.Adding.{scheduler_add_lem}

abbrev kernel_cr3 : ℕ
kernel_cr3 = 0x1000

-- The bootstrap task 5 runs; the list has 10, a thread of a process, and 20; 30 is new.
abbrev state : Scheduler
state = record {
  thread = λ t.
      if t == 10
      then record { rsp = 0x9000; entry = 0x400000; process = some 0x2000; next = 20 }
      else record { rsp = 0x8000; entry = 0x500000; process = none; next = 0 };
  current = 5;
  list = 10;
  cr3 = kernel_cr3;
}

threads : Chain state.thread state.list (10 ∷ 20 ∷ [])
threads = (refl, omega arith, (refl, omega arith, refl))

ten-IsRunnable : IsRunnable kernel_cr3 (state.thread 10)
unfolding target_cr3
ten-IsRunnable = record { rsp = omega arith; entry = omega arith; target = omega arith }

twenty-IsRunnable : IsRunnable kernel_cr3 (state.thread 20)
unfolding target_cr3
twenty-IsRunnable = record { rsp = omega arith; entry = omega arith; target = omega arith }

schedule_example : Reaches kernel_cr3 state 2 5 20
schedule_example =
    schedule_lem kernel_cr3 state 5 10 [] (20 ∷ []) 20 (omega arith) refl threads (tt, tt)
      ((omega arith, tt), (tt, tt)) tt (ten-IsRunnable, (twenty-IsRunnable, tt)) (inr (inl refl))

scheduler_add_example :
    (s' : Scheduler) × (scheduler_add 2 30 state ≡ done s')
    × Chain s'.thread s'.list (10 ∷ 20 ∷ 30 ∷ [])
    × (s'.current ≡ 5)
scheduler_add_example =
    scheduler_add_lem state (10 ∷ 20 ∷ []) 2 30 threads (omega arith) ((omega arith, tt), (tt, tt))
      (omega arith, (omega arith, tt)) (omega arith) refl
