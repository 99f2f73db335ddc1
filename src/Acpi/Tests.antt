-- ===== src/Acpi/Tests.antt =====
-- Runs of the locks and the work queue (`src/acpi/uacpi_kernel.c`).
use reddyos_osdev.Base.{ℕ, ◌≡◌, refl, some, List, [], ◌∷◌, ◌==◌, if◌then◌else◌, arith}
use reddyos_osdev.Acpi.Sync.{
  acquire_mutex, attempts, wait_loop, signal_event, reset_event, acquire_mutex_lem,
  wait_loop-signal_event,
}
use reddyos_osdev.Acpi.Sync
use reddyos_osdev.Acpi.WorkQueue.{Item, WorkQueue, schedule_work, wait_for_completion}
use reddyos_osdev.Acpi.WorkQueue
use reddyos_osdev.Acpi.WorkQueue.Fifo.{
  IsValid, contents, push, run_all, abstract_result, schedule_work_refines,
  wait_for_completion_refines,
}

abbrev first : Item
first = record { kind = 0; handler = 16; ctx = 1 }

abbrev second : Item
second = record { kind = 1; handler = 0; ctx = 2 }

-- Two items wait, round the end of the ring.
abbrev two_items : WorkQueue
two_items = record { slot = λ i. if i == 255 then first else second; head = 255; tail = 1 }

two_items-IsValid : IsValid two_items
two_items-IsValid = omega arith

-- A handler that schedules one more item.
abbrev again : Item → List Item
again x = second ∷ []

held_twice : acquire_mutex (λ i. if i == 2 then 0 else 1) 1 ≡ (Sync.ok, 1)
unfolding acquire_mutex Sync.acquire_loop Sync.compare_and_swap
held_twice = refl

run_again :
    abstract_result again (wait_for_completion again 5 two_items)
    ≡ some (first ∷ second ∷ second ∷ [], [])
unfolding wait_for_completion WorkQueue.run_item WorkQueue.schedule_all schedule_work
    WorkQueue.put_slot
run_again = refl

-- The word is held until the third attempt.
abbrev held_then_free : ℕ → ℕ
held_then_free i = if i == 2 then 0 else 1

schedule_work_example :
    (((schedule_work second two_items).0, contents (schedule_work second two_items).1)
      ≡ push second (contents two_items))
    × IsValid (schedule_work second two_items).1
schedule_work_example = schedule_work_refines second two_items two_items-IsValid

wait_for_completion_example :
    abstract_result again (wait_for_completion again 5 two_items)
    ≡ run_all again 5 (contents two_items)
wait_for_completion_example = wait_for_completion_refines again 5 two_items two_items-IsValid
