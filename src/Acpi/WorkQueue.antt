-- ===== src/Acpi/WorkQueue.antt =====
-- The queue of deferred work (`src/acpi/uacpi_kernel.c`): a ring of 256 items, of which one place
-- stays empty.
pub mod Fifo
use reddyos_osdev.Base.{
  ℕ, zero, suc, ◌+◌, ◌%◌, Bool, Option, none, some, List, [], ◌∷◌, ◌++◌, ◌==◌, if◌then◌else◌,
}

abbrev pub max_work_items : ℕ
max_work_items = 256

-- `uacpi_work_item`; the handler is an address, 0 for NULL.
pub record Item : Type 0 where
  pub kind : ℕ
  pub handler : ℕ
  pub ctx : ℕ

pub record WorkQueue : Type 0 where
  pub slot : ℕ → Item
  pub head : ℕ
  pub tail : ℕ

pub data Status : Type 0 where
  ok out_of_memory : Status

unfoldable pub put_slot : (ℕ → Item) → ℕ → Item → ℕ → Item
put_slot m i v j = if j == i then v else m j

unfoldable pub schedule_work : Item → WorkQueue → Status × WorkQueue
schedule_work item q =
    let next_tail = (q.tail + 1) % max_work_items in
    if next_tail == q.head
    then (out_of_memory, q)
    else (ok, record q { slot = put_slot q.slot q.tail item; tail = next_tail })

abbrev pub with_item : {B : Type 0} → Item → Option (List Item × B) → Option (List Item × B)
with_item x none = none
with_item x (some (items, left)) = some (x ∷ items, left)

-- A handler may schedule further work; `reaction` is what it schedules, in order.
module _ (reaction : Item → List Item) where
  unfoldable pub schedule_all : List Item → WorkQueue → WorkQueue
  schedule_all [] q = q
  schedule_all (x ∷ xs) q = schedule_all xs (schedule_work x q).1

  -- The item at the head, taken off, and the queue when its handler has returned.
  unfoldable pub run_item : WorkQueue → Item × WorkQueue
  run_item q =
      let item = q.slot q.head in
      let q' : WorkQueue = record q { head = (q.head + 1) % max_work_items } in
      (item, if item.handler == 0 then q' else schedule_all (reaction item) q')

  -- `uacpi_kernel_wait_for_work_completion`, with the items taken off, in order.
  unfoldable pub wait_for_completion : ℕ → WorkQueue → Option (List Item × WorkQueue)
  wait_for_completion zero q = none
  wait_for_completion (suc fuel) q =
      let (item, q') = run_item q in
      let rest = wait_for_completion fuel q' in
      if q.head == q.tail then some ([], q) else with_item item rest
