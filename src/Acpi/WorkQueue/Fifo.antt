-- ===== src/Acpi/WorkQueue/Fifo.antt =====
-- The ring of work items (`src/acpi/uacpi_kernel.c`) is a first-in first-out queue of 255 items.
use reddyos_osdev.Base.{
  ℕ, zero, suc, ◌+◌, ◌-◌, ◌%◌, ◌<◌, ◌≡◌, ◌≢◌, ◌∙◌, refl, ap, ap₂, true, false, Option, none, some,
  List, [], ◌∷◌, ◌++◌, ◌==◌, if◌then◌else◌, arith, length, Bool-cases, inl, inr, ==_iff, subst, sym,
}
use reddyos_osdev.Acpi.WorkQueue.{
  Item, WorkQueue, Status, ok, out_of_memory, put_slot, schedule_work, schedule_all, run_item,
  wait_for_completion, with_item,
}

abbrev pub window : (ℕ → Item) → ℕ → ℕ → List Item
window m h zero = []
window m h (suc n) = m h ∷ window m ((h + 1) % 256) n

abbrev pub count : WorkQueue → ℕ
count q = (q.tail + 256 - q.head) % 256

-- The items that wait, oldest first.
abbrev pub contents : WorkQueue → List Item
contents q = window q.slot q.head (count q)

pub record IsValid (q : WorkQueue) : Type 0 where
  pub head_in : q.head < 256
  pub tail_in : q.tail < 256

length-window : (m : ℕ → Item) (h n : ℕ) → length (window m h n) ≡ n
length-window m h zero = refl
length-window m h (suc n) = ap suc (length-window m ((h + 1) % 256) n)

window-put_slot :
    (m : ℕ → Item) (h n t : ℕ) (v : Item)
    → h < 256
    → n < 256
    → t ≡ (h + n) % 256
    → window (put_slot m t v) h (suc n) ≡ window m h n ++ v ∷ []
window-put_slot m h zero t v hb nb e =
    let hit : put_slot m t v h ≡ v = unfold put_slot in ground arith in ap (λ x. x ∷ []) hit
window-put_slot m h (suc n) t v hb nb e =
    let miss : put_slot m t v h ≡ m h = unfold put_slot in ground arith in
    ap₂ (λ x xs. x ∷ xs) miss
      (window-put_slot m ((h + 1) % 256) n t v (omega arith) (omega arith) (omega arith))

-- What `schedule_work` promises: the new item waits behind the others, unless 255 wait already.
pub push : Item → List Item → Status × List Item
push item xs = if length xs == 255 then (out_of_memory, xs) else (ok, xs ++ item ∷ [])

-- On a valid ring `schedule_work` is the bounded append (`push`) on the waiting items, with the same
-- status, full queue included, and keeps the ring valid.
pub schedule_work_refines :
    (item : Item) (q : WorkQueue)
    → IsValid q
    → (((schedule_work item q).0, contents (schedule_work item q).1) ≡ push item (contents q))
      × IsValid (schedule_work item q).1
unfolding schedule_work push
schedule_work_refines item q v =
    let len = length-window q.slot q.head (count q) in
    elim (Bool-cases ((q.tail + 1) % 256 == q.head)) [
      | inl full ↦
          let test : (length (contents q) == 255) ≡ true = ground (arith, full, len) in
          rw (full, test) (refl, v)
      | inr room ↦
          let test : (length (contents q) == 255) ≡ false = ground (arith, room, len) in
          let grown : ((q.tail + 1) % 256 + 256 - q.head) % 256 ≡ suc (count q) =
            ground (arith, room) in
          rw (room, test)
            (
              ap (λ xs. (ok, xs))
                  (ap (window (put_slot q.slot q.tail item) q.head) grown
                    ∙ window-put_slot q.slot q.head (count q) q.tail item v.head_in (omega arith)
                        (omega arith)),
              record { head_in = v.head_in; tail_in = omega arith },
            )
    ]

module _ (reaction : Item → List Item) where
  pub push_all : List Item → List Item → List Item
  push_all [] q = q
  push_all (x ∷ xs) q = push_all xs (push x q).1

  -- The same work on a list: take the oldest, run its handler, go on.
  pub run_all : ℕ → List Item → Option (List Item × List Item)
  run_all zero q = none
  run_all (suc fuel) [] = some ([], [])
  run_all (suc fuel) (x ∷ q) =
      with_item x (run_all fuel (if x.handler == 0 then q else push_all (reaction x) q))

  schedule_all_refines :
      (xs : List Item) (q : WorkQueue)
      → IsValid q
      → (contents (schedule_all reaction xs q) ≡ push_all xs (contents q))
        × IsValid (schedule_all reaction xs q)
  unfolding schedule_all push_all
  schedule_all_refines [] q v = (refl, v)
  schedule_all_refines (x ∷ xs) q v =
      let (same, v') = schedule_work_refines x q v in
      let (rest, v'') = schedule_all_refines xs (schedule_work x q).1 v' in
      (rest ∙ ap (λ r. push_all xs r.1) same, v'')

  abbrev popped : WorkQueue → WorkQueue
  popped q = record q { head = (q.head + 1) % 256 }

  contents-popped :
      (q : WorkQueue)
      → IsValid q
      → q.head ≢ q.tail
      → contents q ≡ q.slot q.head ∷ contents (popped q)
  contents-popped q v ne =
      ap (window q.slot q.head) {y = suc (count (popped q))} (omega (arith, ne))

  run_item_refines :
      (q : WorkQueue) (x : Item)
      → IsValid q
      → q.slot q.head ≡ x
      → ((run_item reaction q).0 ≡ x)
        × (contents (run_item reaction q).1 ≡ (
            if x.handler == 0
            then contents (popped q)
            else push_all (reaction x) (contents (popped q))))
        × IsValid (run_item reaction q).1
  unfolding run_item
  run_item_refines q x v e =
      let v' : IsValid (popped q) = record { head_in = omega arith; tail_in = v.tail_in } in
      elim (Bool-cases ((q.slot q.head).handler == 0)) [
        | inl null ↦ rw (null, ← e) (refl, rw null refl, v')
        | inr call ↦
            let (same, valid) = schedule_all_refines (reaction (q.slot q.head)) (popped q) v' in
            rw (call, ← e) (refl, rw call same, valid)
      ]

  -- The same result with the waiting items in place of the ring.
  abbrev pub abstract_result : Option (List Item × WorkQueue) → Option (List Item × List Item)
  abstract_result none = none
  abstract_result (some (items, q)) = some (items, contents q)

  abstract_result-with_item :
      (x y : Item) (r : Option (List Item × WorkQueue))
      → x ≡ y
      → abstract_result (with_item x r) ≡ with_item y (abstract_result r)
  abstract_result-with_item x y none e = refl
  abstract_result-with_item x y (some (items, q)) e = ap (λ z. some (z ∷ items, contents q)) e

  -- On a valid ring waiting for completion runs the waiting items in the order in which they were
  -- scheduled, those that handlers schedule meanwhile included, for as many rounds as the fuel gives
  -- both the ring and the list.
  pub wait_for_completion_refines :
      (fuel : ℕ) (q : WorkQueue)
      → IsValid q
      → abstract_result (wait_for_completion reaction fuel q) ≡ run_all fuel (contents q)
  unfolding wait_for_completion run_all
  wait_for_completion_refines zero q v = refl
  wait_for_completion_refines (suc fuel) q v = elim (Bool-cases (q.head == q.tail)) [
    | inl empty ↦ let none_left : count q ≡ 0 = ground (arith, empty) in rw (empty, none_left)
    | inr more ↦
        let (taken, left, valid) = run_item_refines q (q.slot q.head) v refl in
        let ne : q.head ≢ q.tail = λ e. cc (more, (==_iff q.head q.tail).1 e) in
        let ih = wait_for_completion_refines fuel (run_item reaction q).1 valid in
        step more taken (contents-popped q v ne) (ih ∙ ap (run_all fuel) left)
  ]
    where
      step :
          (q.head == q.tail) ≡ false
          → (run_item reaction q).0 ≡ q.slot q.head
          → contents q ≡ q.slot q.head ∷ contents (popped q)
          → abstract_result (wait_for_completion reaction fuel (run_item reaction q).1)
            ≡ run_all fuel (
                if (q.slot q.head).handler == 0
                then contents (popped q)
                else push_all (reaction (q.slot q.head)) (contents (popped q)))
          → abstract_result (wait_for_completion reaction (suc fuel) q)
            ≡ run_all (suc fuel) (contents q)
      step more taken all ih =
          rw (more, all) (abstract_result-with_item _ _ _ taken ∙ ap (with_item (q.slot q.head)) ih)

run_all-quiet :
    (fuel : ℕ) (q : List Item) → length q < fuel → run_all (λ _. []) fuel q ≡ some (q, [])
unfolding run_all push_all
run_all-quiet zero q h = absurd (omega arith)
run_all-quiet (suc fuel) [] h = refl
run_all-quiet (suc fuel) (x ∷ q) h = elim (Bool-cases (x.handler == 0)) [
  | inl null ↦ rw null (ap (with_item x) (run_all-quiet fuel q (omega arith)))
  | inr call ↦ rw call (ap (with_item x) (run_all-quiet fuel q (omega arith)))
]

-- When no handler schedules further work, waiting ends within one round more than items wait: it has
-- then taken off every waiting item, oldest first, and left the ring empty.
pub wait_for_completion_drains :
    (fuel : ℕ) (q : WorkQueue)
    → IsValid q
    → count q < fuel
    → abstract_result (λ _. []) (wait_for_completion (λ _. []) fuel q) ≡ some (contents q, [])
wait_for_completion_drains fuel q v h =
    wait_for_completion_refines (λ _. []) fuel q v
    ∙ run_all-quiet fuel (contents q)
        (subst (λ n. n < fuel) (sym (length-window q.slot q.head (count q))) h)
