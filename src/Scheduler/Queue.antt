-- ===== src/Scheduler/Queue.antt =====
-- pico-scheduler/scheduler.c, the run queues (`struct sched_queue`), twice: pointer by pointer, and
-- as an operation on the sequence of tasks, which the rest of the scheduler's model uses. A task
-- and its `queue_node` have one address; `prio` is `current_priority`, where 0 is the most urgent.
pub mod Refine
pub mod Order
use pico_toolkit.Base.{
  ℕ, zero, suc, ◌^◌, Bool, true, false, Option, none, some, List, [], ◌∷◌, ◌==◌, ltb, if◌then◌else◌,
  ◌-◌,
}
use pico_toolkit.Links.{Heap}
use pico_toolkit.Links.Sched.{
  sched_list_init, sched_list_empty, sched_list_insert_before, sched_list_push, sched_list_pop,
  sched_list_remove,
}

abbrev pub uint32_max : ℕ
uint32_max = 0xffffffff

-- `SCHEDULER_NUM_TASK_PRIORITIES`
abbrev pub num_task_priorities : ℕ
num_task_priorities = 64

-- On the sequence of tasks: behind the tasks that are as urgent.
unfoldable pub enqueue : (ℕ → ℕ) → ℕ → List ℕ → List ℕ
enqueue prio t [] = t ∷ []
enqueue prio t (x ∷ xs) =
    let rest = enqueue prio t xs in if ltb (prio t) (prio x) then t ∷ x ∷ xs else x ∷ rest

-- The first task that may run, none if there is none.
unfoldable pub first_eligible : (ℕ → Bool) → List ℕ → Option ℕ
first_eligible can_run [] = none
first_eligible can_run (x ∷ xs) =
    let rest = first_eligible can_run xs in if can_run x then some x else rest

unfoldable pub highest_priority : (ℕ → ℕ) → List ℕ → ℕ
highest_priority prio [] = num_task_priorities
highest_priority prio (x ∷ xs) = prio x

-- Pointer by pointer.
pub sched_queue_init : ℕ → Heap → Heap
sched_queue_init queue h = sched_list_init queue h

pub sched_queue_empty : ℕ → Heap → Bool
sched_queue_empty queue h = sched_list_empty queue h

module _ (prio : ℕ → ℕ) where
  -- The search of `sched_queue_push` from `node`: the entry to insert before, if any. The outer
  -- `none` means that the fuel ran out.
  pub find_insert_point : ℕ → ℕ → ℕ → ℕ → Heap → Option (Option ℕ)
  find_insert_point zero queue node task h = none
  find_insert_point (suc fuel) queue node task h =
      let rest = find_insert_point fuel queue (h.next node) task h in
      if node == queue
      then some none
      else if ltb (prio task) (prio node)
      then some (some node)
      else rest

  abbrev insert_at : ℕ → ℕ → Heap → Option ℕ → Heap
  insert_at queue task h (some entry) = sched_list_insert_before entry task h
  insert_at queue task h none = sched_list_push queue task h

  pub sched_queue_push : ℕ → ℕ → ℕ → Heap → Option Heap
  unfolding find_insert_point
  sched_queue_push fuel queue task h = elim (find_insert_point fuel queue (h.next queue) task h) [
    | none ↦ none
    | some entry ↦ some (insert_at queue task h entry)
  ]

  pub sched_queue_highest_priority : ℕ → Heap → ℕ
  sched_queue_highest_priority queue h =
      if sched_queue_empty queue h then num_task_priorities else prio (h.next queue)

module _ (can_run : ℕ → ℕ → Bool) where
  -- The search of `sched_queue_pop` for a task that can run on `core`.
  pub find_eligible : ℕ → ℕ → ℕ → ℕ → Heap → Option (Option ℕ)
  find_eligible zero queue node core h = none
  find_eligible (suc fuel) queue node core h =
      let rest = find_eligible fuel queue (h.next node) core h in
      if node == queue then some none else if can_run core node then some (some node) else rest

  abbrev take_out : Heap → Option ℕ → Option ℕ × Heap
  take_out h (some task) = (some task, sched_list_remove task h)
  take_out h none = (none, h)

  pub sched_queue_pop : ℕ → ℕ → ℕ → Heap → Option (Option ℕ × Heap)
  unfolding find_eligible
  sched_queue_pop fuel queue core h =
      if core == uint32_max
      then some (sched_list_pop queue h)
      else elim (find_eligible fuel queue (h.next queue) core h) [
        | none ↦ none
        | some found ↦ some (take_out h found)
      ]
