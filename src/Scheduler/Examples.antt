-- ===== src/Scheduler/Examples.antt =====
-- The theorems on queues and on the scheduler's interface at work.
use pico_toolkit.Base.{ℕ, ◌≡◌, refl, none, some, [], ◌∷◌, arith, ◌==◌, if◌then◌else◌}
use pico_toolkit.Links.{Heap}
use pico_toolkit.Links.Ring.{Ring}
use pico_toolkit.Scheduler.Queue.{enqueue, first_eligible, sched_queue_push, sched_queue_pop}
use pico_toolkit.Scheduler.Queue.Refine.{
  Leaves, Pops, sched_queue_push-enqueue, sched_queue_pop-first_eligible,
}
use pico_toolkit.Scheduler.Queue.Order.{Sorted, at_priority, at_priority-enqueue}
use pico_toolkit.Scheduler.Api.Critical.{Critical}

abbrev three : Heap
three = record {
  next = λ j.
      if j == 10 then 1 else if j == 1 then 2 else if j == 2 then 3 else if j == 3 then 10 else j;
  prev = λ j.
      if j == 10 then 3 else if j == 1 then 10 else if j == 2 then 1 else if j == 3 then 2 else j;
}

three-Ring : Ring three 10 (1 ∷ 2 ∷ 3 ∷ [])
three-Ring = record { seg = ground arith; apart = ground arith }

-- Tasks 1 and 4 have priority 5, the others 7.
abbrev prio : ℕ → ℕ
prio t = if t == 1 then 5 else if t == 4 then 5 else 7

three-Sorted : Sorted prio (1 ∷ 2 ∷ 3 ∷ [])
three-Sorted = ground arith

sched_queue_push-enqueue_example :
    Leaves (sched_queue_push prio 4 10 4 three) 10 (enqueue prio 4 (1 ∷ 2 ∷ 3 ∷ []))
sched_queue_push-enqueue_example =
    sched_queue_push-enqueue prio 4 (1 ∷ 2 ∷ 3 ∷ []) 4 three-Ring refl (omega arith)

sched_queue_pop-first_eligible_example :
    Pops (sched_queue_pop (λ core t. t == 2) 4 10 0 three) 10 (some 2) (1 ∷ 3 ∷ [])
unfolding first_eligible
sched_queue_pop-first_eligible_example =
    sched_queue_pop-first_eligible (λ core t. t == 2) 4 (1 ∷ 2 ∷ 3 ∷ []) 0 three-Ring (omega arith)

at_priority-enqueue_example : at_priority prio 5 (enqueue prio 4 (1 ∷ 2 ∷ 3 ∷ [])) ≡ 1 ∷ 4 ∷ []
at_priority-enqueue_example = at_priority-enqueue prio 5 4 (1 ∷ 2 ∷ 3 ∷ []) three-Sorted

-- Core 0 owns the critical section, and core 1 has just found the spin lock free.
abbrev owned_by_0 : Critical
owned_by_0 = record { critical = 0; critical_counter = 1; spin_lock = none; primask = λ c. 1 }
