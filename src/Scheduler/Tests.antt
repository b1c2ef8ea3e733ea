-- ===== src/Scheduler/Tests.antt =====
-- Concrete schedulers, and the theorems on the scheduler at work on them.
use pico_toolkit.Base.{
  ℕ, ◌≡◌, refl, ◌≤◌, ◌+◌, true, false, none, some, [], ◌∷◌, arith, pos, inl, inr, mem, ◌<◌,
  if◌then◌else◌, ◌==◌, has_any,
}
use pico_toolkit.Scheduler.State.{
  Sched, Task, terminated, blocked, ready, running, done, queue_pop, queue_remove, ready_queue,
  timer_pop, owner_tracking, priority_of, can_run, get_ticks, expiry_of,
}
use pico_toolkit.Scheduler.Queue.{first_eligible}
use pico_toolkit.Scheduler.Switch.{switch, expire_timers}
use pico_toolkit.Scheduler.Service.{wait_svc, resume_svc}
use pico_toolkit.Scheduler.Wake.{wake_svc, wake_loop}
use pico_toolkit.Scheduler.Wake.Drain.{wake_loop-all}
use pico_toolkit.Scheduler.Api.{TaskDescriptor, create, init, primordial_task}
use pico_toolkit.Scheduler.Invariant.{Inv, Timed, phase}
use pico_toolkit.Scheduler.Invariant.Dispatch.{Outcome}
use pico_toolkit.Scheduler.Invariant.Switch.{switch-Inv, queue_pop-most_urgent}
use pico_toolkit.Scheduler.Invariant.Expiry.{expire_timers-none_due}
use pico_toolkit.Scheduler.Invariant.Wait.{wait_svc-Inv}
use pico_toolkit.Scheduler.Invariant.Wake.{wake_svc-Inv}
use pico_toolkit.Scheduler.Api.Reach.{Reachable-Inv, starts, creates, resumes}

abbrev no_task : Task
no_task = record {
  state = terminated;
  core = 0;
  affinity = 0;
  base_priority = 0;
  current_priority = 0;
  timer_expires = 0;
  current_queue = none;
  flags = 0;
  stack_marker0 = 0;
  stack_marker1 = 0;
  r0 = done 0;
}

-- Memory without tasks. A futex at every address, whose word follows it, and which inherits priorities.
abbrev memory : Sched
memory = record {
  task = λ t. no_task;
  futex = λ f. record { value = f + 1; flags = 7; owned_by = none };
  word = λ a. 0;
  queue = λ q. [];
  owned = λ t. [];
  tasks = [];
  timers = [];
  timer_expires = 0;
  slice_duration = pos 0;
  started = false;
  locked = pos 0;
  current = λ c. none;
  ticks = λ c. 0;
  slice_expires = λ c. pos 0;
  deferred_wake = λ c. [];
  taken_wake_counter = λ c. 0;
  given_wake_counter = λ c. 0;
  has_initial_frame = λ c. false;
  requests = [];
  exited = [];
}

abbrev urgent : TaskDescriptor
urgent = record { flags = 0; priority = 3; affinity = 0 }

abbrev runs_now : Task
runs_now = record no_task { state = running; core = 0; base_priority = 3; current_priority = 3 }

abbrev is_ready : Task
is_ready = record no_task {
  state = ready;
  base_priority = 8;
  current_priority = 8;
  current_queue = some 0;
}

abbrev is_blocked : Task
is_blocked = record no_task {
  state = blocked;
  base_priority = 5;
  current_priority = 5;
  timer_expires = 40;
  current_queue = some 500;
}

-- Task 1000 runs on core 0, task 2000 is ready, and task 3000 waits on futex 500 till tick 40. A wake
-- of all waiters of the futex is deferred to core 1.
abbrev busy : Sched
busy = record memory {
  task = λ t.
      if t == 1000
      then runs_now
      else if t == 2000
      then is_ready
      else if t == 3000
      then is_blocked
      else no_task;
  queue = λ q. if q == 0 then 2000 ∷ [] else if q == 500 then 3000 ∷ [] else [];
  tasks = 1000 ∷ 2000 ∷ 3000 ∷ [];
  timers = 3000 ∷ [];
  timer_expires = 40;
  current = λ c. if c == 0 then some 1000 else none;
  ticks = λ c. 40;
  deferred_wake = λ c. if c == 1 then 501 ∷ 0 ∷ [] else [];
  given_wake_counter = λ c. if c == 1 then 1 else 0;
}

busy-Inv : Inv busy
busy-Inv = record {
  queued = record {
    linked = λ q t. ground arith;
    distinct = λ q. ground arith;
    sorted = λ q. ground arith;
  };
  placed = λ t. ground arith;
  timed = record { once = ground arith; in_order = ground arith; next_expiry = refl };
  waiting = λ t m. ground arith;
  holds = λ c t e. ground arith;
  runs = λ t e. ground arith;
}

no_primordial : has_any urgent.flags primordial_task ≡ true → busy.current 0 ≡ none
unfolding has_any
no_primordial e = absurd (ground (arith, e))

pops_2000 : queue_pop ready_queue 1 busy ≡ (some 2000, queue_remove 2000 busy)
unfolding queue_pop can_run has_any first_eligible
pops_2000 = refl

-- A tick before the timer of task 3000.
abbrev early : Sched
early = record busy { ticks = λ c. 39 }

early-Timed : Timed early
early-Timed = record { once = ground arith; in_order = ground arith; next_expiry = refl }

still_there : mem 3000 (expire_timers 1 early).timers ≡ true
unfolding expire_timers timer_pop
still_there = refl

switch-Inv_example : Outcome 1 (switch 2 1 ((λ r. r) ∷ []) busy)
switch-Inv_example =
    switch-Inv 2 1 ((λ r. r) ∷ []) ((λ r v. v), tt) (inr (omega arith), (inl refl, tt)) busy-Inv

wait_svc-Inv_example : Inv (wait_svc 0 500 0 10 busy).1
wait_svc-Inv_example = wait_svc-Inv 0 1000 500 0 10 (λ e. omega (arith, e)) refl busy-Inv

wake_svc-Inv_example : Inv (wake_svc 0 500 true busy).1
wake_svc-Inv_example = wake_svc-Inv 0 500 true (λ e. omega (arith, e)) busy-Inv

queue_pop-most_urgent_example :
    (phase busy 2000 ≡ ready)
    × (can_run busy 1 2000 ≡ true)
    × ((j : ℕ)
        → phase busy j ≡ ready
        → can_run busy 1 j ≡ true
        → priority_of busy 2000 ≤ priority_of busy j)
queue_pop-most_urgent_example =
    queue_pop-most_urgent 1 2000 (λ e. omega (arith, e)) busy-Inv pops_2000

expire_timers-none_due_example :
    get_ticks (expire_timers 1 early) < expiry_of (expire_timers 1 early) 3000
expire_timers-none_due_example =
    expire_timers-none_due 1 early 3000 early-Timed (omega arith) still_there

-- Tasks 3000 and 4000 wait on futex 600, which does not track its owner.
abbrev crowded : Sched
crowded = record memory {
  futex = λ f. record { value = f + 1; flags = 0; owned_by = none };
  queue = λ q. if q == 600 then 3000 ∷ 4000 ∷ [] else [];
}

untracked : has_any (crowded.futex 600).flags owner_tracking ≡ false
unfolding has_any
untracked = refl

wake_loop-all_example :
    ((wake_loop 2 600 true 0 crowded).1.queue 600 ≡ []) × ((wake_loop 2 600 true 0 crowded).0 ≡ 2)
wake_loop-all_example =
    wake_loop-all 2 600 0 crowded (λ e. omega (arith, e)) untracked (ground arith) (omega arith)

new_4000 : mem 4000 (init 2 memory).tasks ≡ false
unfolding init
new_4000 = refl

not_primordial : has_any urgent.flags primordial_task ≡ true → (init 2 memory).current 0 ≡ none
unfolding has_any init
not_primordial e = absurd (ground (arith, e))

Reachable-Inv_example :
    Inv (resume_svc 0 4000 (create 0 (some 4000) (some urgent) (init 2 memory)).2).1
Reachable-Inv_example = Reachable-Inv (
    resumes 0 4000 (
      creates 0 4000 urgent (starts 2 memory (λ t. refl) (λ q ne. refl) (λ c le. refl)) new_4000
        not_primordial))
