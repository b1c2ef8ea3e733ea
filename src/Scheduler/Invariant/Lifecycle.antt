-- ===== src/Scheduler/Invariant/Lifecycle.antt =====
-- Creating and terminating a task, and setting its priority, keep the invariant.
use pico_toolkit.Base.{
  ℕ, ◌≡◌, ◌≢◌, refl, Bool, true, false, ◌&&◌, Option, none, some, [], ◌∷◌, ◌++◌, arith, mem,
  mem-erase, mem-append, ◌==◌, if◌then◌else◌, inl, inr, Bool-cases, ltb, has_any,
}
use pico_toolkit.Scheduler.State.{
  Sched, suspended, ready, running, queue_remove, queue_push, timer_remove, ready_queue, set_state,
  priority_of, request_switch, set_current, terminated_hook, create_suspended,
}
use pico_toolkit.Scheduler.Service.{
  requests_if_more_urgent, create_svc, terminate_task, terminate_svc, priority_svc, is_some_of,
}
use pico_toolkit.Scheduler.Invariant.{Queued, Timed, Inv}
use pico_toolkit.Scheduler.Invariant.Queues.{
  Queued-frame, queue_remove-Queued, queue_push-Queued, set_task-Queued, timer_remove-Queued,
}
use pico_toolkit.Scheduler.Invariant.Timers.{
  Timed-frame, timer_remove-Timed, queue_remove-Timed, queue_push-Timed, set_task-Timed,
}
use pico_toolkit.Scheduler.Invariant.Resume.{request_switch-Inv, alive-cases}
use pico_toolkit.Scheduler.Invariant.Frame.{reprioritize-Inv}

requests_if_more_urgent-Inv :
    {s : Sched} (core t : ℕ) (o : Option ℕ) → Inv s → Inv (requests_if_more_urgent core t s o)
requests_if_more_urgent-Inv core t none v = v
requests_if_more_urgent-Inv {s} core t (some cur) v =
    go (s.started && ltb (priority_of s t) (priority_of s cur))
  where
    go : (b : Bool) → Inv (if b then request_switch core s else s)
    go true = request_switch-Inv core v
    go false = v

abbrev listed : ℕ → Sched → Sched
listed t s = record s { tasks = s.tasks ++ t ∷ [] }

listed-Queued : {s : Sched} (t : ℕ) → Queued s → Queued (listed t s)
listed-Queued t v = Queued-frame (λ q. refl) (λ j. refl) (λ j. refl) v

listed-Timed : {s : Sched} (t : ℕ) → Timed s → Timed (listed t s)
listed-Timed t v = Timed-frame refl refl (λ j. refl) v

created_ready-Inv :
    {s : Sched} (t : ℕ)
    → mem t s.tasks ≡ false
    → Inv s
    → Inv (queue_push ready_queue t (set_state t ready (listed t s)))
unfolding queue_push
created_ready-Inv {s} t new v = record {
  queued =
      queue_push-Queued ready_queue t (ground (arith, v.placed t))
        (set_task-Queued t _ refl refl (listed-Queued t v.queued));
  placed = λ j. ground (arith, v.placed j, mem-append j s.tasks (t ∷ []));
  timed = queue_push-Timed ready_queue t (set_task-Timed t _ refl (listed-Timed t v.timed));
  waiting = λ j m. ground (arith, v.waiting j, mem-append j s.tasks (t ∷ []));
  holds = λ c j e. ground (arith, v.holds c j, mem-append j s.tasks (t ∷ []));
  runs = λ j e. ground (arith, v.runs j, mem-append j s.tasks (t ∷ []));
}

created_suspended-Inv :
    {s : Sched} (t : ℕ) → mem t s.tasks ≡ false → Inv s → Inv (set_state t suspended (listed t s))
created_suspended-Inv {s} t new v = record {
  queued = set_task-Queued t _ refl refl (listed-Queued t v.queued);
  placed = λ j. ground (arith, v.placed j, mem-append j s.tasks (t ∷ []));
  timed = set_task-Timed t _ refl (listed-Timed t v.timed);
  waiting = λ j m. ground (arith, v.waiting j, mem-append j s.tasks (t ∷ []));
  holds = λ c j e. ground (arith, v.holds c j, mem-append j s.tasks (t ∷ []));
  runs = λ j e. ground (arith, v.runs j, mem-append j s.tasks (t ∷ []));
}

-- A task that the scheduler does not have yet may be created, ready or suspended.
pub create_svc-Inv :
    {s : Sched} (core t : ℕ) → mem t s.tasks ≡ false → Inv s → Inv (create_svc core t s)
unfolding create_svc
create_svc-Inv {s} core t new v = go (has_any (s.task t).flags create_suspended)
  where
    go :
        (b : Bool)
        → Inv (
            if b
            then set_state t suspended (listed t s)
            else requests_if_more_urgent core t
                (queue_push ready_queue t (set_state t ready (listed t s)))
                (s.current core))
    go true = created_suspended-Inv t new v
    go false = requests_if_more_urgent-Inv core t (s.current core) (created_ready-Inv t new v)

terminate_task-Queued : {s : Sched} (core t : ℕ) → Queued s → Queued (terminate_task core t s)
unfolding terminate_task terminated_hook
terminate_task-Queued core t v =
    Queued-frame (λ q. refl) (λ j. refl) (λ j. refl)
      (timer_remove-Queued t (queue_remove-Queued t (set_task-Queued t _ refl refl v)))

terminate_task-Timed : {s : Sched} (core t : ℕ) → Timed s → Timed (terminate_task core t s)
unfolding terminate_task terminated_hook
terminate_task-Timed core t v =
    Timed-frame refl refl (λ j. refl)
      (timer_remove-Timed t (queue_remove-Timed t (set_task-Timed t _ refl v)))

-- A task that runs on no core.
terminate_other-Inv :
    {s : Sched} (core t : ℕ) → (s.task t).state ≢ running → Inv s → Inv (terminate_task core t s)
unfolding terminate_task queue_remove timer_remove terminated_hook
terminate_other-Inv {s} core t still v = record {
  queued = terminate_task-Queued core t v.queued;
  placed = λ j. ground (arith, v.placed j, mem-erase j t s.tasks);
  timed = terminate_task-Timed core t v.timed;
  waiting = λ j m. ground (arith, v.waiting j, mem-erase j t s.tasks, mem-erase j t s.timers);
  holds = λ c j e. ground (arith, v.holds c j, mem-erase j t s.tasks);
  runs = λ j e. ground (arith, v.runs j, mem-erase j t s.tasks);
}

-- The caller itself.
terminate_self-Inv :
    {s : Sched} (core t : ℕ)
    → s.current core ≡ some t
    → Inv s
    → Inv (set_current core none (terminate_task core t s))
unfolding terminate_task queue_remove timer_remove terminated_hook set_current
terminate_self-Inv {s} core t now v = record {
  queued = Queued-frame (λ q. refl) (λ j. refl) (λ j. refl) (terminate_task-Queued core t v.queued);
  placed = λ j. ground (arith, v.placed j, mem-erase j t s.tasks);
  timed = Timed-frame refl refl (λ j. refl) (terminate_task-Timed core t v.timed);
  waiting = λ j m. ground (arith, v.waiting j, mem-erase j t s.tasks, mem-erase j t s.timers);
  holds = λ c j e. ground (arith, v.holds c j, v.holds core t now, mem-erase j t s.tasks);
  runs = λ j e. ground (arith, v.runs j, v.holds core t now, mem-erase j t s.tasks);
}

terminate_ends-Inv :
    {s : Sched} (core t : ℕ) (o : Option ℕ)
    → s.current core ≡ o
    → ((s.task t).state ≡ running → s.current core ≡ some t)
    → Inv s
    → Inv (
        if is_some_of t o
        then request_switch core (set_current core none (terminate_task core t s))
        else terminate_task core t s)
terminate_ends-Inv {s} core t none e quiet v =
    terminate_other-Inv core t (λ r. ground (arith, quiet r)) v
terminate_ends-Inv {s} core t (some cur) e quiet v = elim (Bool-cases (t == cur)) [
  | inl h ↦ rw h (request_switch-Inv core (terminate_self-Inv core t (ground arith) v))
  | inr h ↦ rw h (terminate_other-Inv core t (λ r. ground (arith, quiet r)) v)
]

-- A termination keeps the invariant, if the task is the caller or does not run.
pub terminate_svc-Inv :
    {s : Sched} (core t : ℕ)
    → ((s.task t).state ≡ running → s.current core ≡ some t)
    → Inv s
    → Inv (terminate_svc core t s).1
unfolding terminate_svc
terminate_svc-Inv {s} core t quiet v = elim (alive-cases t s) [
  | inr dead ↦ rw dead v
  | inl (here, alive) ↦ rw alive (terminate_ends-Inv core t (s.current core) refl quiet v)
]

-- A new priority keeps the invariant: the task is moved within its queue.
pub priority_svc-Inv :
    {s : Sched} (core t priority : ℕ) → Inv s → Inv (priority_svc core t priority s).1
unfolding priority_svc
priority_svc-Inv {s} core t priority v = elim (alive-cases t s) [
  | inr dead ↦ rw dead v
  | inl (here, alive) ↦ rw alive (
      request_switch-Inv core (
        reprioritize-Inv t priority (record {
          queued = set_task-Queued t _ refl refl v.queued;
          placed = λ j. ground (arith, v.placed j);
          timed = set_task-Timed t _ refl v.timed;
          waiting = λ j m. ground (arith, v.waiting j);
          holds = λ c j e. ground (arith, v.holds c j);
          runs = λ j e. ground (arith, v.runs j);
        })))
]
