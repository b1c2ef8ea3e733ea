-- ===== src/Scheduler/Api/Reach.antt =====
-- The states that the scheduler passes through: from `scheduler_init`, by services and switches.
use pico_toolkit.Base.{
  ℕ, ◌≤◌, ◌≡◌, ◌≢◌, Bool, true, false, none, some, List, [], mem, All, subst, has_any,
}
use pico_toolkit.Scheduler.State.{Sched, running, ready_queue}
use pico_toolkit.Scheduler.Service.{resume_svc, suspend_svc, wait_svc, terminate_svc, priority_svc}
use pico_toolkit.Scheduler.Wake.{wake_svc}
use pico_toolkit.Scheduler.Switch.{switch, dispatched}
use pico_toolkit.Scheduler.Invariant.{Inv}
use pico_toolkit.Scheduler.Invariant.Resume.{resume_svc-Inv}
use pico_toolkit.Scheduler.Invariant.Suspend.{suspend_svc-Inv}
use pico_toolkit.Scheduler.Invariant.Wait.{wait_svc-Inv}
use pico_toolkit.Scheduler.Invariant.Wake.{wake_svc-Inv}
use pico_toolkit.Scheduler.Invariant.Lifecycle.{terminate_svc-Inv, priority_svc-Inv}
use pico_toolkit.Scheduler.Invariant.Switch.{Harmless, switch-Inv}
use pico_toolkit.Scheduler.Invariant.Expiry.{Slot}
use pico_toolkit.Scheduler.Invariant.Dispatch.{Outcome}
use pico_toolkit.Scheduler.Api.{TaskDescriptor, create, init, primordial_task}
use pico_toolkit.Scheduler.Api.Laws.{init-Inv, create-Inv}

-- A core calls what the code lets it call: it waits as its current task on a futex, it suspends or ends
-- itself or a task that does not run, it creates a task from memory that is none.
pub data Reachable : Sched → Type 0 where
  starts :
      (num_cores : ℕ) (s : Sched)
      → ((t : ℕ) → (s.task t).current_queue ≡ none)
      → ((q : ℕ) → q ≢ ready_queue → s.queue q ≡ [])
      → ((c : ℕ) → num_cores ≤ c → s.current c ≡ none)
      → Reachable (init num_cores s)
  creates :
      {s : Sched} (core t : ℕ) (d : TaskDescriptor)
      → Reachable s
      → mem t s.tasks ≡ false
      → (has_any d.flags primordial_task ≡ true → s.current core ≡ none)
      → Reachable (create core (some t) (some d) s).2
  waits :
      {s : Sched} (core cur f expected ticks : ℕ)
      → Reachable s
      → f ≢ 0
      → s.current core ≡ some cur
      → Reachable (wait_svc core f expected ticks s).1
  wakes :
      {s : Sched} (core f : ℕ) (all : Bool)
      → Reachable s
      → f ≢ 0
      → Reachable (wake_svc core f all s).1
  resumes : {s : Sched} (core t : ℕ) → Reachable s → Reachable (resume_svc core t s).1
  suspends :
      {s : Sched} (core cur t ticks : ℕ)
      → Reachable s
      → s.current core ≡ some cur
      → ((s.task t).state ≡ running → t ≡ cur)
      → Reachable (suspend_svc core t ticks s).1
  ends :
      {s : Sched} (core t : ℕ)
      → Reachable s
      → ((s.task t).state ≡ running → s.current core ≡ some t)
      → Reachable (terminate_svc core t s).1
  sets_priority :
      {s : Sched} (core t priority : ℕ) → Reachable s → Reachable (priority_svc core t priority s).1
  switches :
      {s r : Sched} (num_cores core t : ℕ) (others : List (Sched → Sched))
      → Reachable s
      → All (Harmless core) others
      → All Slot (s.deferred_wake core)
      → switch num_cores core others s ≡ dispatched t r
      → Reachable r

-- Every state reached from a start of the scheduler by creations, waits, wakes, resumes, suspensions,
-- terminations, new priorities and context switches, each called under the conditions that the code
-- or its callers ensure, has the invariant of the scheduler.
pub Reachable-Inv : {s : Sched} → Reachable s → Inv s
Reachable-Inv (starts n s free empty idle) = init-Inv n s free empty idle
Reachable-Inv (creates core t d r new vacant) = create-Inv core t d new vacant (Reachable-Inv r)
Reachable-Inv (waits core cur f e ticks r nf now) =
    wait_svc-Inv core cur f e ticks nf now (Reachable-Inv r)
Reachable-Inv (wakes core f all r nf) = wake_svc-Inv core f all nf (Reachable-Inv r)
Reachable-Inv (resumes core t r) = resume_svc-Inv core t (Reachable-Inv r)
Reachable-Inv (suspends core cur t ticks r now quiet) =
    suspend_svc-Inv core cur t ticks now quiet (Reachable-Inv r)
Reachable-Inv (ends core t r quiet) = terminate_svc-Inv core t quiet (Reachable-Inv r)
Reachable-Inv (sets_priority core t p r) = priority_svc-Inv core t p (Reachable-Inv r)
Reachable-Inv (switches n core t others r h slots e) =
    (subst (Outcome core) e (switch-Inv n core others h slots (Reachable-Inv r))).0
