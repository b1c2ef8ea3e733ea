-- ===== src/Scheduler/Invariant.antt =====
-- What holds of the scheduler between its services: the queues mirror the tasks' `current_queue`
-- and are in order, each task's state fits where it stands, and the timers are those of waiting tasks.
pub mod Queues
pub mod Timers
pub mod Resume
pub mod Suspend
pub mod Frame
pub mod Wait
pub mod Wake
pub mod Lifecycle
pub mod Keeps
pub mod Expiry
pub mod Dispatch
pub mod Switch
use pico_toolkit.Base.{
  ℕ, ◌≤◌, ◌≡◌, Bool, true, false, not, ◌||◌, Option, none, some, List, [], ◌∷◌, ◌==◌, if◌then◌else◌,
  mem, Distinct,
}
use pico_toolkit.Scheduler.Queue.Order.{Sorted}
use pico_toolkit.Scheduler.State.{
  Sched, Task, TaskState, terminated, blocked, suspended, ready, running, priority_of, expiry_of,
  closest, ready_queue,
}

abbrev pub at : ℕ → Option ℕ → Bool
at q none = false
at q (some p) = q == p

-- Each queue holds exactly the tasks whose `current_queue` it is, once each, the most urgent first.
pub record Queued (s : Sched) : Type 0 where
  pub linked : (q t : ℕ) → mem t (s.queue q) ≡ at q (s.task t).current_queue
  pub distinct : (q : ℕ) → Distinct (s.queue q)
  pub sorted : (q : ℕ) → Sorted (priority_of s) (s.queue q)

-- The state of a task of the scheduler; any other memory counts as terminated.
abbrev pub phase : Sched → ℕ → TaskState
phase s t = if mem t s.tasks then (s.task t).state else terminated

-- A ready task is in the ready queue, a blocked one in the queue of a futex, any other in none.
abbrev pub fits : TaskState → Option ℕ → Bool
fits ready none = false
fits ready (some q) = q == ready_queue
fits blocked none = false
fits blocked (some q) = not (q == ready_queue)
fits _ none = true
fits _ (some q) = false

abbrev pub waits : TaskState → Bool
waits blocked = true
waits suspended = true
waits _ = false

-- The timers are in order of expiry, and `timer_expires` is the first one's.
pub record Timed (s : Sched) : Type 0 where
  pub once : Distinct s.timers
  pub in_order : Sorted (expiry_of s) s.timers
  pub next_expiry : s.timer_expires ≡ closest (expiry_of s) s.timers

pub record Inv (s : Sched) : Type 0 where
  pub queued : Queued s
  pub placed : (t : ℕ) → fits (phase s t) (s.task t).current_queue ≡ true
  pub timed : Timed s
  pub waiting : (t : ℕ) → mem t s.timers ≡ true → waits (phase s t) ≡ true
  -- The current tasks of the cores are the running tasks.
  pub holds : (c t : ℕ) → s.current c ≡ some t → (phase s t ≡ running) × ((s.task t).core ≡ c)
  pub runs : (t : ℕ) → phase s t ≡ running → s.current (s.task t).core ≡ some t
