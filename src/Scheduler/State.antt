-- ===== src/Scheduler/State.antt =====
-- scheduler.h and scheduler.c: the data of the scheduler, and its small operations. A task, a futex
-- and a queue are named by address; the ready queue has address 0, and the queue of a futex's
-- waiters the address of the futex. A queue holds the sequence of tasks that `Scheduler/Queue`
-- relates to the linked nodes. Everything below runs under the scheduler's spin lock.
use pico_toolkit.Base.{
  ℕ, ◌+◌, ◌%◌, ◌^◌, Bool, true, not, ◌&&◌, ◌||◌, Option, none, some, List, [], ◌∷◌, ◌==◌, leb,
  if◌then◌else◌, mem, erase, update, ℤ, has_any,
}
use pico_toolkit.Scheduler.Queue.{uint32_max, enqueue, first_eligible}

pub data TaskState : Type 0 where
  terminated blocked suspended ready running : TaskState

pub data Errno : Type 0 where
  esrch einval etimedout ecanceled efault enospc : Errno

-- What a service call leaves in r0: a result, or a negative error number.
pub data Code : Type 0 where
  done : ℕ → Code
  failed : Errno → Code

-- `struct task`. `r0` is the register of the saved frame `psp` that the interrupted call returns.
pub record Task : Type 0 where
  pub state : TaskState
  pub core : ℕ
  pub affinity : ℕ
  pub base_priority : ℕ
  pub current_priority : ℕ
  pub timer_expires : ℕ
  pub current_queue : Option ℕ
  pub flags : ℕ
  pub stack_marker0 : ℕ
  pub stack_marker1 : ℕ
  pub r0 : Code

-- `struct futex`. `value` is the address of its word, `owned_by` the task whose list of owned
-- futexes its node `owned` is linked in.
pub record Futex : Type 0 where
  pub value : ℕ
  pub flags : ℕ
  pub owned_by : Option ℕ

-- `struct scheduler`, with the core-local variables as functions of the core. `requests` and
-- `exited` record the calls of `scheduler_request_switch` and of the termination hook, last first.
pub record Sched : Type 0 where
  pub task : ℕ → Task
  pub futex : ℕ → Futex
  pub word : ℕ → ℕ
  pub queue : ℕ → List ℕ
  pub owned : ℕ → List ℕ
  pub tasks : List ℕ
  pub timers : List ℕ
  pub timer_expires : ℕ
  pub slice_duration : ℤ
  pub started : Bool
  pub locked : ℤ
  pub current : ℕ → Option ℕ
  pub ticks : ℕ → ℕ
  pub slice_expires : ℕ → ℤ
  pub deferred_wake : ℕ → List ℕ
  pub taken_wake_counter : ℕ → ℕ
  pub given_wake_counter : ℕ → ℕ
  pub has_initial_frame : ℕ → Bool
  pub requests : List ℕ
  pub exited : List ℕ

abbrev pub ready_queue : ℕ
ready_queue = 0

abbrev pub wait_forever : ℕ
wait_forever = 0xffffffff

-- The flags of a task and of a futex.
abbrev pub ignore_viable : ℕ
ignore_viable = 0x01

abbrev pub task_stack_check : ℕ
task_stack_check = 0x02

abbrev pub core_affinity : ℕ
core_affinity = 0x20

abbrev pub create_suspended : ℕ
create_suspended = 0x40

abbrev pub contention_tracking : ℕ
contention_tracking = 0x01

abbrev pub futex_pi : ℕ
futex_pi = 0x02

abbrev pub owner_tracking : ℕ
owner_tracking = 0x04

abbrev pub stack_marker : ℕ
stack_marker = 0x137cc731

abbrev pub set_task : ℕ → Task → Sched → Sched
set_task t v s = record s { task = update s.task t v }

abbrev pub priority_of : Sched → ℕ → ℕ
priority_of s t = (s.task t).current_priority

abbrev pub expiry_of : Sched → ℕ → ℕ
expiry_of s t = (s.task t).timer_expires

-- `sched_queue_remove`: the node is unlinked from whichever queue it stands in.
unfoldable pub queue_remove : ℕ → Sched → Sched
queue_remove t s = record s {
  queue = λ q. erase t (s.queue q);
  task = update s.task t (record (s.task t) { current_queue = none });
}

-- `sched_queue_push`
unfoldable pub queue_push : ℕ → ℕ → Sched → Sched
queue_push q t s = record s {
  queue = update s.queue q (enqueue (priority_of s) t (s.queue q));
  task = update s.task t (record (s.task t) { current_queue = some q });
}

-- The test of `sched_queue_pop` for a core.
unfoldable pub can_run : Sched → ℕ → ℕ → Bool
can_run s core t = not (has_any (s.task t).flags core_affinity) || ((s.task t).affinity == core)

abbrev pub take_task : Sched → Option ℕ → Option ℕ × Sched
take_task s none = (none, s)
take_task s (some t) = (some t, queue_remove t s)

-- `sched_queue_pop`
unfoldable pub queue_pop : ℕ → ℕ → Sched → Option ℕ × Sched
queue_pop q core s =
    if core == uint32_max
    then take_task s (first_eligible (λ t. true) (s.queue q))
    else take_task s (first_eligible (can_run s core) (s.queue q))

abbrev pub requeue : Option ℕ → ℕ → Sched → Sched
requeue none t s = s
requeue (some q) t s = queue_push q t (queue_remove t s)

abbrev pub with_priority : ℕ → ℕ → Sched → Sched
with_priority t p s = set_task t (record (s.task t) { current_priority = p }) s

-- `sched_queue_reprioritize`
unfoldable pub reprioritize : ℕ → ℕ → Sched → Sched
reprioritize t new_priority s = requeue (s.task t).current_queue t (with_priority t new_priority s)

-- `scheduler_get_ticks`: core 0 keeps the time.
abbrev pub get_ticks : Sched → ℕ
get_ticks s = s.ticks 0

-- The time of the first timer, and what `timer_expires` is without one.
abbrev pub closest : (ℕ → ℕ) → List ℕ → ℕ
closest expiry [] = uint32_max
closest expiry (x ∷ xs) = expiry x

unfoldable pub timer_push : ℕ → ℕ → Sched → Sched
timer_push t delay s =
    let s1 = set_task t (record (s.task t) { timer_expires = (get_ticks s + delay) % 2 ^ 32 }) s in
    let timers = enqueue (expiry_of s1) t (erase t s.timers) in
    record s1 { timers = timers; timer_expires = closest (expiry_of s1) timers }

unfoldable pub timer_remove : ℕ → Sched → Sched
timer_remove t s =
    let timers = erase t s.timers in
    record s { timers = timers; timer_expires = closest (expiry_of s) timers }

abbrev expired_first : Sched → List ℕ → Option ℕ × Sched
expired_first s [] = (none, s)
expired_first s (t ∷ _) =
    if leb (expiry_of s t) (get_ticks s) then (some t, timer_remove t s) else (none, s)

unfoldable pub timer_pop : Sched → Option ℕ × Sched
unfolding timer_remove
timer_pop s = expired_first s s.timers

-- A request for no core, `UINT32_MAX`, is dropped.
unfoldable pub request_switch : ℕ → Sched → Sched
request_switch core s = if core == uint32_max then s else record s { requests = core ∷ s.requests }

unfoldable pub check_stack : Task → Bool
check_stack t =
    not (has_any t.flags task_stack_check)
    || ((t.stack_marker0 == stack_marker) && (t.stack_marker1 == stack_marker))

-- `scheduler_task_alive`; the null pointer is in no list.
unfoldable pub task_alive : ℕ → Sched → Code
task_alive t s = if mem t s.tasks then done 0 else failed esrch

unfoldable pub set_current : ℕ → Option ℕ → Sched → Sched
set_current core t s = record s { current = update s.current core t }

unfoldable pub terminated_hook : ℕ → Sched → Sched
terminated_hook t s = record s { exited = t ∷ s.exited }

-- The saved frame of a task gets a return value.
abbrev pub set_r0 : ℕ → Code → Sched → Sched
set_r0 t code s = set_task t (record (s.task t) { r0 = code }) s

abbrev pub set_state : ℕ → TaskState → Sched → Sched
set_state t v s = set_task t (record (s.task t) { state = v }) s

abbrev pub set_state_core : ℕ → TaskState → ℕ → Sched → Sched
set_state_core t v core s = set_task t (record (s.task t) { state = v; core = core }) s
