-- ===== src/Scheduler/Api.antt =====
-- scheduler.c, the functions that tasks and interrupt handlers call. A service call is the handler
-- of `Scheduler/Service` or `Scheduler/Wake`; when the handler has switched away from the
-- caller, the caller goes on from the r0 that its frame has when it runs again.
pub mod Futex
pub mod Critical
pub mod Laws
pub mod Reach
use pico_toolkit.Base.{
  ℕ, zero, suc, ◌+◌, ◌<◌, Bool, true, false, not, ◌&&◌, ◌||◌, Option, none, some, List, [], ◌∷◌,
  ◌++◌, set, ◌==◌, ltb, leb, if◌then◌else◌, update, has_any, ℤ, pos, negsuc, increment, decrement,
  is_negative,
}
use pico_toolkit.Scheduler.Queue.{uint32_max}
use pico_toolkit.Scheduler.State.{
  Sched, Task, TaskState, terminated, running, Code, done, failed, Errno, einval, enospc, etimedout,
  task_stack_check, core_affinity, stack_marker, futex_pi, owner_tracking, wait_forever,
  ready_queue, set_task, request_switch, set_current,
}
use pico_toolkit.Scheduler.Service.{
  create_svc, yield_svc, suspend_svc, resume_svc, terminate_svc, wait_svc, priority_svc,
}
use pico_toolkit.Scheduler.Wake.{wake_svc}
use pico_toolkit.Scheduler.Switch.{int32_max, max_deferred_wake}

-- What a call does to `errno`.
pub data Report : Type 0 where
  unreported : Report
  reported negated : Errno → Report

-- A call returns at once, or it has switched away and turns a later r0 into its result.
pub data Call : Type 0 where
  returned : Code → Report → Sched → Call
  switched : (Code → Code × Report) → Sched → Call

-- A negative status goes to `errno`.
abbrev pub reply : Code → Code × Report
reply (done n) = (done n, unreported)
reply (failed e) = (failed e, reported e)

abbrev pub answer : Code × Sched → Call
answer (done n, s) = returned (done n) unreported s
answer (failed e, s) = returned (failed e) (reported e) s

-- The services that switch away from their caller answer at once only with an error.
abbrev pub answer_later : (Code → Code × Report) → Code × Sched → Call
answer_later finish (done n, s) = switched finish s
answer_later finish (failed e, s) = let (code, report) = finish (failed e) in returned code report s

abbrev pub or_current : ℕ → Sched → Option ℕ → Option ℕ
or_current core s none = s.current core
or_current core s (some t) = some t

-- `struct task_descriptor`, less the entry point and the context, which only fill the first frame.
pub record TaskDescriptor : Type 0 where
  pub flags : ℕ
  pub priority : ℕ
  pub affinity : ℕ

abbrev pub primordial_task : ℕ
primordial_task = 0x10

-- The task at the bottom of its stack. With the stack check the stack is filled with the marker first.
unfoldable pub new_task : TaskDescriptor → Task → Task
new_task d old =
    let marked = has_any d.flags task_stack_check in
    record old {
      core = uint32_max;
      affinity = if has_any d.flags core_affinity then d.affinity else uint32_max;
      base_priority = d.priority;
      current_priority = d.priority;
      timer_expires = uint32_max;
      current_queue = none;
      flags = d.flags;
      stack_marker0 = if marked then stack_marker else old.stack_marker0;
      stack_marker1 = if marked then stack_marker else old.stack_marker1;
    }

-- The first task already runs, on the core of the caller. `bound` is the flags with the affinity bit set.
abbrev pub adopt : ℕ → ℕ → ℕ → Sched → Sched
adopt core t bound s0 =
    let s1 = record s0 { tasks = s0.tasks ++ t ∷ [] } in
    set_current core (some t) (
      set_task t
        (record (s1.task t) { flags = bound; affinity = core; state = running; core = core }) s1)

abbrev or_core_affinity : ℕ → ℕ
or_core_affinity flags = if has_any flags core_affinity then flags else flags + core_affinity

-- `scheduler_create`: the task's address is that of its stack.
unfoldable pub create : ℕ → Option ℕ → Option TaskDescriptor → Sched → Option ℕ × Report × Sched
unfolding new_task
create core (some stack) (some d) s0 =
    let s1 = record s0 {
      task = update s0.task stack (new_task d (s0.task stack));
      owned = update s0.owned stack [];
    } in
    let s2 =
      if has_any d.flags primordial_task
      then adopt core stack (or_core_affinity d.flags) s1
      else create_svc core stack s1 in
    (some stack, unreported, s2)
create core _ _ s = (none, reported einval, s)

abbrev empty_slots : List ℕ
empty_slots = 0 ∷ 0 ∷ 0 ∷ 0 ∷ 0 ∷ 0 ∷ 0 ∷ 0 ∷ []

abbrev on_cores {ℓ} : {A : Type ℓ} → ℕ → A → (ℕ → A) → ℕ → A
on_cores n v f c = if ltb c n then v else f c

-- `scheduler_init`, in memory that is not null. The wake counters are left as they are.
unfoldable pub init : ℕ → Sched → Sched
init num_cores s = record s {
  queue = update s.queue ready_queue [];
  tasks = [];
  timers = [];
  timer_expires = uint32_max;
  slice_duration = pos int32_max;
  started = false;
  locked = pos 0;
  current = on_cores num_cores none s.current;
  ticks = on_cores num_cores 0 s.ticks;
  slice_expires = on_cores num_cores (pos int32_max) s.slice_expires;
  deferred_wake = on_cores num_cores empty_slots s.deferred_wake;
  has_initial_frame = on_cores num_cores false s.has_initial_frame;
}

-- The atomic counter of locks, which are negative.
unfoldable pub lock : Sched → ℤ × Sched
lock s = (s.locked, record s { locked = decrement s.locked })

unfoldable pub unlock : Sched → ℤ × Sched
unlock s = (s.locked, record s { locked = increment s.locked })

unfoldable pub lock_restore : ℤ → Sched → ℤ × Sched
lock_restore state s = (s.locked, record s { locked = state })

unfoldable pub is_locked : Sched → Bool
is_locked s = is_negative s.locked

unfoldable pub yield_now : ℕ → Sched → Sched
yield_now core s = if is_negative s.locked then s else yield_svc core s

-- A sleep ends well with the time-out.
abbrev pub woken_up : Code → Code × Report
woken_up (done n) = (done 0, unreported)
woken_up (failed etimedout) = (done 0, unreported)
woken_up (failed e) = (failed e, reported e)

-- A null task of a service is in no list.
abbrev pub address : Option ℕ → ℕ
address none = 0
address (some t) = t

unfoldable pub sleep : ℕ → ℕ → Sched → Call
unfolding yield_now
sleep core zero s = returned (done 0) unreported (yield_now core s)
sleep core (suc n) s = answer_later woken_up (suspend_svc core (address (s.current core)) (suc n) s)

abbrev pub suspended : Code → Code × Report
suspended (done n) = (done 0, unreported)
suspended (failed e) = (failed e, reported e)

abbrev pub is_other : ℕ → Sched → Option ℕ → Bool
is_other core s none = false
is_other core s (some t) = not (t == address (s.current core))

unfoldable pub suspend : ℕ → ℕ → Option ℕ → Sched → Call
suspend num_cores core task s =
    let t = address (or_current core s task) in
    if ltb 1 num_cores && is_other core s task
    then returned (failed einval) (reported einval) s
    else answer_later suspended (suspend_svc core t wait_forever s)

unfoldable pub resume : ℕ → ℕ → Sched → Call
resume core t s = answer (resume_svc core t s)

unfoldable pub terminate : ℕ → ℕ → Option ℕ → Sched → Call
terminate num_cores core task s =
    if ltb 1 num_cores && is_other core s task
    then returned (failed einval) (reported einval) s
    else answer (terminate_svc core (address (or_current core s task)) s)
