-- ===== src/Scheduler/Api/Futex.antt =====
-- scheduler.c, the functions on futexes, and those that read or set a task's fields.
use pico_toolkit.Base.{
  ℕ, ◌+◌, ◌%◌, ◌^◌, Bool, true, false, ◌||◌, Option, none, some, List, [], ◌∷◌, ◌==◌, ltb,
  if◌then◌else◌, update, has_any,
}
use pico_toolkit.Scheduler.State.{
  Sched, TaskState, done, failed, einval, enospc, futex_pi, owner_tracking, request_switch,
}
use pico_toolkit.Scheduler.Service.{wait_svc, priority_svc}
use pico_toolkit.Scheduler.Wake.{wake_svc}
use pico_toolkit.Scheduler.Api.{
  unreported, reported, negated, Call, returned, reply, answer, answer_later, address, or_current,
}

unfoldable pub futex_init : ℕ → ℕ → ℕ → Sched → Sched
futex_init f value flags s = record s {
  futex = update s.futex f (record { value = value; flags = flags; owned_by = none });
  queue = update s.queue f [];
}

unfoldable pub futex_wait : ℕ → ℕ → ℕ → ℕ → Sched → Call
futex_wait core f value ticks s = answer_later reply (wait_svc core f value ticks s)

abbrev pub behind : ℕ → Option (Bool × List ℕ) → Option (Bool × List ℕ)
behind w none = none
behind w (some (filled, ws)) = some (filled, w ∷ ws)

-- The deferred wake of an interrupt handler takes the first slot that is empty or holds the same
-- wake; `none` when all are taken by others. Whether a slot was filled comes with the slots.
unfoldable pub find_slot : ℕ → List ℕ → Option (Bool × List ℕ)
find_slot wakeup [] = none
find_slot wakeup (w ∷ ws) =
    let rest = behind w (find_slot wakeup ws) in
    if w == 0 then some (true, wakeup ∷ ws) else if w == wakeup then some (false, w ∷ ws) else rest

abbrev pub give_wake : ℕ → Sched → Option (Bool × List ℕ) → Call
give_wake core s none = returned (failed enospc) (reported enospc) s
give_wake core s (some (false, ws)) = returned (done 0) unreported s
give_wake core s0 (some (true, ws)) =
    let s1 = record s0 {
      deferred_wake = update s0.deferred_wake core ws;
      given_wake_counter =
          update s0.given_wake_counter core ((s0.given_wake_counter core + 1) % 2 ^ 32);
    } in
    returned (done 0) unreported (request_switch core s1)

-- The address of a futex is even: its lowest bit carries `all`.
abbrev pub wakeup_of : ℕ → Bool → ℕ
wakeup_of f all = if all then f + 1 else f

unfoldable pub futex_wake : Bool → ℕ → ℕ → Bool → Sched → Call
unfolding find_slot
futex_wake in_interrupt core f all s =
    let deferred =
      if has_any (s.futex f).flags futex_pi || has_any (s.futex f).flags owner_tracking
      then returned (failed einval) (reported einval) s
      else give_wake core s (find_slot (wakeup_of f all) (s.deferred_wake core)) in
    if in_interrupt then deferred else answer (wake_svc core f all s)

-- `SCHEDULER_MIN_TASK_PRIORITY`
abbrev pub min_task_priority : ℕ
min_task_priority = 63

-- The result of the service is passed on without `errno`; the range check negates it.
unfoldable pub set_priority : ℕ → Option ℕ → ℕ → Sched → Call
set_priority core task priority s =
    let (code, s1) = priority_svc core (address (or_current core s task)) priority s in
    if ltb min_task_priority priority
    then returned (failed einval) (negated einval) s
    else returned code unreported s1

unfoldable pub get_priority : ℕ → Option ℕ → Sched → ℕ
get_priority core task s = (s.task (address (or_current core s task))).current_priority

unfoldable pub get_flags : ℕ → Option ℕ → Sched → ℕ
get_flags core task s = (s.task (address (or_current core s task))).flags

unfoldable pub get_state : ℕ → Option ℕ → Sched → TaskState
get_state core task s = (s.task (address (or_current core s task))).state
