-- ===== src/Scheduler/Switch.antt =====
-- scheduler.c, the context switch (`scheduler_switch`, called by PendSV) and the tick.
use pico_toolkit.Base.{
  ℕ, zero, suc, ◌+◌, ◌*◌, ◌/◌, ◌%◌, ◌^◌, Bool, true, false, not, ◌&&◌, ◌||◌, Option, none, some,
  List, [], ◌∷◌, set, ◌==◌, ltb, leb, if◌then◌else◌, erase, update, length, has_any, get_elem?, ℤ,
  pos, negsuc, decrement, is_negative,
}
use pico_toolkit.Scheduler.Queue.{uint32_max, first_eligible}
use pico_toolkit.Scheduler.State.{
  Sched, TaskState, terminated, ready, running, failed, etimedout, efault, ready_queue,
  ignore_viable, set_r0, set_state, set_state_core, priority_of, queue_remove, queue_push,
  queue_pop, timer_pop, get_ticks, request_switch, check_stack, set_current, terminated_hook,
  can_run,
}
use pico_toolkit.Scheduler.Wake.{wake_futex}

-- `INT32_MAX`, which turns time slices off, and `SCHEDULER_MAX_DEFERED_WAKE`
abbrev pub int32_max : ℕ
int32_max = 0x7fffffff

abbrev pub max_deferred_wake : ℕ
max_deferred_wake = 8

abbrev is_slicing : ℤ → Bool
is_slicing (pos n) = not (n == int32_max)
is_slicing (negsuc n) = true

abbrev is_zero : ℤ → Bool
is_zero (pos n) = n == 0
is_zero (negsuc n) = false

-- `scheduler_tick`, up to its hook.
unfoldable pub tick : ℕ → Sched → Sched
tick core s0 =
    let s1 = record s0 { ticks = update s0.ticks core ((s0.ticks core + 1) % 2 ^ 32) } in
    let s2 = if leb s1.timer_expires (get_ticks s1) then request_switch core s1 else s1 in
    let left = decrement (s2.slice_expires core) in
    let s3 =
      if is_slicing (s2.slice_expires core)
      then record s2 { slice_expires = update s2.slice_expires core left }
      else s2 in
    let s4 =
      if is_slicing (s2.slice_expires core) && is_zero left then request_switch core s3 else s3 in
    if s0.started then s4 else s0

-- A slot holds 0 or the address of a futex, with `all` in the lowest bit.
abbrev pub take_wakeup : ℕ → ℕ → Option ℕ → Sched → Sched
take_wakeup core i none s = s
take_wakeup core i (some w) s0 =
    let s1 = record s0 {
      deferred_wake = update s0.deferred_wake core (set (s0.deferred_wake core) i 0);
    } in
    let s2 = (wake_futex (w / 2 * 2) (w % 2 == 1) s1).1 in
    let s3 = record s2 {
      taken_wake_counter =
          update s2.taken_wake_counter core ((s2.taken_wake_counter core + 1) % 2 ^ 32);
    } in
    if w == 0 then s0 else s3

-- The loop over the slots, from slot `i` with `left` slots to go.
unfoldable pub deferred_wakes : ℕ → ℕ → ℕ → Sched → Sched
deferred_wakes zero core i s = s
deferred_wakes (suc left) core i s =
    let rest =
      deferred_wakes left core (i + 1)
        (take_wakeup core i (get_elem? (s.deferred_wake core) i) s) in
    if s.taken_wake_counter core == s.given_wake_counter core then s else rest

-- An expired wait or sleep ends with -ETIMEDOUT.
unfoldable pub ready_expired : ℕ → Sched → Sched
ready_expired t s0 =
    let s1 = queue_remove t s0 in
    queue_push ready_queue t (set_r0 t (failed etimedout) (set_state t ready s1))

-- The loop over the expired timers, on fuel: each round takes one timer off the list.
unfoldable pub expire_timers : ℕ → Sched → Sched
unfolding ready_expired
expire_timers zero s = s
expire_timers (suc fuel) s =
    let (expired, s1) = timer_pop s in
    elim expired [ none ↦ s1 | some t ↦ expire_timers fuel (ready_expired t s1) ]

-- A task whose stack is damaged leaves the scheduler. The timer list loses the task without
-- another look at `timer_expires`.
unfoldable pub evict : ℕ → Sched → Sched
evict t s0 =
    let s1 = queue_remove t (set_r0 t (failed efault) (set_state t terminated s0)) in
    terminated_hook t (record s1 { timers = erase t s1.timers; tasks = erase t s1.tasks })

abbrev is_terminated : TaskState → Bool
is_terminated terminated = true
is_terminated _ = false

-- `scheduler_is_viable`: some task is left that keeps the scheduler alive.
unfoldable pub is_viable : List ℕ → Sched → Bool
is_viable [] s = false
is_viable (t ∷ ts) s =
    (not (is_terminated (s.task t).state) && not (has_any (s.task t).flags ignore_viable))
    || is_viable ts s

-- Another core is kicked if the task that it would take next is more urgent than its own.
abbrev pub kick : Sched → ℕ → Option ℕ → Option ℕ → Sched
kick s core (some mine) (some next) =
    if ltb (priority_of s next) (priority_of s mine) then request_switch core s else s
kick s core _ _ = s

-- The cores below `n`, in ascending order.
unfoldable pub kick_others : ℕ → ℕ → Sched → Sched
kick_others zero core s = s
kick_others (suc n) core s =
    let s1 = kick_others n core s in
    if n == core
    then s1
    else kick s1 n (s1.current n) (first_eligible (can_run s1 n) (s1.queue ready_queue))

unfoldable pub dispatch : ℕ → ℕ → Option ℕ → ℕ → Sched → Sched
unfolding kick_others
dispatch num_cores core last t s0 =
    let s1 = set_state_core t running core s0 in
    let same : Bool = elim last [ none ↦ false | some p ↦ p == t ] in
    let s2 =
      if not same || is_negative (s1.slice_expires core)
      then record s1 { slice_expires = update s1.slice_expires core s1.slice_duration }
      else s1 in
    kick_others num_cores core (set_current core (some t) s2)

-- How one round of the search for a task ends: with a task, with the return to `scheduler_run`, or in the idle hook.
pub data Round : Type 0 where
  dispatched : ℕ → Sched → Round
  shut_down : Sched → Round
  idles : Sched → Round

abbrev pub or_idle : ℕ → Sched → Round
or_idle core s =
    if not (is_viable s.tasks s) && s.has_initial_frame core then shut_down s else idles s

unfoldable pub choose : ℕ → ℕ → Option ℕ → Option ℕ × Sched → Round
unfolding dispatch evict is_viable
choose num_cores core last (none, s) = or_idle core s
choose num_cores core last (some t, s) =
    if check_stack (s.task t)
    then dispatched t (dispatch num_cores core last t s)
    else or_idle core (evict t s)

unfoldable pub round : ℕ → ℕ → Option ℕ → Sched → Round
unfolding deferred_wakes expire_timers choose
round num_cores core last s0 =
    let s1 = deferred_wakes max_deferred_wake core 0 s0 in
    let s2 = expire_timers (length s1.timers) s1 in
    choose num_cores core last (queue_pop ready_queue core s2)

-- The rounds, each but the first after the spin lock has been released in the idle hook: `others`
-- are the changes that other cores and interrupts make meanwhile. `idles` is the result when
-- `others` runs out.
unfoldable pub rounds : ℕ → ℕ → Option ℕ → List (Sched → Sched) → Sched → Round
unfolding round
rounds num_cores core last [] s = round num_cores core last s
rounds num_cores core last (other ∷ others) s = elim (round num_cores core last s) [
  | dispatched t s1 ↦ dispatched t s1
  | shut_down s1 ↦ shut_down s1
  | idles s1 ↦ rounds num_cores core last others (other s1)
]

-- The running task competes again.
unfoldable pub preempt : ℕ → Sched → Sched
preempt t s = queue_push ready_queue t (set_state_core t ready uint32_max s)

-- A locked scheduler keeps the task that it has.
unfoldable pub switch_from : ℕ → ℕ → List (Sched → Sched) → Sched → Option ℕ → Round
unfolding rounds preempt
switch_from num_cores core others s none =
    rounds num_cores core none others (set_current core none s)
switch_from num_cores core others s (some t) =
    let next = rounds num_cores core (some t) others (preempt t (set_current core none s)) in
    if is_negative s.locked then dispatched t s else next

unfoldable pub switch : ℕ → ℕ → List (Sched → Sched) → Sched → Round
unfolding switch_from
switch num_cores core others s = switch_from num_cores core others s (s.current core)
