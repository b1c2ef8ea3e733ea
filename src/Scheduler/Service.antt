-- ===== src/Scheduler/Service.antt =====
-- scheduler.c, the service handlers (`scheduler_*_svc`). Each takes the core it runs on, and returns
-- what its frame holds in r0 at the end, with the new state. The caller of a service is the
-- current task of that core, so `current` is not null in `create`, `suspend` and `wait`; without
-- one they are modelled to change nothing. Pointers to futexes are not null.
use pico_toolkit.Base.{
  ℕ, Bool, true, false, ◌&&◌, ◌||◌, Option, none, some, [], ◌∷◌, ◌++◌, ◌==◌, ltb, if◌then◌else◌,
  erase, update, has_any, has_all, clear_bit0, set_bit0,
}
use pico_toolkit.Scheduler.Queue.{uint32_max, highest_priority}
use pico_toolkit.Scheduler.State.{
  Sched, Futex, TaskState, terminated, blocked, suspended, ready, Code, done, failed, einval,
  ecanceled, ready_queue, wait_forever, create_suspended, contention_tracking, set_task, set_r0,
  set_state, set_state_core, priority_of, queue_remove, queue_push, reprioritize, timer_push,
  timer_remove, request_switch, task_alive, set_current, terminated_hook,
}

abbrev pub requests_if_more_urgent : ℕ → ℕ → Sched → Option ℕ → Sched
requests_if_more_urgent core t s none = s
requests_if_more_urgent core t s (some cur) =
    if s.started && ltb (priority_of s t) (priority_of s cur) then request_switch core s else s

unfoldable pub create_svc : ℕ → ℕ → Sched → Sched
create_svc core t s0 =
    let s1 = record s0 { tasks = s0.tasks ++ t ∷ [] } in
    if has_any (s0.task t).flags create_suspended
    then set_state t suspended s1
    else requests_if_more_urgent core t (queue_push ready_queue t (set_state t ready s1))
        (s0.current core)

unfoldable pub yield_svc : ℕ → Sched → Sched
yield_svc core s = request_switch core s

-- A timer only for a wait that is not for ever.
abbrev pub timer_if_needed : ℕ → ℕ → Sched → Sched
timer_if_needed t ticks s = if ltb ticks wait_forever then timer_push t ticks s else s

-- The end of `suspend` and of `wait`: the frame of the current task is saved, with its r0.
abbrev pub switch_away : ℕ → ℕ → Code → Sched → Sched
switch_away core cur r0 s = request_switch core (set_current core none (set_r0 cur r0 s))

-- Another task: it leaves its queue and its timer, and the current one competes again.
unfoldable pub suspend_other : ℕ → ℕ → Sched → Sched
suspend_other cur t s0 =
    let s1 = timer_remove t (queue_remove t s0) in
    let s2 = set_state_core t suspended uint32_max s1 in
    queue_push ready_queue cur (set_state cur ready s2)

unfoldable pub suspend_self : ℕ → Sched → Sched
suspend_self cur s = set_state_core cur suspended uint32_max s

unfoldable pub suspend_task : ℕ → ℕ → ℕ → ℕ → Sched → Sched
unfolding suspend_other suspend_self
suspend_task core cur t ticks s0 =
    let s1 = if t == cur then suspend_self cur s0 else suspend_other cur t s0 in
    switch_away core cur (done 0) (timer_if_needed t ticks s1)

abbrev suspend_from : ℕ → ℕ → ℕ → Sched → Option ℕ → Code × Sched
suspend_from core t ticks s none = (done 0, s)
suspend_from core t ticks s (some cur) = (done 0, suspend_task core cur t ticks s)

abbrev if_alive : Code → Sched → Code × Sched → Code × Sched
if_alive (done n) s r = r
if_alive (failed e) s r = (failed e, s)

unfoldable pub suspend_svc : ℕ → ℕ → ℕ → Sched → Code × Sched
unfolding suspend_task
suspend_svc core t ticks s =
    if_alive (task_alive t s) s (suspend_from core t ticks s (s.current core))

-- A blocked task also gets -ECANCELED as the result of its wait.
unfoldable pub ready_again : ℕ → Bool → Sched → Sched
ready_again t was_blocked s0 =
    let s1 = queue_remove t (timer_remove t s0) in
    let s2 = if was_blocked then set_r0 t (failed ecanceled) s1 else s1 in
    queue_push ready_queue t (set_state t ready s2)

-- Only blocked and suspended tasks are resumed.
abbrev pub resume_in : TaskState → ℕ → Sched → Code × Sched
unfolding ready_again
resume_in blocked t s = (done 0, ready_again t true s)
resume_in suspended t s = (done 0, ready_again t false s)
resume_in _ t s = (failed einval, s)

unfoldable pub resume_svc : ℕ → ℕ → Sched → Code × Sched
resume_svc core t s =
    let (code, s1) = resume_in (s.task t).state t s in
    if_alive (task_alive t s) s (code, request_switch core s1)

-- The word that a wait expects, and sets on a futex that tracks contention.
abbrev pub wait_value : Futex → ℕ → ℕ
wait_value f expected = if has_any f.flags contention_tracking then set_bit0 expected else expected

abbrev pub is_inheriting : Futex → Bool
is_inheriting f = has_all f.flags 0x06

abbrev pub link_owned : ℕ → ℕ → Sched → Option ℕ → Sched
link_owned owner f s (some _) = s
link_owned owner f s none = record s {
  owned = update s.owned owner (s.owned owner ++ f ∷ []);
  futex = update s.futex f (record (s.futex f) { owned_by = some owner });
}

-- The owner of a contended futex becomes as urgent as its first waiter.
unfoldable pub boost_owner : ℕ → ℕ → Sched → Sched
boost_owner f value s0 =
    let owner = clear_bit0 value in
    let s1 = link_owned owner f s0 (s0.futex f).owned_by in
    let highest = highest_priority (priority_of s1) (s1.queue f) in
    if ltb highest (priority_of s1 owner) then reprioritize owner highest s1 else s1

unfoldable pub block_on : ℕ → ℕ → ℕ → ℕ → Sched → Sched
unfolding boost_owner
block_on cur f value ticks s0 =
    let s1 = set_state_core cur blocked uint32_max (timer_if_needed cur ticks s0) in
    let s2 = queue_push f cur s1 in
    if is_inheriting (s0.futex f) then boost_owner f value s2 else s2

unfoldable pub compete_again : ℕ → Sched → Sched
compete_again cur s = queue_push ready_queue cur (set_state cur ready s)

-- The compare-exchange stores `value` if the word is as expected; the task blocks also if the
-- word is `value` already.
unfoldable pub wait_task : ℕ → ℕ → ℕ → ℕ → ℕ → Sched → Sched
unfolding block_on compete_again
wait_task core cur f expected ticks s0 =
    let value = wait_value (s0.futex f) expected in
    let address = (s0.futex f).value in
    let word = s0.word address in
    let s1 = if word == expected then record s0 { word = update s0.word address value } else s0 in
    let s2 =
      if (word == expected) || (word == value)
      then block_on cur f value ticks s1
      else compete_again cur s1 in
    switch_away core cur (done 0) s2

abbrev wait_from : ℕ → ℕ → ℕ → ℕ → Sched → Option ℕ → Code × Sched
wait_from core f expected ticks s none = (done 0, s)
wait_from core f expected ticks s (some cur) = (done 0, wait_task core cur f expected ticks s)

unfoldable pub wait_svc : ℕ → ℕ → ℕ → ℕ → Sched → Code × Sched
unfolding wait_task
wait_svc core f expected ticks s = wait_from core f expected ticks s (s.current core)

unfoldable pub terminate_task : ℕ → ℕ → Sched → Sched
terminate_task core t s0 =
    let s1 = timer_remove t (queue_remove t (set_state_core t terminated uint32_max s0)) in
    terminated_hook t (record s1 { tasks = erase t s1.tasks })

abbrev pub is_some_of : ℕ → Option ℕ → Bool
is_some_of t none = false
is_some_of t (some cur) = t == cur

unfoldable pub terminate_svc : ℕ → ℕ → Sched → Code × Sched
unfolding terminate_task
terminate_svc core t s =
    let s1 = terminate_task core t s in
    let s2 =
      if is_some_of t (s.current core)
      then request_switch core (set_current core none s1)
      else s1 in
    if_alive (task_alive t s) s (done 0, s2)

unfoldable pub priority_svc : ℕ → ℕ → ℕ → Sched → Code × Sched
priority_svc core t priority s =
    let s1 = set_task t (record (s.task t) { base_priority = priority }) s in
    if_alive (task_alive t s) s (done 0, request_switch core (reprioritize t priority s1))
