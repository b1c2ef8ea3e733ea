-- ===== src/Rtos/Thread.antt =====
-- pico-cmsis-rtos2/cmsis-rtos2-thread.c: the end of a thread, its join or its reaping, and the calls
-- that go to the scheduler or to the flags of a thread.
pub mod End
pub mod Cleanup
pub mod Reaper
pub mod Joins
mod Tests
use pico_toolkit.Base.{
  ℕ, zero, suc, ◌+◌, Bool, true, false, not, ◌&&◌, ◌||◌, Option, none, some, List, [], ◌∷◌, ◌++◌,
  ◌==◌, if◌then◌else◌, update, mem, erase, has_any,
}
use pico_toolkit.Scheduler.State.{
  Code, done, failed, Errno, esrch, TaskState, terminated, running, ready, blocked, suspended,
}
use pico_toolkit.Rtos.{
  Status, ok, error, error_resource, error_parameter, error_isr, Context, context_is_valid,
  is_resource_valid, if_ok,
}
use pico_toolkit.Rtos.EventFlags.{
  EventFlags, Answer, were, flags_error, flags_error_parameter, flags_error_resource, refused,
  exits, Options,
}
use pico_toolkit.Rtos.EventFlags as Flags

-- `struct rtos_thread`, with the bits `osThreadJoinable`, `osReapThread` and `osDynamicAlloc` of
-- its attributes.
pub record Thread : Type 0 where
  pub marker : ℕ
  pub is_joinable : Bool
  pub is_reaped : Bool
  pub is_dynamic : Bool
  pub joiner : EventFlags
  pub flags : EventFlags

-- The threads, those that the kernel has in its list of resources, and the blocks released so far.
pub record Threads : Type 0 where
  pub thread : ℕ → Thread
  pub registered : List ℕ
  pub released : List ℕ

abbrev pub thread_marker : ℕ
thread_marker = 0x42011024

-- `RTOS_THREAD_JOINED`
abbrev pub joined : ℕ
joined = 0x40000000

-- `RTOS_REAPER_CLEAN`
abbrev pub clean_up : ℕ
clean_up = 2

abbrev pub valid : ℕ → Threads → Status
valid t s = is_resource_valid t (s.thread t).marker thread_marker

-- `osThreadState_t`
pub data ThreadState : Type 0 where
  has_ended is_running is_ready is_blocked state_error : ThreadState

abbrev pub state_of : TaskState → ThreadState
state_of terminated = has_ended
state_of running = is_running
state_of ready = is_ready
state_of blocked = is_blocked
state_of suspended = is_blocked

-- `osThreadGetState`, for the state that the scheduler gives of the task.
unfoldable pub get_state : Context → TaskState → ℕ → Threads → ThreadState
get_state c task t s =
    let seen = if (s.thread t).is_reaped then state_error else state_of task in
    if_ok (context_is_valid false 0 c) (λ e. state_error)
      (if_ok (valid t s) (λ e. state_error) seen)

-- The calls of the scheduler answer 0 or an error.
abbrev pub status_of : Code → Status
status_of (done n) = ok
status_of (failed e) = error

-- `osThreadSuspend`: `is_self` with the kernel locked is refused; `code` is the answer of the scheduler.
unfoldable pub suspend : Context → TaskState → Bool → Bool → Code → ℕ → Threads → Status
unfolding get_state
suspend c task is_self is_locked code t s =
    let forwarded = if is_self && is_locked then error else status_of code in
    if_ok (context_is_valid false 0 c) (λ e. e)
      (if_ok (valid t s) (λ e. e) (by_state (get_state c task t s) forwarded))
  where
    by_state : ThreadState → Status → Status
    by_state is_ready go = go
    by_state is_running go = go
    by_state is_blocked go = go
    by_state _ go = error_resource

unfoldable pub resume : Context → TaskState → Code → ℕ → Threads → Status
unfolding get_state
resume c task code t s =
    if_ok (context_is_valid false 0 c) (λ e. e)
      (if_ok (valid t s) (λ e. e) (by_state (get_state c task t s)))
  where
    by_state : ThreadState → Status
    by_state is_blocked = status_of code
    by_state _ = error_resource

-- `osThreadTerminate`: the task is gone, or the scheduler refuses, with the state of the task then.
unfoldable pub terminate : Context → Code → TaskState → ℕ → Threads → Status
unfolding get_state
terminate c code task t s =
    if_ok (context_is_valid false 0 c) (λ e. e) (if_ok (valid t s) (λ e. e) (by_code code))
  where
    by_state : ThreadState → Status
    by_state has_ended = ok
    by_state state_error = ok
    by_state _ = error_resource

    by_code : Code → Status
    by_code (done n) = ok
    by_code (failed esrch) = by_state (get_state c task t s)
    by_code (failed e) = error

-- The result of a function on the flags of a thread.
abbrev pub with_flags : ℕ → Answer × EventFlags → Threads → Answer × Threads
with_flags t r s =
    (r.0, record s { thread = update s.thread t (record (s.thread t) { flags = r.1 }) })

abbrev pub with_joiner : ℕ → Answer × EventFlags → Threads → Answer × Threads
with_joiner t r s =
    (r.0, record s { thread = update s.thread t (record (s.thread t) { joiner = r.1 }) })

-- `osThreadFlagsSet`; `wake` is the answer of the wake.
unfoldable pub flags_set : Code → ℕ → ℕ → Threads → Answer × Threads
unfolding Flags.set
flags_set wake t flags s =
    let forwarded = with_flags t (Flags.set wake t flags (s.thread t).flags) s in
    if has_any flags 0x80000000
    then (refused error_parameter, s)
    else if_ok (valid t s) (λ e. (refused e, s)) forwarded

-- `osThreadFlagsClear` by the thread `t`.
unfoldable pub flags_clear : Context → ℕ → ℕ → Threads → Answer × Threads
unfolding Flags.clear
flags_clear c t flags s =
    let forwarded = with_flags t (Flags.clear t flags (s.thread t).flags) s in
    if_ok (context_is_valid false 0 c) (λ e. (refused e, s))
      (if_ok (valid t s) (λ e. (flags_error, s)) forwarded)

-- The mark of a thread that nobody joins, before the reaper is called.
abbrev pub mark_reaped : ℕ → Threads → Threads
mark_reaped t s = record s { thread = update s.thread t (record (s.thread t) { is_reaped = true }) }

-- What `osThreadDetach` and the exit handler do to the reaper.
abbrev pub kick_reaper : Code → ℕ → Threads → Answer × Threads
kick_reaper wake reaper s = flags_set wake reaper clean_up s

-- `osThreadDetach`, for the state that the scheduler gives of the task.
unfoldable pub detach : Context → TaskState → Code → ℕ → ℕ → Threads → Status × Threads
unfolding get_state flags_set
detach c task wake reaper t s =
    let s1 = record s {
      thread = update s.thread t (record (s.thread t) { is_joinable = false });
    } in
    let go =
      if (s.thread t).is_joinable
      then by_state (get_state c task t s1) s1
      else (error_resource, s) in
    if_ok (context_is_valid false 0 c) (λ e. (e, s)) (if_ok (valid t s) (λ e. (e, s)) go)
  where
    by_answer : Answer × Threads → Status × Threads
    by_answer (were n, s2) = (ok, s2)
    by_answer (refused e, s2) = (e, s2)
    by_answer (flags_error_parameter, s2) = (error_parameter, s2)
    by_answer (flags_error_resource, s2) = (error_resource, s2)
    by_answer (_, s2) = (error, s2)

    by_state : ThreadState → Threads → Status × Threads
    by_state has_ended s1 = by_answer (kick_reaper wake reaper (mark_reaped t s1))
    by_state _ s1 = (ok, s1)

-- `osSchedulerTaskExitHandler`: what it sets, whose failure aborts.
unfoldable pub exit_handler : Code → ℕ → ℕ → Threads → Answer × Threads
unfolding Flags.set flags_set
exit_handler wake reaper t s =
    let told = with_joiner t (Flags.set wake t joined (s.thread t).joiner) s in
    if (s.thread t).is_joinable then told else kick_reaper wake reaper (mark_reaped t s)
