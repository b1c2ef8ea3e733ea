-- ===== src/Rtos/Mutex.antt =====
-- pico-cmsis-rtos2/cmsis-rtos2-mutex.c: acquire, release and robust release. A thread stands for its
-- task, whose address is even; the lowest bit of the value says that there are waiters. What the
-- scheduler and other threads do during a wait, and the wake of a waiter, are arguments.
pub mod Owner
mod Tests
use pico_toolkit.Base.{
  ℕ, zero, suc, ◌+◌, ◌-◌, ◌*◌, ◌/◌, Bool, true, false, not, ◌&&◌, Option, none, some, List, [], ◌∷◌,
  ◌==◌, ltb, if◌then◌else◌, clear_bit0,
}
use pico_toolkit.Scheduler.State.{Code, done, failed, Errno, etimedout, ecanceled}
use pico_toolkit.Rtos.{
  Status, ok, error, error_timeout, error_resource, error_parameter, Context, context_is_valid,
  is_resource_valid, if_ok,
}

-- `struct rtos_mutex`; `is_recursive` is the attribute bit.
pub record Mutex : Type 0 where
  pub marker : ℕ
  pub is_recursive : Bool
  pub value : ℕ
  pub count : ℕ

-- A wait on the mutex's futex: what happens to the mutex meanwhile, and the status of the wait.
pub record Wait : Type 0 where
  pub others : Mutex → Mutex
  pub result : Code

pub record Call : Type 0 where
  pub context : Context
  pub mutex_id : ℕ

abbrev mutex_marker : ℕ
mutex_marker = 0x42022024

unfoldable pub guard : Call → Mutex → Status
guard call m =
    if_ok (context_is_valid false 0 call.context) (λ e. e)
      (is_resource_valid call.mutex_id m.marker mutex_marker)

abbrev pub is_owner : ℕ → Mutex → Bool
is_owner task m = task == clear_bit0 m.value

abbrev pub first_count : Mutex → Mutex
first_count m = if m.is_recursive then record m { count = 1 } else m

abbrev pub broken_wait : Errno → Status
broken_wait etimedout = error_timeout
broken_wait ecanceled = error_timeout
broken_wait _ = error

abbrev pub after_wait : Code → Mutex → Option (Status × Mutex) → Option (Status × Mutex)
after_wait (failed e) m go = some (broken_wait e, m)
after_wait (done n) m go = go

-- The loop of `osMutexAcquire`: `none` while it waits.
unfoldable pub lock_loop : ℕ → ℕ → List Wait → Mutex → Option (Status × Mutex)
lock_loop task timeout [] m =
    if m.value == 0
    then some (ok, first_count (record m { value = task }))
    else if timeout == 0
    then some (error_resource, m)
    else none
lock_loop task timeout (w ∷ ws) m =
    let m1 = w.others m in
    let rest = lock_loop task timeout ws m1 in
    let go = if is_owner task m1 then some (ok, first_count m1) else rest in
    if m.value == 0
    then some (ok, first_count (record m { value = task }))
    else if timeout == 0
    then some (error_resource, m)
    else after_wait w.result m1 go

unfoldable pub acquire : ℕ → ℕ → Call → List Wait → Mutex → Option (Status × Mutex)
unfolding lock_loop
acquire task timeout call ws m =
    let again =
      if m.is_recursive
      then some (ok, record m { count = m.count + 1 })
      else some (error_parameter, m) in
    if_ok (guard call m) (λ e. some (e, m))
      (if is_owner task m then again else lock_loop task timeout ws m)

-- The wake of the first waiter, which hands the mutex over.
abbrev wake_with : (Mutex → Code × Mutex) → Mutex → Status × Mutex
wake_with wake m = let (code, m1) = wake m in (elim code [ done n ↦ ok | failed e ↦ error ], m1)

abbrev hand_over : (Mutex → Code × Mutex) → ℕ → Mutex → Status × Mutex
hand_over wake task m =
    let contended = wake_with wake m in
    if m.value == task then (ok, record m { value = 0 }) else contended

-- The owner of a free mutex is the null thread.
unfoldable pub release : (Mutex → Code × Mutex) → ℕ → Call → Mutex → Status × Mutex
release wake task call m0 =
    let m1 = if m0.is_recursive then record m0 { count = m0.count - 1 } else m0 in
    let nested = m0.is_recursive && ltb 0 m1.count in
    let rest = if nested then (ok, m1) else hand_over wake task m1 in
    if_ok (guard call m0) (λ e. (e, m0))
      (if not (m0.value == 0) && is_owner task m0 then rest else (error_resource, m0))

-- The mutex of a thread that ends, at whatever depth. The owner is a valid thread.
unfoldable pub robust_release : (Mutex → Code × Mutex) → ℕ → Call → Mutex → Status × Mutex
robust_release wake owner call m0 =
    let m1 = if m0.is_recursive then record m0 { count = 0 } else m0 in
    let rest = hand_over wake owner m1 in
    if_ok (guard call m0) (λ e. (e, m0))
      (if not (m0.value == 0) && is_owner owner m0 then rest else (error_resource, m0))
