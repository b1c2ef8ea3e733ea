-- ===== src/Rtos/Kernel.antt =====
-- pico-cmsis-rtos2/cmsis-rtos2-kernel.c: the states of the kernel, and its lock on the scheduler.
pub mod Lock
mod Tests
use pico_toolkit.Base.{
  ℕ, Bool, true, false, not, ◌&&◌, ◌||◌, Option, none, some, ◌==◌, if◌then◌else◌,
}
use pico_toolkit.Scheduler.State.{Sched}
use pico_toolkit.Scheduler.Api as Api
use pico_toolkit.Rtos.{
  Status, ok, error, error_timeout, error_resource, error_parameter, error_no_memory, error_isr,
  Context, context_is_valid,
}

-- `osKernelState_t`
pub data KernelState : Type 0 where
  inactive ready running locked suspended : KernelState

-- `struct rtos_kernel`; `is_initialized` is whether `rtos2_kernel` points to it.
pub record Kernel : Type 0 where
  pub is_initialized : Bool
  pub state : KernelState
  pub lock_count : ℕ
  pub scheduler : Sched

-- A previous lock, or an error.
pub data LockReply : Type 0 where
  previous : ℕ → LockReply
  refused : Status → LockReply

abbrev is_up : KernelState → Bool
is_up running = true
is_up locked = true
is_up _ = false

abbrev is_ready : KernelState → Bool
is_ready ready = true
is_ready _ = false

abbrev is_suspended : KernelState → Bool
is_suspended suspended = true
is_suspended _ = false

-- The guard that the functions for threads start with.
abbrev pub in_thread {ℓ} : {A : Type ℓ} → Context → (Status → A) → A → A
in_thread c refuse go = elim (context_is_valid false 0 c) [
  | ok ↦ go
  | error ↦ refuse error
  | error_timeout ↦ refuse error_timeout
  | error_resource ↦ refuse error_resource
  | error_parameter ↦ refuse error_parameter
  | error_no_memory ↦ refuse error_no_memory
  | error_isr ↦ refuse error_isr
]

-- `osKernelInitialize`, with the number of cores that `scheduler_init` goes over. The registry of
-- resources is left out.
unfoldable pub initialize : ℕ → Context → Kernel → Status × Kernel
initialize num_cores c k0 =
    let k1 = record k0 {
      is_initialized = true;
      state = ready;
      scheduler = Api.init num_cores k0.scheduler;
    } in
    in_thread c (λ e. (e, k0)) (if k0.is_initialized then (error, k0) else (ok, k1))

unfoldable pub get_state : Kernel → KernelState
get_state k = if k.is_initialized then k.state else inactive

-- `osKernelStart` up to its call of `scheduler_run`, whose status is the result once it is back.
unfoldable pub start : Context → Kernel → Option Status × Kernel
start c k =
    in_thread c (λ e. (some e, k))
      (if k.is_initialized && is_ready k.state
        then (none, record k { state = running })
        else (some error, k))

unfoldable pub lock : Context → Kernel → LockReply × Kernel
lock c k =
    let free = k.lock_count == 0 in
    let s = if free then (Api.lock k.scheduler).1 else k.scheduler in
    in_thread c (λ e. (refused e, k))
      (if is_up k.state
        then (previous k.lock_count, record k { lock_count = 1; state = locked; scheduler = s })
        else (refused error, k))

unfoldable pub unlock : Context → Kernel → LockReply × Kernel
unlock c k =
    let free = k.lock_count == 0 in
    let s = if free then k.scheduler else (Api.unlock k.scheduler).1 in
    in_thread c (λ e. (refused e, k))
      (if is_up k.state
        then (previous k.lock_count, record k { lock_count = 0; state = running; scheduler = s })
        else (refused error, k))

-- It calls the scheduler whatever the lock was, and returns the new one.
unfoldable pub restore_lock : ℕ → Context → Kernel → LockReply × Kernel
restore_lock count c k =
    let frees = count == 0 in
    let s = if frees then (Api.unlock k.scheduler).1 else (Api.lock k.scheduler).1 in
    in_thread c (λ e. (refused e, k))
      (if is_up k.state
        then (
          previous count,
          record k { lock_count = count; state = if frees then running else locked; scheduler = s },
        )
        else (refused error, k))

-- `osKernelSuspend` and `osKernelResume`, in a thread.
unfoldable pub suspend : Kernel → Bool × Kernel
suspend k = (not (is_suspended k.state), record k { state = suspended })

unfoldable pub resume : Kernel → Kernel
resume k = record k { state = running }
