-- ===== src/Rtos.antt =====
-- pico-cmsis-rtos2: what the functions of the RTOS layer share, the status codes and the guards that
-- each function starts with (include/cmsis/cmsis-rtos2.h).
pub mod Semaphore
pub mod Deque
pub mod EventFlags
pub mod Kernel
pub mod Pool
pub mod Mutex
pub mod Timer
pub mod MessageQueue
pub mod Thread
pub mod Objects
use pico_toolkit.Base.{ℕ, ◌-◌, Bool, true, false, not, ◌&&◌, ◌||◌, ◌==◌, if◌then◌else◌}

-- `osStatus_t`
pub data Status : Type 0 where
  ok error error_timeout error_resource error_parameter error_no_memory error_isr : Status

-- Where a function is called: the exception number, 0 in a thread, and whether the interrupt has the
-- priority that the scheduler never masks.
pub record Context : Type 0 where
  pub ipsr : ℕ
  pub is_realtime : Bool

-- `osKernelContextIsValid`
unfoldable pub context_is_valid : Bool → ℕ → Context → Status
context_is_valid allowed timeout c =
    let interrupt =
      if not (timeout == 0) then error_parameter else if c.is_realtime then error_isr else ok in
    if c.ipsr == 0 then ok else if allowed then interrupt else error_isr

-- `osIsResourceValid`, on the word at a pointer that is not null; a static object may hold the
-- complement of the marker.
unfoldable pub is_resource_valid : ℕ → ℕ → ℕ → Status
is_resource_valid resource word marker =
    if not (resource == 0) && ((word == marker) || (word == 0xffffffff - marker))
    then ok
    else error_parameter

-- A guard: the function goes on only with `osOK`.
abbrev pub if_ok {ℓ} : {A : Type ℓ} → Status → (Status → A) → A → A
if_ok ok refuse go = go
if_ok error refuse go = refuse error
if_ok error_timeout refuse go = refuse error_timeout
if_ok error_resource refuse go = refuse error_resource
if_ok error_parameter refuse go = refuse error_parameter
if_ok error_no_memory refuse go = refuse error_no_memory
if_ok error_isr refuse go = refuse error_isr
