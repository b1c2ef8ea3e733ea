-- ===== src/Threads.antt =====
-- pico-threads/threads.c: the threads of the C library on top of the scheduler.
pub mod Mutex
pub mod Life
pub mod Condition
pub mod Specific
mod Tests
use pico_toolkit.Base.{ℕ}

-- `thrd_success`, `thrd_error`, `thrd_busy` and `thrd_timedout`
pub data Answer : Type 0 where
  success error busy timedout : Answer

-- `SCHEDULER_WAIT_FOREVER`
abbrev pub forever : ℕ
forever = 0xffffffff
