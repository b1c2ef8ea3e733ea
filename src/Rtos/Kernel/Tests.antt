-- ===== src/Rtos/Kernel/Tests.antt =====
-- The theorems on the kernel's lock at work.
use pico_toolkit.Base.{◌+◌, ◌≡◌, refl, true, false, pos, negsuc, [], arith, none}
use pico_toolkit.Scheduler.State.{Sched, Task, terminated, done}
use pico_toolkit.Rtos.Kernel.{Kernel, running, locked, unlock, restore_lock}
use pico_toolkit.Rtos.Kernel.Lock.{Balanced, holds, thread, unlock-restore_lock}

abbrev no_task : Task
no_task = record {
  state = terminated;
  core = 0;
  affinity = 0;
  base_priority = 0;
  current_priority = 0;
  timer_expires = 0;
  current_queue = none;
  flags = 0;
  stack_marker0 = 0;
  stack_marker1 = 0;
  r0 = done 0;
}

abbrev empty : Sched
empty = record {
  task = λ t. no_task;
  futex = λ f. record { value = f + 1; flags = 0; owned_by = none };
  word = λ a. 0;
  queue = λ q. [];
  owned = λ t. [];
  tasks = [];
  timers = [];
  timer_expires = 0xffffffff;
  slice_duration = pos 0;
  started = true;
  locked = pos 0;
  current = λ c. none;
  ticks = λ c. 0;
  slice_expires = λ c. pos 0;
  deferred_wake = λ c. [];
  taken_wake_counter = λ c. 0;
  given_wake_counter = λ c. 0;
  has_initial_frame = λ c. false;
  requests = [];
  exited = [];
}

abbrev up : Kernel
up = record { is_initialized = true; state = running; lock_count = 0; scheduler = empty }

abbrev held : Kernel
held = record {
  is_initialized = true;
  state = locked;
  lock_count = 1;
  scheduler = record empty { locked = negsuc 0 };
}

held-Balanced : Balanced held
held-Balanced = holds refl (λ e. omega (arith, e)) refl

unlock-restore_lock_example :
    ((unlock thread (restore_lock 1 thread held).1).1.state ≡ running)
    × ((unlock thread (restore_lock 1 thread held).1).1.scheduler.locked ≡ negsuc 0)
unlock-restore_lock_example =
    unlock-restore_lock 1 held-Balanced (λ e. omega (arith, e)) (λ e. omega (arith, e))
