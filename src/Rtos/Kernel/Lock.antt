-- ===== src/Rtos/Kernel/Lock.antt =====
-- The lock of the kernel and the lock of the scheduler.
use pico_toolkit.Base.{
  ℕ, ◌≡◌, ◌≢◌, refl, ap, true, false, arith, ◌==◌, pos, negsuc, increment, decrement,
}
use pico_toolkit.Scheduler.Api as Api
use pico_toolkit.Rtos.{Context, context_is_valid}
use pico_toolkit.Rtos.Kernel.{Kernel, running, locked, previous, lock, unlock, restore_lock}

-- The kernel runs or is locked, and the scheduler is locked, once, exactly while the kernel is.
pub data Balanced : Kernel → Type 0 where
  runs :
      {k : Kernel} → k.state ≡ running → k.lock_count ≡ 0 → k.scheduler.locked ≡ pos 0 → Balanced k
  holds :
      {k : Kernel}
      → k.state ≡ locked
      → k.lock_count ≢ 0
      → k.scheduler.locked ≡ negsuc 0
      → Balanced k

-- A call in a thread.
abbrev pub thread : Context
thread = record { ipsr = 0; is_realtime = false }

-- In a thread, with the locks in balance, a lock of the kernel returns the lock before it, and
-- leaves both locks held, the scheduler's once.
pub lock-Balanced :
    {k : Kernel}
    → Balanced k
    → ((lock thread k).0 ≡ previous k.lock_count)
      × Balanced (lock thread k).1
      × ((lock thread k).1.state ≡ locked)
unfolding lock context_is_valid Api.lock decrement
lock-Balanced {k} (runs a b c) =
    let free : (k.lock_count == 0) ≡ true = ground arith in
    rw (a, free) (refl, holds refl (λ e. omega (arith, e)) (ap decrement c), refl)
lock-Balanced {k} (holds a b c) =
    let taken : (k.lock_count == 0) ≡ false = ground arith in
    rw (a, taken) (refl, holds refl (λ e. omega (arith, e)) c, refl)

-- In a thread, with the locks in balance, an unlock of the kernel returns the lock before it, and
-- leaves both locks free.
pub unlock-Balanced :
    {k : Kernel}
    → Balanced k
    → ((unlock thread k).0 ≡ previous k.lock_count)
      × Balanced (unlock thread k).1
      × ((unlock thread k).1.state ≡ running)
unfolding unlock context_is_valid Api.unlock increment
unlock-Balanced {k} (runs a b c) =
    let free : (k.lock_count == 0) ≡ true = ground arith in
    rw (a, free) (refl, runs refl refl c, refl)
unlock-Balanced {k} (holds a b c) =
    let taken : (k.lock_count == 0) ≡ false = ground arith in
    rw (a, taken) (refl, runs refl refl (ap increment c), refl)

-- With the locks in balance and the kernel locked, restoring a lock that is not 0 locks the
-- scheduler once more: it stays locked after the kernel's unlock.
pub unlock-restore_lock :
    {k : Kernel} (count : ℕ)
    → Balanced k
    → k.lock_count ≢ 0
    → count ≢ 0
    → let r : Kernel = (unlock thread (restore_lock count thread k).1).1 in
      (r.state ≡ running) × (r.scheduler.locked ≡ negsuc 0)
unfolding unlock restore_lock context_is_valid Api.lock Api.unlock increment decrement
unlock-restore_lock {k} count (runs a b c) held ne = absurd (held b)
unlock-restore_lock {k} count (holds a b c) held ne =
    let taken : (count == 0) ≡ false = ground arith in
    rw (a, taken) (refl, ap (λ z. increment (decrement z)) c)
