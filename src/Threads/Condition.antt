-- ===== src/Threads/Condition.antt =====
-- pico-threads/threads.c: condition variables, step by step, and the deadlines of the timed waits. The
-- futex of a condition variable holds its sequence number.
pub mod Wakeups
use pico_toolkit.Base.{
  ℕ, zero, suc, ◌+◌, ◌-◌, ◌*◌, ◌/◌, ◌%◌, ◌^◌, Bool, true, false, ◌||◌, Option, none, some, List, [],
  ◌∷◌, ◌==◌, leb, ltb, if◌then◌else◌,
}
use pico_toolkit.Scheduler.State.{Code, done, failed, Errno, etimedout}
use pico_toolkit.Scheduler.Queue.{enqueue}
use pico_toolkit.Threads.{Answer, success, error, timedout}

-- `struct cnd`, with the waiters of its futex; the null mutex is 0.
pub record Condition : Type 0 where
  pub mutex : ℕ
  pub sequence : ℕ
  pub waiters : List ℕ

abbrev pub new_condition : Condition
new_condition = record { mutex = 0; sequence = 0; waiters = [] }

-- `_cnd_wait` up to the unlock: the number that it reads, or no number if the condition variable is
-- used with another mutex.
unfoldable pub associate : ℕ → Condition → Option ℕ × Condition
associate mtx c =
    if c.mutex == mtx
    then (some c.sequence, c)
    else if c.mutex == 0
    then (some c.sequence, record c { mutex = mtx })
    else (none, c)

-- The wait service, after the unlock: whether the thread blocks.
unfoldable pub enter_wait : (ℕ → ℕ) → ℕ → ℕ → Condition → Bool × Condition
unfolding enqueue
enter_wait priority t sequence c =
    if c.sequence == sequence
    then (true, record c { waiters = enqueue priority t c.waiters })
    else (false, c)

-- After the wait, with the mutex locked again.
abbrev pub answer_of : Code → Answer
answer_of (done n) = success
answer_of (failed etimedout) = timedout
answer_of (failed _) = error

-- `_cnd_wait`, with what others do before the wait service is entered, and the status of a wait that
-- blocks. The results of the unlock and of the lock are not looked at.
unfoldable pub wait :
    (ℕ → ℕ) → ℕ → ℕ → (Condition → Condition) → Code → Condition → Answer × Condition
unfolding associate enter_wait
wait priority t mtx others status c =
    let (read, c1) = associate mtx c in
    elim read [
      | none ↦ (error, c1)
      | some sequence ↦
          let (blocks, c2) = enter_wait priority t sequence (others c1) in
          if blocks then (answer_of status, c2) else (success, c2)
    ]

-- `_cnd_wakeup` in its two accesses: the count of the wake-up, and the wake of the first waiter or of
-- all.
unfoldable pub count_wakeup : Condition → Condition
count_wakeup c = record c { sequence = (c.sequence + 1) % 2 ^ 32 }

abbrev first : List ℕ → List ℕ × List ℕ
first [] = ([], [])
first (w ∷ ws) = (w ∷ [], ws)

unfoldable pub wake : Bool → Condition → List ℕ × Condition
wake all c =
    let (woken, left) = if all then (c.waiters, []) else first c.waiters in
    (woken, record c { waiters = left })

-- The threads that are woken, and the condition variable.
unfoldable pub wakeup : Bool → Condition → List ℕ × Condition
unfolding count_wakeup wake
wakeup all c = wake all (count_wakeup c)

-- What others do to a condition variable, one access at a time: the two of a signal or broadcast, or the
-- wait of a thread.
pub data Move : Type 0 where
  counts : Move
  wakes : Bool → Move
  waits : ℕ → ℕ → Move

unfoldable pub moves : (ℕ → ℕ) → List Move → Condition → Condition
unfolding count_wakeup wake enter_wait
moves priority [] c = c
moves priority (counts ∷ ms) c = moves priority ms (count_wakeup c)
moves priority (wakes all ∷ ms) c = moves priority ms (wake all c).1
moves priority (waits t sequence ∷ ms) c = moves priority ms (enter_wait priority t sequence c).1

-- What a timed call comes to: an answer at once, or a wait of some milliseconds.
pub data Timed : Type 0 where
  answers : Answer → Timed
  tries_for : ℕ → Timed

-- The deadline in milliseconds, as an `unsigned long long`.
abbrev pub ticks_of : ℕ → ℕ → ℕ
ticks_of sec nsec = (sec * 1000 + nsec / 1000000) % 2 ^ 64

-- `cnd_timedwait`: `tm_ticks - ticks` is taken on 64 bits.
unfoldable pub timedwait : ℕ → ℕ → Timed
timedwait ticks tm_ticks =
    let left = (tm_ticks + 2 ^ 64 - ticks) % 2 ^ 64 in
    if ltb ticks tm_ticks || leb 0xffffffff left then answers timedout else tries_for left

-- `mtx_timedlock`, up to its call of `_mtx_lock`.
unfoldable pub timedlock : Bool → ℕ → ℕ → Timed
unfolding timedwait
timedlock is_timed ticks tm_ticks = if is_timed then timedwait ticks tm_ticks else answers error
