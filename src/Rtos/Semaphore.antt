-- ===== src/Rtos/Semaphore.antt =====
-- pico-cmsis-rtos2/cmsis-rtos2-semaphore.c: acquire and release by any number of threads, one
-- atomic access at a time, in any order. The guards on context and marker have passed.
pub mod Tokens
mod Tests
use pico_toolkit.Base.{
  ℕ, zero, suc, ◌+◌, ◌-◌, ◌%◌, ◌^◌, Bool, true, false, not, Option, none, some, List, [], ◌∷◌, ◌==◌,
  leb, if◌then◌else◌, update, erase,
}
use pico_toolkit.Scheduler.Queue.{enqueue}
use pico_toolkit.Rtos.{Status, ok, error_timeout, error_resource}

-- Where a thread stands. `trying` and `retrying` are before the compare-exchange that expects 1 or the given value, with the
-- time-out; `entering` before the futex is looked at; `adding` is past the check of a release.
pub data Stand : Type 0 where
  outside : Stand
  trying entering asleep : ℕ → Stand
  retrying : ℕ → ℕ → Stand
  checking adding waking : Stand
  finished : Status → Stand

-- `struct rtos_semaphore` with its futex's waiters, which are in the order of the threads' priorities; `taken` and `given` count the tokens since the start.
pub record Semaphore : Type 0 where
  pub max_count : ℕ
  pub value : ℕ
  pub priority : ℕ → ℕ
  pub waiters : List ℕ
  pub stand : ℕ → Stand
  pub taken : ℕ
  pub given : ℕ

abbrev pub stands : ℕ → Stand → Semaphore → Semaphore
stands t p s = record s { stand = update s.stand t p }

-- The compare-exchange of `osSemaphoreAcquire`: the first try expects 1.
unfoldable pub try_take : ℕ → ℕ → ℕ → Semaphore → Semaphore
try_take t expected timeout s =
    if s.value == expected
    then stands t (finished ok) (record s { value = expected - 1; taken = s.taken + 1 })
    else if not (s.value == 0)
    then stands t (retrying s.value timeout) s
    else if timeout == 0
    then stands t (finished error_resource) s
    else stands t (entering timeout) s

-- `scheduler_futex_wait` blocks if the value is still 0, and else returns at once.
unfoldable pub enter_wait : ℕ → ℕ → Semaphore → Semaphore
enter_wait t timeout s =
    if s.value == 0
    then stands t (asleep timeout) (record s { waiters = enqueue s.priority t s.waiters })
    else stands t (trying timeout) s

-- The check of `osSemaphoreRelease`, and the addition, which is another access.
unfoldable pub check_max : ℕ → Semaphore → Semaphore
check_max t s =
    if leb s.max_count s.value then stands t (finished error_resource) s else stands t adding s

unfoldable pub add_token : ℕ → Semaphore → Semaphore
add_token t s =
    let old = s.value in
    let next = if old == 0 then waking else finished ok in
    stands t next (record s { value = (old + 1) % 2 ^ 32; given = s.given + 1 })

-- `scheduler_futex_wake` for one waiter, who tries again. (It returns 0 to the waiter.)
abbrev timeout_of : Stand → ℕ
timeout_of (asleep timeout) = timeout
timeout_of _ = 0

abbrev wake_first : ℕ → Semaphore → List ℕ → Semaphore
wake_first t s [] = stands t (finished ok) s
wake_first t s (w ∷ ws) =
    stands t (finished ok) (stands w (trying (timeout_of (s.stand w))) (record s { waiters = ws }))

unfoldable pub wake_one : ℕ → Semaphore → Semaphore
wake_one t s = wake_first t s s.waiters

-- The next access of a thread. A sleeping thread has none.
abbrev advance : ℕ → Semaphore → Stand → Semaphore
unfolding try_take enter_wait check_max add_token wake_one
advance t s outside = s
advance t s (trying timeout) = try_take t 1 timeout s
advance t s (retrying expected timeout) = try_take t expected timeout s
advance t s (entering timeout) = enter_wait t timeout s
advance t s (asleep timeout) = s
advance t s checking = check_max t s
advance t s adding = add_token t s
advance t s waking = wake_one t s
advance t s (finished status) = s

abbrev call : ℕ → Stand → Semaphore → Stand → Semaphore
call t p s outside = stands t p s
call t p s (finished status) = stands t p s
call t p s _ = s

abbrev time_out : ℕ → Semaphore → Stand → Semaphore
time_out t s (asleep timeout) =
    stands t (finished error_timeout) (record s { waiters = erase t s.waiters })
time_out t s _ = s

-- What happens next: a thread calls a function or goes on, or the wait of a thread times out.
pub data Event : Type 0 where
  acquires : ℕ → ℕ → Event
  releases goes_on times_out : ℕ → Event

unfoldable pub happen : Event → Semaphore → Semaphore
unfolding advance
happen (acquires t timeout) s = call t (trying timeout) s (s.stand t)
happen (releases t) s = call t checking s (s.stand t)
happen (goes_on t) s = advance t s (s.stand t)
happen (times_out t) s = time_out t s (s.stand t)

unfoldable pub run : List Event → Semaphore → Semaphore
unfolding happen
run [] s = s
run (e ∷ es) s = run es (happen e s)
