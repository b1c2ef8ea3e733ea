-- ===== src/Threads/Mutex.antt =====
-- pico-threads/threads.c: mtx_lock, mtx_timedlock, mtx_trylock and mtx_unlock of a mutex without
-- priority inheritance, by any number of threads, one atomic access or service of the scheduler at a
-- time, in any order. The futex of the mutex tracks its owner and contention.
pub mod Exclusion
pub mod Live
pub mod Waiters
mod Tests
use pico_toolkit.Base.{
  ℕ, zero, suc, ◌+◌, ◌-◌, ◌*◌, ◌/◌, Bool, true, false, not, ◌&&◌, ◌||◌, List, [], ◌∷◌, ◌==◌, leb,
  ltb, if◌then◌else◌, update, erase, clear_bit0, set_bit0,
}
use pico_toolkit.Scheduler.Queue.{enqueue}
use pico_toolkit.Threads.{Answer, success, error, busy, timedout, forever}

-- Where a thread stands in its call. Before the compare-exchange with 0 it is `trying`, before the
-- wait service `entering`, with the value that it saw, in the queue `asleep`, and back from the wait
-- `resumed`; the number is the time-out. A call that took the mutex leaves `holding`.
pub data Stand : Type 0 where
  outside holding releasing waking : Stand
  trying asleep resumed : ℕ → Stand
  entering : ℕ → ℕ → Stand

-- `struct mtx`, its waiters by priority, where each thread stands, and what its last call returned.
pub record Mutex : Type 0 where
  pub is_recursive : Bool
  pub value : ℕ
  pub count : ℕ
  pub waiters : List ℕ
  pub priority : ℕ → ℕ
  pub stand : ℕ → Stand
  pub answer : ℕ → Answer

-- The address of a thread's task is even and not null.
abbrev pub task : ℕ → ℕ
task t = 2 * t + 2

abbrev pub is_owner : ℕ → Mutex → Bool
is_owner t m = task t == clear_bit0 m.value

abbrev pub stands : ℕ → Stand → Mutex → Mutex
stands t p m = record m { stand = update m.stand t p }

abbrev pub returns : ℕ → Stand → Answer → Mutex → Mutex
returns t p a m = record m { stand = update m.stand t p; answer = update m.answer t a }

abbrev pub first_count : Mutex → Mutex
first_count m = if m.is_recursive then record m { count = 1 } else m

-- `_mtx_lock`, up to its loop.
unfoldable pub begin_lock : ℕ → ℕ → Mutex → Mutex
begin_lock t msec m =
    let again = returns t holding success (record m { count = m.count + 1 }) in
    let refused = returns t (m.stand t) error m in
    if is_owner t m then (if m.is_recursive then again else refused) else stands t (trying msec) m

-- The compare-exchange in the loop.
unfoldable pub try_value : ℕ → ℕ → Mutex → Mutex
try_value t msec m =
    if m.value == 0
    then returns t holding success (first_count (record m { value = task t }))
    else stands t (entering msec m.value) m

-- `scheduler_wait_svc`: it blocks if the value is the one seen, contended or not.
unfoldable pub enter_wait : ℕ → ℕ → ℕ → Mutex → Mutex
enter_wait t msec seen m =
    if (m.value == seen) || (m.value == set_bit0 seen)
    then stands t (asleep msec)
        (record m { value = set_bit0 seen; waiters = enqueue m.priority t m.waiters })
    else stands t (resumed msec) m

-- After a wait that did not time out.
unfoldable pub look_again : ℕ → ℕ → Mutex → Mutex
look_again t msec m =
    if is_owner t m then returns t holding success (first_count m) else stands t (trying msec) m

-- `mtx_unlock`, up to its compare-exchange.
unfoldable pub begin_unlock : ℕ → Mutex → Mutex
begin_unlock t m =
    let left = record m { count = m.count - 1 } in
    let nested = returns t (m.stand t) success left in
    let last = stands t releasing left in
    let plain = stands t releasing m in
    if is_owner t m
    then (if m.is_recursive then (if ltb 0 left.count then nested else last) else plain)
    else returns t (m.stand t) error m

-- The hot path: a value that is not the task alone is contended.
unfoldable pub swap_out : ℕ → Mutex → Mutex
swap_out t m =
    if m.value == task t
    then returns t outside success (record m { value = 0 })
    else stands t waking m

-- `scheduler_wake_futex` for one waiter, which becomes the owner. Without waiters the contention is
-- cleared and the owner stays.
abbrev timeout_of : Stand → ℕ
timeout_of (asleep msec) = msec
timeout_of _ = forever

abbrev pub tracked : List ℕ → ℕ → ℕ
tracked [] value = clear_bit0 value
tracked (w ∷ ws) value = set_bit0 value

abbrev hand_over : ℕ → Mutex → List ℕ → Mutex
hand_over t m [] = returns t outside success (record m { value = clear_bit0 m.value })
hand_over t m (w ∷ ws) = returns t outside success (
    stands w (resumed (timeout_of (m.stand w)))
      (record m { value = tracked ws (task w); waiters = ws }))

unfoldable pub wake_one : ℕ → Mutex → Mutex
wake_one t m = hand_over t m m.waiters

-- `mtx_trylock`, which compares the value with its contention.
unfoldable pub try_lock : ℕ → Mutex → Mutex
try_lock t m =
    let free =
      if m.value == 0
      then returns t holding success (first_count (record m { value = task t }))
      else returns t (m.stand t) busy m in
    if m.is_recursive && (m.value == task t)
    then returns t holding success (record m { count = m.count + 1 })
    else free

-- The next access of a thread. A sleeping thread has none.
abbrev advance : ℕ → Mutex → Stand → Mutex
unfolding try_value enter_wait look_again swap_out wake_one
advance t m outside = m
advance t m holding = m
advance t m (trying msec) = try_value t msec m
advance t m (entering msec seen) = enter_wait t msec seen m
advance t m (asleep msec) = m
advance t m (resumed msec) = look_again t msec m
advance t m releasing = swap_out t m
advance t m waking = wake_one t m

-- A thread calls a function when it is in none.
abbrev call : (Mutex → Mutex) → Mutex → Stand → Mutex
call function m outside = function m
call function m holding = function m
call function m _ = m

abbrev time_out : ℕ → Mutex → Stand → Mutex
time_out t m (asleep msec) =
    if ltb msec forever
    then returns t outside timedout (record m { waiters = erase t m.waiters })
    else m
time_out t m _ = m

-- What happens next: a thread calls a function, with its time-out, or goes on, or its wait times out.
pub data Event : Type 0 where
  locks : ℕ → ℕ → Event
  tries unlocks goes_on times_out : ℕ → Event

unfoldable pub happen : Event → Mutex → Mutex
unfolding advance begin_lock try_lock begin_unlock
happen (locks t msec) m = call (begin_lock t msec) m (m.stand t)
happen (tries t) m = call (try_lock t) m (m.stand t)
happen (unlocks t) m = call (begin_unlock t) m (m.stand t)
happen (goes_on t) m = advance t m (m.stand t)
happen (times_out t) m = time_out t m (m.stand t)

unfoldable pub run : List Event → Mutex → Mutex
unfolding happen
run [] m = m
run (e ∷ es) m = run es (happen e m)

-- `mtx_init`, with the type and the priorities of the threads.
unfoldable pub init : Bool → (ℕ → ℕ) → Mutex
init recursive priority = record {
  is_recursive = recursive;
  value = 0;
  count = 0;
  waiters = [];
  priority = priority;
  stand = λ t. outside;
  answer = λ t. success;
}
