-- ===== src/Threads/Life.antt =====
-- pico-threads/threads.c: the life of a thread: creation, exit, detachment, join, and the reaper. The
-- locks of the list succeed, or the code aborts.
pub mod Cleanup
use pico_toolkit.Base.{
  ℕ, zero, suc, ◌+◌, Bool, true, false, not, ◌&&◌, ◌||◌, Option, none, some, List, [], ◌∷◌, ◌++◌,
  ◌==◌, if◌then◌else◌, update, erase,
}
use pico_toolkit.Threads.{Answer, success, error}

-- `struct thrd`, as far as the life of the thread shows in it; no joiner is 0.
pub record Thread : Type 0 where
  pub ret : ℕ
  pub detached : Bool
  pub terminated : Bool
  pub joiner : ℕ

-- The threads, the list `thrds`, the memory blocks released so far, and the tasks of threads that the
-- scheduler was told not to count (`SCHEDULER_IGNORE_VIABLE`).
pub record System : Type 0 where
  pub thread : ℕ → Thread
  pub thrds : List ℕ
  pub released : List ℕ
  pub ignored : List ℕ

abbrev pub new_thread : Thread
new_thread = record { ret = 0; detached = false; terminated = false; joiner = 0 }

-- `_thrd_create` for the block `t` that the allocator gave, or none; whether the scheduler takes the
-- task is an argument. On failure the head of the list is removed instead of the thread, which
-- leaves an empty list.
unfoldable pub create : Option ℕ → Bool → System → Answer × System
create none scheduled s = (error, s)
create (some t) true s =
    (success, record s { thread = update s.thread t new_thread; thrds = s.thrds ++ t ∷ [] })
create (some t) false s = (
  error,
  record s { thread = update s.thread t new_thread; thrds = []; released = t ∷ s.released },
)

-- `thrd_exit`, its result, and `thrd_exit_handler`: which queue is woken, the reaper's or the joiners'.
unfoldable pub exit : ℕ → ℕ → System → Bool × System
exit t res s =
    let th = s.thread t in
    (
      th.detached,
      record s { thread = update s.thread t (record th { ret = res; terminated = true }) },
    )

-- `thrd_detach`: 0 is the calling thread.
unfoldable pub detach : ℕ → ℕ → System → Answer × System
detach self t s =
    let thread = if t == 0 then self else t in (success, record s { ignored = thread ∷ s.ignored })

-- One pass of `thrds_reaper` over the list.
unfoldable pub reap : List ℕ → System → System
reap [] s = s
reap (t ∷ ts) s =
    let gone = record s { thrds = erase t s.thrds; released = t ∷ s.released } in
    reap ts (if (s.thread t).detached && (s.thread t).terminated then gone else s)

unfoldable pub reap_all : System → System
unfolding reap
reap_all s = reap s.thrds s

-- What a wait for the joined thread comes to: the changes by others, and its answer.
pub record Wait : Type 0 where
  pub others : System → System
  pub answer : Answer

abbrev pub succeeds : Answer → Bool
succeeds success = true
succeeds _ = false

-- `while (!thread->terminated)`: the answer of the last wait; none while it waits.
unfoldable pub await : ℕ → List Wait → System → Option (Answer × System)
await t [] s = if (s.thread t).terminated then some (success, s) else none
await t (w ∷ ws) s =
    let s1 = w.others s in
    let rest = await t ws s1 in
    let next = if succeeds w.answer then rest else some (w.answer, s1) in
    if (s.thread t).terminated then some (success, s) else next

abbrev pub leave : ℕ → Option (Answer × System) → Option (Answer × ℕ × System)
leave t none = none
leave t (some (a, s)) =
    some (a, (s.thread t).ret, record s { thrds = erase t s.thrds; released = t ∷ s.released })

-- `thrd_join` by `self`: the answer with the result of the thread.
unfoldable pub join : ℕ → ℕ → List Wait → System → Option (Answer × ℕ × System)
unfolding await
join self t ws s =
    let th = s.thread t in
    let joined = record s { thread = update s.thread t (record th { joiner = self }) } in
    let waited = leave t (await t ws joined) in
    if th.detached || not (th.joiner == 0) then some (error, 0, s) else waited
