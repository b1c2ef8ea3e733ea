-- ===== src/Rtos/Timer.antt =====
-- pico-cmsis-rtos2/cmsis-rtos2-timer.c: timers, the list of the active ones by their targets, and the
-- tick hook that posts expired timers to the queue of the timer thread. Timer/Restart has the
-- insertion of a start on the pointers of the list.
pub mod Tick
pub mod Posts
pub mod Restart
mod Tests
use pico_toolkit.Base.{
  ℕ, zero, suc, ◌+◌, ◌-◌, ◌%◌, ◌^◌, Bool, true, false, not, ◌||◌, Option, none, some, List, [], ◌∷◌,
  ◌==◌, leb, if◌then◌else◌, update, mem, erase,
}
use pico_toolkit.Scheduler.Queue.{enqueue}
use pico_toolkit.Rtos.{
  Status, ok, error_parameter, error_resource, Context, context_is_valid, is_resource_valid, if_ok,
}

-- `struct rtos_timer`
pub record Timer : Type 0 where
  pub marker : ℕ
  pub is_periodic : Bool
  pub ticks : ℕ
  pub target : ℕ

-- The timers, and the list `active_timers`.
pub record Timers : Type 0 where
  pub timer : ℕ → Timer
  pub active : List ℕ

abbrev pub target_of : Timers → ℕ → ℕ
target_of s t = (s.timer t).target

abbrev pub timer_marker : ℕ
timer_marker = 0x42066024

-- `osWaitForever`
abbrev pub wait_forever : ℕ
wait_forever = 0xffffffff

unfoldable pub guard : Context → ℕ → Timers → Status
guard c t s =
    if_ok (context_is_valid false 0 c) (λ e. e)
      (is_resource_valid t (s.timer t).marker timer_marker)

abbrev pub with_target : ℕ → ℕ → Timers → Timers
with_target t target s = record s {
  timer = update s.timer t (record (s.timer t) { target = target });
}

-- The insertion before the first timer with a later target.
abbrev pub insert : ℕ → List ℕ → Timers → Timers
insert t ts s = record s { active = enqueue (target_of s) t ts }

-- `osTimerStart` of a timer that is not active, at the tick `now`.
unfoldable pub start : Context → ℕ → ℕ → ℕ → Timers → Status × Timers
unfolding guard
start c now t ticks s0 =
    let s1 = record s0 { timer = update s0.timer t (record (s0.timer t) { ticks = ticks }) } in
    let s2 = with_target t ((now + ticks) % 2 ^ 32) s1 in
    if (ticks == 0) || (ticks == wait_forever)
    then (error_parameter, s0)
    else if_ok (guard c t s0) (λ e. (e, s0)) (ok, insert t s2.active s2)

unfoldable pub is_running : Context → ℕ → Timers → Bool
unfolding guard
is_running c t s = if_ok (guard c t s) (λ e. false) (mem t s.active)

unfoldable pub stop : Context → ℕ → Timers → Status × Timers
unfolding guard
stop c t s =
    if_ok (guard c t s) (λ e. (e, s))
      (if mem t s.active then (ok, record s { active = erase t s.active }) else (error_resource, s))

-- `osTimerDelete`, up to the release of the memory: whether that takes place depends on the removal of
-- the resource, which cannot fail here.
unfoldable pub delete : Context → ℕ → Timers → Status × Timers
unfolding guard
delete c t s =
    let cleared = update s.timer t (record (s.timer t) { marker = 0 }) in
    if_ok (guard c t s) (λ e. (e, s)) (ok, record s { active = erase t s.active; timer = cleared })

-- The timers that a tick posted, before what the later rounds post.
abbrev pub posts : ℕ → Option (List ℕ × Timers) → Option (List ℕ × Timers)
posts t none = none
posts t (some (ts, s)) = some (t ∷ ts, s)

-- The body of the loop for the expired timer `t`: `room` is how many messages the queue still takes,
-- and `next` the rest of the loop. When it is full the timer is due at once, and the loop is left.
-- (Any other answer of the put than these two aborts the program; none is modelled.)
abbrev pub expire :
    ℕ → (ℕ → Timers → Option (List ℕ × Timers)) → ℕ → ℕ → List ℕ → Timers → Option (List ℕ × Timers)
expire zero next now t ts s = some ([], insert t ts (with_target t now s))
expire (suc room) next now t ts s =
    let again = insert t ts (with_target t ((now + (s.timer t).ticks) % 2 ^ 32) s) in
    let over = record s { active = ts } in
    posts t (next room (if (s.timer t).is_periodic then again else over))

-- A round of the loop, for the list as it is.
abbrev pub tick_on :
    (ℕ → Timers → Option (List ℕ × Timers)) → ℕ → ℕ → Timers → List ℕ → Option (List ℕ × Timers)
tick_on next now room s [] = some ([], s)
tick_on next now room s (t ∷ ts) =
    let more = expire room next now t ts s in if leb (target_of s t) now then more else some ([], s)

-- `none` is fuel that ran out.
unfoldable pub tick_loop : ℕ → ℕ → ℕ → Timers → Option (List ℕ × Timers)
unfolding enqueue
tick_loop zero now room s = none
tick_loop (suc fuel) now room s = tick_on (tick_loop fuel now) now room s s.active

-- `scheduler_tick_hook`, which does nothing but on the first core. A round posts or is the last, so the
-- room of the queue bounds their number.
unfoldable pub tick_hook : ℕ → ℕ → ℕ → Timers → Option (List ℕ × Timers)
unfolding tick_loop
tick_hook core now room s =
    let ran = tick_loop (suc room) now room s in if core == 0 then ran else some ([], s)
