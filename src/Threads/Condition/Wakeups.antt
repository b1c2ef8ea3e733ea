-- ===== src/Threads/Condition/Wakeups.antt =====
-- No wake-up of a condition variable is lost, and which deadlines a timed wait takes.
use pico_toolkit.Base.{ℕ, ◌+◌, ◌%◌, ◌^◌, ◌<◌, ◌≡◌, List, [], ◌∷◌, arith, ◌==◌, if◌then◌else◌}
use pico_toolkit.Threads.{timedout}
use pico_toolkit.Threads.Condition.{
  Condition, enter_wait, count_wakeup, wake, Move, counts, wakes, waits, moves, answers, tries_for,
  timedwait,
}

abbrev pub wakeups : List Move → ℕ
wakeups [] = 0
wakeups (counts ∷ ms) = 1 + wakeups ms
wakeups (wakes all ∷ ms) = wakeups ms
wakeups (waits t sequence ∷ ms) = wakeups ms

enter_wait-sequence :
    (priority : ℕ → ℕ) (t sequence : ℕ) (c : Condition)
    → (enter_wait priority t sequence c).1.sequence ≡ c.sequence
unfolding enter_wait
enter_wait-sequence priority t sequence c = ground arith

moves-sequence :
    (priority : ℕ → ℕ) (ms : List Move) (c : Condition)
    → c.sequence < 2 ^ 32
    → (moves priority ms c).sequence ≡ (c.sequence + wakeups ms) % 2 ^ 32
unfolding moves count_wakeup wake
moves-sequence priority [] c h = omega arith
moves-sequence priority (counts ∷ ms) c h =
    omega (arith, moves-sequence priority ms (count_wakeup c) (omega arith))
moves-sequence priority (wakes all ∷ ms) c h = moves-sequence priority ms (wake all c).1 h
moves-sequence priority (waits t sequence ∷ ms) c h =
    let c' : Condition = (enter_wait priority t sequence c).1 in
    let same : c'.sequence ≡ c.sequence = enter_wait-sequence priority t sequence c in
    omega (arith, same, moves-sequence priority ms c' (omega (arith, same)))

-- A thread that has read the sequence number blocks in the wait exactly if nobody has counted a signal
-- since, whatever other threads have begun to wait and however the count of a signal and its wake lie
-- between: no signal between its unlock and its wait is lost, as long as there are fewer than 2^32 of
-- them.
pub enter_wait-moves :
    (priority : ℕ → ℕ) (t : ℕ) (ms : List Move) (c : Condition)
    → c.sequence < 2 ^ 32
    → wakeups ms < 2 ^ 32
    → (enter_wait priority t c.sequence (moves priority ms c)).0 ≡ (wakeups ms == 0)
unfolding enter_wait
enter_wait-moves priority t ms c h few = ground (arith, moves-sequence priority ms c)

-- A timed wait takes no deadline but the present tick, and then does not wait at all: for a deadline
-- in the future, as for one in the past, it times out at once.
pub timedwait_lem :
    (ticks tm_ticks : ℕ)
    → ticks < 2 ^ 32
    → tm_ticks < 2 ^ 64
    → timedwait ticks tm_ticks ≡ (if ticks == tm_ticks then tries_for 0 else answers timedout)
unfolding timedwait
timedwait_lem ticks tm_ticks h l = ground arith
