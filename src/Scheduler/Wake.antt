-- ===== src/Scheduler/Wake.antt =====
-- scheduler.c, `scheduler_wake_futex` and its service.
pub mod Drain
use pico_toolkit.Base.{
  ℕ, zero, suc, ◌+◌, Bool, not, ◌||◌, none, some, List, [], ◌∷◌, ◌++◌, ltb, if◌then◌else◌, erase,
  update, length, has_any, clear_bit0, set_bit0,
}
use pico_toolkit.Scheduler.Queue.{highest_priority}
use pico_toolkit.Scheduler.State.{
  Sched, ready, Code, done, ready_queue, contention_tracking, futex_pi, owner_tracking, set_state,
  priority_of, queue_remove, queue_push, reprioritize, timer_remove, request_switch,
}
use pico_toolkit.Scheduler.Service.{is_inheriting}

-- `sched_list_remove(&futex->owned)`
unfoldable pub unlink_owned : ℕ → Sched → Sched
unlink_owned f s = record s {
  owned = λ t. erase f (s.owned t);
  futex = update s.futex f (record (s.futex f) { owned_by = none });
}

-- The most urgent of a priority and the first waiters of the owned futexes.
unfoldable pub most_urgent : Sched → ℕ → List ℕ → ℕ
most_urgent s highest [] = highest
most_urgent s highest (f ∷ fs) =
    let waiter = highest_priority (priority_of s) (s.queue f) in
    most_urgent s (if ltb waiter highest then waiter else highest) fs

-- The owner gives up what it inherited through this futex.
unfoldable pub release_owner : ℕ → Sched → Sched
unfolding unlink_owned most_urgent
release_owner f s0 =
    let owner = clear_bit0 (s0.word (s0.futex f).value) in
    let s1 = unlink_owned f s0 in
    reprioritize owner (most_urgent s1 (s1.task owner).base_priority (s1.owned owner)) s1

-- A futex that inherits priorities and has waiters left goes to the woken task, whose priority
-- becomes that of the first waiter.
unfoldable pub inherit : ℕ → ℕ → List ℕ → Sched → Sched
inherit f t [] s = s
inherit f t (w ∷ ws) s0 =
    let s1 = record s0 {
      owned = update s0.owned t (s0.owned t ++ f ∷ []);
      futex = update s0.futex f (record (s0.futex f) { owned_by = some t });
    } in
    reprioritize t (highest_priority (priority_of s1) (w ∷ ws)) s1

-- One round of the loop, for the task `t` that has been taken from the queue.
unfoldable pub wake_one : ℕ → ℕ → Sched → Sched
unfolding inherit
wake_one f t s0 =
    let s1 =
      if has_any (s0.futex f).flags owner_tracking
      then record s0 { word = update s0.word (s0.futex f).value t }
      else s0 in
    let s2 = if has_any (s0.futex f).flags futex_pi then inherit f t (s1.queue f) s1 else s1 in
    queue_push ready_queue t (set_state t ready (timer_remove t s2))

-- The loop, on fuel. `sched_queue_pop` with no core given takes the first task.
unfoldable pub wake_loop : ℕ → ℕ → Bool → ℕ → Sched → ℕ × Sched
unfolding wake_one
wake_loop zero f all woken s = (woken, s)
wake_loop (suc fuel) f all woken s = elim (s.queue f) [
  | [] ↦ (woken, s)
  | t ∷ _ ↦
      let s1 = wake_one f t (queue_remove t s) in
      let rest = wake_loop fuel f all (woken + 1) s1 in
      if not all || has_any (s.futex f).flags owner_tracking then (woken + 1, s1) else rest
]

-- The lowest bit of the word says whether there are waiters.
unfoldable pub track_contention : ℕ → List ℕ → Sched → Sched
track_contention f ws s =
    let address = (s.futex f).value in
    let contended : ℕ = elim ws [
      | [] ↦ clear_bit0 (s.word address)
      | _ ∷ _ ↦ set_bit0 (s.word address)
    ] in
    if has_any (s.futex f).flags contention_tracking
    then record s { word = update s.word address contended }
    else s

-- The loop takes one task from the queue in each round, so the length of the queue is enough fuel.
unfoldable pub wake_futex : ℕ → Bool → Sched → ℕ × Sched
unfolding release_owner wake_loop track_contention
wake_futex f all s0 =
    let s1 = if is_inheriting (s0.futex f) then release_owner f s0 else s0 in
    let (woken, s2) = wake_loop (length (s1.queue f)) f all 0 s1 in
    (woken, track_contention f (s2.queue f) s2)

unfoldable pub wake_svc : ℕ → ℕ → Bool → Sched → Code × Sched
unfolding wake_futex
wake_svc core f all s =
    let (woken, s1) = wake_futex f all s in
    (done woken, if ltb 0 woken then request_switch core s1 else s1)
