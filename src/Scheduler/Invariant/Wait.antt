-- ===== src/Scheduler/Invariant/Wait.antt =====
-- Waiting on a futex keeps the invariant.
use pico_toolkit.Base.{
  ℕ, ◌≡◌, ◌≢◌, refl, Bool, true, false, ◌||◌, Option, none, some, arith, mem-erase, ◌==◌,
  if◌then◌else◌, update, inl, inr, Bool-cases, ltb, erase, ◌+◌, ◌%◌, ◌^◌, clear_bit0,
}
use pico_toolkit.Scheduler.State.{
  Sched, blocked, done, queue_push, timer_push, ready_queue, wait_forever, expiry_of, priority_of,
  set_state_core, set_task, get_ticks, reprioritize,
}
use pico_toolkit.Scheduler.Queue.{uint32_max, highest_priority}
use pico_toolkit.Scheduler.Queue.Order.{mem-enqueue}
use pico_toolkit.Scheduler.Service.{
  timer_if_needed, compete_again, block_on, boost_owner, link_owned, is_inheriting, wait_task,
  wait_svc, wait_value,
}
use pico_toolkit.Scheduler.Invariant.{Inv}
use pico_toolkit.Scheduler.Invariant.Queues.{
  Queued-frame, queue_push-Queued, set_task-Queued, timer_push-Queued,
}
use pico_toolkit.Scheduler.Invariant.Timers.{
  Timed-frame, timer_push-Timed, queue_push-Timed, set_task-Timed,
}
use pico_toolkit.Scheduler.Invariant.Suspend.{Leaving, switch_away-Inv, current-unqueued}
use pico_toolkit.Scheduler.Invariant.Frame.{reprioritize-Leaving}

compete_again-Leaving :
    {s : Sched} (core cur : ℕ)
    → s.current core ≡ some cur
    → Inv s
    → Leaving core cur (compete_again cur s)
unfolding compete_again queue_push
compete_again-Leaving {s} core cur now v =
    let free = current-unqueued core cur now v in
    record {
      queued =
          queue_push-Queued ready_queue cur (ground arith)
            (set_task-Queued cur _ refl refl v.queued);
      placed = λ j. ground (arith, v.placed j);
      timed = queue_push-Timed ready_queue cur (set_task-Timed cur _ refl v.timed);
      waiting = λ j m. ground (arith, v.waiting j);
      holds = λ c j e ne. ground (arith, v.holds c j, v.holds core cur now);
      runs = λ j e. ground (arith, v.runs j, v.holds core cur now);
    }

abbrev enqueued : ℕ → ℕ → ℕ → Sched → Sched
enqueued cur f ticks s =
    queue_push f cur (set_state_core cur blocked uint32_max (timer_if_needed cur ticks s))

enqueued-Leaving :
    {s : Sched} (core cur f ticks : ℕ)
    → f ≢ 0
    → s.current core ≡ some cur
    → Inv s
    → Leaving core cur (enqueued cur f ticks s)
unfolding queue_push timer_push
enqueued-Leaving {s} core cur f ticks nf now v =
    let free = current-unqueued core cur now v in
    elim (Bool-cases (ltb ticks wait_forever)) [
      | inr e ↦ rw e (record {
        queued = queue_push-Queued f cur (ground arith) (set_task-Queued cur _ refl refl v.queued);
        placed = λ j. ground (arith, v.placed j);
        timed = queue_push-Timed f cur (set_task-Timed cur _ refl v.timed);
        waiting = λ j m. ground (arith, v.waiting j);
        holds = λ c j e ne. ground (arith, v.holds c j, v.holds core cur now);
        runs = λ j e. ground (arith, v.runs j, v.holds core cur now);
      })
      | inl e ↦ rw e (record {
        queued = queue_push-Queued f cur (ground arith) (
            set_task-Queued cur _ (ground arith) (ground arith)
              (timer_push-Queued cur ticks v.queued));
        placed = λ j. ground (arith, v.placed j);
        timed =
            queue_push-Timed f cur
              (set_task-Timed cur _ (ground arith) (timer_push-Timed cur ticks v.timed));
        waiting = λ j m. ground (
          arith,
          v.waiting j,
          mem-erase j cur s.timers,
          mem-enqueue
              (expiry_of (
                set_task cur
                  (record (s.task cur) { timer_expires = (get_ticks s + ticks) % 2 ^ 32 }) s))
              j cur (erase cur s.timers),
        );
        holds = λ c j e ne. ground (arith, v.holds c j, v.holds core cur now);
        runs = λ j e. ground (arith, v.runs j, v.holds core cur now);
      })
    ]

link_owned-Leaving :
    {core cur : ℕ} {s : Sched} (owner f : ℕ) (o : Option ℕ)
    → Leaving core cur s
    → Leaving core cur (link_owned owner f s o)
link_owned-Leaving owner f (some t) v = v
link_owned-Leaving owner f none v = record {
  queued = Queued-frame (λ q. refl) (λ j. refl) (λ j. refl) v.queued;
  placed = v.placed;
  timed = Timed-frame refl refl (λ j. refl) v.timed;
  waiting = v.waiting;
  holds = v.holds;
  runs = v.runs;
}

boost_owner-Leaving :
    {core cur : ℕ} {s : Sched} (f value : ℕ)
    → Leaving core cur s
    → Leaving core cur (boost_owner f value s)
unfolding boost_owner
boost_owner-Leaving {core} {cur} {s} f value v =
    go (link_owned-Leaving (clear_bit0 value) f (s.futex f).owned_by v)
      (ltb (highest_priority _ _) _)
  where
    s1 : Sched
    s1 = link_owned (clear_bit0 value) f s (s.futex f).owned_by

    highest : ℕ
    highest = highest_priority (priority_of s1) (s1.queue f)

    go :
        Leaving core cur s1
        → (b : Bool)
        → Leaving core cur (if b then reprioritize (clear_bit0 value) highest s1 else s1)
    go w true = reprioritize-Leaving (clear_bit0 value) highest w
    go w false = w

block_on-Leaving :
    {s : Sched} (core cur f value ticks : ℕ)
    → f ≢ 0
    → s.current core ≡ some cur
    → Inv s
    → Leaving core cur (block_on cur f value ticks s)
unfolding block_on
block_on-Leaving {s} core cur f value ticks nf now v = go (is_inheriting (s.futex f))
  where
    w : Leaving core cur (enqueued cur f ticks s)
    w = enqueued-Leaving core cur f ticks nf now v

    go :
        (b : Bool)
        → Leaving core cur
            (if b then boost_owner f value (enqueued cur f ticks s) else enqueued cur f ticks s)
    go true = boost_owner-Leaving f value w
    go false = w

pub set_word-Inv : {s : Sched} (a w : ℕ) → Inv s → Inv (record s { word = update s.word a w })
set_word-Inv a w v = record {
  queued = Queued-frame (λ q. refl) (λ j. refl) (λ j. refl) v.queued;
  placed = v.placed;
  timed = Timed-frame refl refl (λ j. refl) v.timed;
  waiting = v.waiting;
  holds = v.holds;
  runs = v.runs;
}

wait_task-Inv :
    {s : Sched} (core cur f expected ticks : ℕ)
    → f ≢ 0
    → s.current core ≡ some cur
    → Inv s
    → Inv (wait_task core cur f expected ticks s)
unfolding wait_task
wait_task-Inv {s} core cur f expected ticks nf now v =
    switch_away-Inv core cur (done 0) (go (word == expected) (word == value))
  where
    value : ℕ
    value = wait_value (s.futex f) expected

    address : ℕ
    address = (s.futex f).value

    word : ℕ
    word = s.word address

    s1 : Bool → Sched
    s1 b = if b then record s { word = update s.word address value } else s

    go :
        (b c : Bool)
        → Leaving core cur
            (if b || c then block_on cur f value ticks (s1 b) else compete_again cur (s1 b))
    go true c = block_on-Leaving core cur f value ticks nf now (set_word-Inv address value v)
    go false true = block_on-Leaving core cur f value ticks nf now v
    go false false = compete_again-Leaving core cur now v

-- A wait of the core's current task on a futex that is not null keeps the invariant, whether the
-- task blocks or competes again.
pub wait_svc-Inv :
    {s : Sched} (core cur f expected ticks : ℕ)
    → f ≢ 0
    → s.current core ≡ some cur
    → Inv s
    → Inv (wait_svc core f expected ticks s).1
unfolding wait_svc
wait_svc-Inv {s} core cur f expected ticks nf now v =
    rw now (wait_task-Inv core cur f expected ticks nf now v)
