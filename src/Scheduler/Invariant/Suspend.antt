-- ===== src/Scheduler/Invariant/Suspend.antt =====
-- Suspending a task, or waiting on a futex, keeps the invariant.
use pico_toolkit.Base.{
  ℕ, ◌≡◌, ◌≢◌, refl, true, false, none, some, arith, mem, mem-erase, ◌==◌, if◌then◌else◌, inl, inr,
  Bool-cases, ltb, erase, ◌+◌, ◌%◌, ◌^◌,
}
use pico_toolkit.Scheduler.State.{
  Sched, running, Code, done, queue_remove, queue_push, timer_remove, timer_push, ready_queue,
  set_current, wait_forever, expiry_of, set_task, get_ticks,
}
use pico_toolkit.Scheduler.Queue.Order.{mem-enqueue}
use pico_toolkit.Scheduler.Service.{
  suspend_other, suspend_self, suspend_svc, timer_if_needed, switch_away,
}
use pico_toolkit.Scheduler.Invariant.{Queued, Timed, Inv, phase, fits, waits}
use pico_toolkit.Scheduler.Invariant.Queues.{
  Queued-frame, queue_remove-Queued, queue_push-Queued, set_task-Queued, timer_remove-Queued,
  timer_push-Queued,
}
use pico_toolkit.Scheduler.Invariant.Timers.{
  Timed-frame, timer_remove-Timed, timer_push-Timed, queue_remove-Timed, queue_push-Timed,
  set_task-Timed,
}
use pico_toolkit.Scheduler.Invariant.Resume.{request_switch-Inv, alive-cases}

-- The invariant but for the current task of one core, whose state has changed while it is still
-- entered as current: what holds between the two halves of `suspend` and `wait`.
pub record Leaving (core cur : ℕ) (s : Sched) : Type 0 where
  pub queued : Queued s
  pub placed : (t : ℕ) → fits (phase s t) (s.task t).current_queue ≡ true
  pub timed : Timed s
  pub waiting : (t : ℕ) → mem t s.timers ≡ true → waits (phase s t) ≡ true
  pub holds :
      (c t : ℕ) → s.current c ≡ some t → c ≢ core → (phase s t ≡ running) × ((s.task t).core ≡ c)
  pub runs :
      (t : ℕ)
      → phase s t ≡ running
      → (s.current (s.task t).core ≡ some t) × ((s.task t).core ≢ core)

pub switch_away-Inv :
    {s : Sched} (core cur : ℕ) (r0 : Code) → Leaving core cur s → Inv (switch_away core cur r0 s)
unfolding set_current
switch_away-Inv {s} core cur r0 v = request_switch-Inv core (record {
  queued = Queued-frame (λ q. refl) (λ t. ground arith) (λ t. ground arith) v.queued;
  placed = λ t. ground (arith, v.placed t);
  timed = Timed-frame refl refl (λ t. ground arith) v.timed;
  waiting = λ t m. ground (arith, v.waiting t);
  holds = λ c t e. ground (arith, v.holds c t);
  runs = λ t e. ground (arith, v.runs t);
})

timer_if_needed-Leaving :
    {s : Sched} (core cur t ticks : ℕ)
    → waits (phase s t) ≡ true
    → Leaving core cur s
    → Leaving core cur (timer_if_needed t ticks s)
unfolding timer_push
timer_if_needed-Leaving {s} core cur t ticks w v = elim (Bool-cases (ltb ticks wait_forever)) [
  | inr e ↦ rw e v
  | inl e ↦ rw e (record {
    queued = timer_push-Queued t ticks v.queued;
    placed = λ j. ground (arith, v.placed j);
    timed = timer_push-Timed t ticks v.timed;
    waiting = λ j m. ground (
      arith,
      v.waiting j,
      mem-erase j t s.timers,
      mem-enqueue
          (expiry_of
            (set_task t (record (s.task t) { timer_expires = (get_ticks s + ticks) % 2 ^ 32 }) s))
          j t (erase t s.timers),
    );
    holds = λ c j e. ground (arith, v.holds c j);
    runs = λ j e. ground (arith, v.runs j);
  })
]

suspend_self-Leaving :
    {s : Sched} (core cur : ℕ)
    → s.current core ≡ some cur
    → Inv s
    → Leaving core cur (suspend_self cur s)
unfolding suspend_self
suspend_self-Leaving {s} core cur now v = record {
  queued = set_task-Queued cur _ refl refl v.queued;
  placed = λ j. ground (arith, v.placed j, v.holds core cur now);
  timed = set_task-Timed cur _ refl v.timed;
  waiting = λ j m. ground (arith, v.waiting j, v.holds core cur now);
  holds = λ c j e ne. ground (arith, v.holds c j, v.holds core cur now);
  runs = λ j e. ground (arith, v.runs j, v.holds core cur now);
}

-- The current task of a core is in no queue, and has no timer.
pub current-unqueued :
    {s : Sched} (core cur : ℕ)
    → s.current core ≡ some cur
    → Inv s
    → ((s.task cur).current_queue ≡ none)
      × (mem cur s.timers ≡ false)
      × (mem cur s.tasks ≡ true)
      × ((s.task cur).state ≡ running)
current-unqueued {s} core cur now v =
    ground (arith, v.placed cur, v.waiting cur, v.holds core cur now)

suspend_other-Queued :
    {s : Sched} (core cur t : ℕ)
    → s.current core ≡ some cur
    → t ≢ cur
    → Inv s
    → Queued (suspend_other cur t s)
unfolding suspend_other queue_remove timer_remove
suspend_other-Queued {s} core cur t now ne v =
    queue_push-Queued ready_queue cur (ground (arith, current-unqueued core cur now v)) (
      set_task-Queued cur _ refl refl
        (set_task-Queued t _ refl refl (timer_remove-Queued t (queue_remove-Queued t v.queued))))

suspend_other-Timed : {s : Sched} (cur t : ℕ) → Timed s → Timed (suspend_other cur t s)
unfolding suspend_other
suspend_other-Timed cur t v = queue_push-Timed ready_queue cur (
    set_task-Timed cur _ refl
      (set_task-Timed t _ refl (timer_remove-Timed t (queue_remove-Timed t v))))

suspend_other-Leaving :
    {s : Sched} (core cur t : ℕ)
    → s.current core ≡ some cur
    → t ≢ cur
    → mem t s.tasks ≡ true
    → (s.task t).state ≢ running
    → Inv s
    → Leaving core cur (suspend_other cur t s)
unfolding suspend_other queue_push queue_remove timer_remove
suspend_other-Leaving {s} core cur t now ne here still v = record {
  queued = suspend_other-Queued core cur t now ne v;
  placed = λ j. ground (arith, v.placed j, v.holds core cur now);
  timed = suspend_other-Timed cur t v.timed;
  waiting = λ j m. ground (arith, v.waiting j, v.holds core cur now, mem-erase j t s.timers);
  holds = λ c j e nc. ground (arith, v.holds c j, v.holds core cur now);
  runs = λ j e. ground (arith, v.runs j, v.holds core cur now);
}

suspended-waits :
    {s : Sched} (core cur t : ℕ)
    → s.current core ≡ some cur
    → mem t s.tasks ≡ true
    → Inv s
    → (waits (phase (suspend_self cur s) cur) ≡ true)
      × (t ≢ cur → waits (phase (suspend_other cur t s) t) ≡ true)
unfolding suspend_self suspend_other queue_push queue_remove timer_remove
suspended-waits {s} core cur t now here v =
    (ground (arith, v.holds core cur now), λ ne. ground (arith, v.holds core cur now))

suspend_task-Leaving :
    {s : Sched} (core cur t ticks : ℕ)
    → s.current core ≡ some cur
    → ((s.task t).state ≡ running → t ≡ cur)
    → mem t s.tasks ≡ true
    → Inv s
    → Leaving core cur
        (timer_if_needed t ticks (if t == cur then suspend_self cur s else suspend_other cur t s))
suspend_task-Leaving {s} core cur t ticks now quiet here v = elim (Bool-cases (t == cur)) [
  | inl e ↦
      let same : t ≡ cur = ground arith in
      rw (e, same)
        (timer_if_needed-Leaving core cur cur ticks (suspended-waits core cur t now here v).0
          (suspend_self-Leaving core cur now v))
  | inr e ↦ rw e (
      timer_if_needed-Leaving core cur t ticks
        ((suspended-waits core cur t now here v).1 (ground arith))
        (suspend_other-Leaving core cur t now (ground arith) here (λ r. ground (arith, quiet r)) v))
]

-- A suspension by the core's current task keeps the invariant, if the suspended task is the
-- caller or does not run.
pub suspend_svc-Inv :
    {s : Sched} (core cur t ticks : ℕ)
    → s.current core ≡ some cur
    → ((s.task t).state ≡ running → t ≡ cur)
    → Inv s
    → Inv (suspend_svc core t ticks s).1
unfolding suspend_svc
suspend_svc-Inv {s} core cur t ticks now quiet v = elim (alive-cases t s) [
  | inr dead ↦ rw dead v
  | inl (here, alive) ↦
      rw (alive, now)
        (switch_away-Inv core cur (done 0) (suspend_task-Leaving core cur t ticks now quiet here v))
]
