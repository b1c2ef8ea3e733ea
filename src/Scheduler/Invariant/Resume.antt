-- ===== src/Scheduler/Invariant/Resume.antt =====
-- Resuming a task keeps the invariant.
use pico_toolkit.Base.{
  ℕ, ◌≡◌, refl, Bool, true, false, arith, mem, mem-erase, ◌==◌, ◌⊎◌, inl, inr, Bool-cases,
}
use pico_toolkit.Scheduler.State.{
  Sched, TaskState, blocked, suspended, done, failed, queue_remove, queue_push, timer_remove,
  request_switch, task_alive, ready_queue, esrch,
}
use pico_toolkit.Scheduler.Service.{ready_again, resume_in, resume_svc}
use pico_toolkit.Scheduler.Invariant.{Queued, Timed, Inv, phase, waits}
use pico_toolkit.Scheduler.Invariant.Queues.{
  Queued-frame, queue_remove-Queued, queue_push-Queued, set_task-Queued, timer_remove-Queued,
}
use pico_toolkit.Scheduler.Invariant.Timers.{
  Timed-frame, timer_remove-Timed, queue_remove-Timed, queue_push-Timed, set_task-Timed,
}

pub request_switch-Inv : {s : Sched} (core : ℕ) → Inv s → Inv (request_switch core s)
unfolding request_switch
request_switch-Inv {s} core v = elim (Bool-cases (core == 0xffffffff)) [
  | inl e ↦ rw e v
  | inr e ↦ rw e (record {
    queued = Queued-frame (λ q. refl) (λ t. refl) (λ t. refl) v.queued;
    placed = v.placed;
    timed = Timed-frame refl refl (λ t. refl) v.timed;
    waiting = v.waiting;
    holds = v.holds;
    runs = v.runs;
  })
]

ready_again-Queued : {s : Sched} (t : ℕ) (b : Bool) → Queued s → Queued (ready_again t b s)
unfolding ready_again queue_remove
ready_again-Queued {s} t b v =
    let w = queue_remove-Queued t (timer_remove-Queued t v) in
    elim b as (λ b. Queued (ready_again t b s)) [
      | true ↦
          queue_push-Queued ready_queue t (ground arith)
            (set_task-Queued t _ (ground arith) (ground arith) (set_task-Queued t _ refl refl w))
      | false ↦ queue_push-Queued ready_queue t (ground arith) (set_task-Queued t _ refl refl w)
    ]

ready_again-Timed : {s : Sched} (t : ℕ) (b : Bool) → Timed s → Timed (ready_again t b s)
unfolding ready_again queue_remove
ready_again-Timed {s} t b v =
    let w = queue_remove-Timed t (timer_remove-Timed t v) in
    elim b as (λ b. Timed (ready_again t b s)) [
      | true ↦
          queue_push-Timed ready_queue t
            (set_task-Timed t _ (ground arith) (set_task-Timed t _ refl w))
      | false ↦ queue_push-Timed ready_queue t (set_task-Timed t _ refl w)
    ]

ready_again-Inv :
    {s : Sched} (t : ℕ) (was_blocked : Bool)
    → waits (phase s t) ≡ true
    → Inv s
    → Inv (ready_again t was_blocked s)
unfolding ready_again queue_push queue_remove timer_remove
ready_again-Inv {s} t b w v = record {
  queued = ready_again-Queued t b v.queued;
  placed = λ j. ground (arith, v.placed j);
  timed = ready_again-Timed t b v.timed;
  waiting = λ j m. ground (arith, v.waiting j, mem-erase j t s.timers);
  holds = λ c j e. ground (arith, v.holds c j);
  runs = λ j e. ground (arith, v.runs j);
}

resume_in-Inv :
    {s : Sched} (p : TaskState) (t : ℕ)
    → (s.task t).state ≡ p
    → mem t s.tasks ≡ true
    → Inv s
    → Inv (resume_in p t s).1
unfolding ready_again
resume_in-Inv {s} blocked t e here v = ready_again-Inv t true (ground arith) v
resume_in-Inv {s} suspended t e here v = ready_again-Inv t false (ground arith) v
resume_in-Inv {s} _ t e here v = v

pub alive-cases :
    (t : ℕ) (s : Sched)
    → ((mem t s.tasks ≡ true) × (task_alive t s ≡ done 0)) ⊎ (task_alive t s ≡ failed esrch)
unfolding task_alive
alive-cases t s = ground arith

-- A resume keeps the invariant, whatever the state of the task.
pub resume_svc-Inv : {s : Sched} (core t : ℕ) → Inv s → Inv (resume_svc core t s).1
unfolding resume_svc
resume_svc-Inv {s} core t v = elim (alive-cases t s) [
  | inr dead ↦ rw dead v
  | inl (here, alive) ↦
      rw alive (request_switch-Inv core (resume_in-Inv (s.task t).state t refl here v))
]
