-- ===== src/Scheduler/Invariant/Frame.antt =====
-- Changes that leave each task in its state and place: priorities, words and owned futexes.
use pico_toolkit.Base.{ℕ, ◌≡◌, refl, ◌∙◌, sym, Option, none, some, arith}
use pico_toolkit.Scheduler.State.{
  Sched, queue_remove, queue_push, reprioritize, requeue, with_priority,
}
use pico_toolkit.Scheduler.Invariant.{Queued, Timed, Inv, phase}
use pico_toolkit.Scheduler.Invariant.Queues.{reprioritize-Queued}
use pico_toolkit.Scheduler.Invariant.Timers.{reprioritize-Timed}
use pico_toolkit.Scheduler.Invariant.Suspend.{Leaving}

pub record SameShape (s r : Sched) : Type 0 where
  pub same_tasks : r.tasks ≡ s.tasks
  pub same_timers : r.timers ≡ s.timers
  pub same_current : (c : ℕ) → r.current c ≡ s.current c
  pub same_state : (t : ℕ) → (r.task t).state ≡ (s.task t).state
  pub same_core : (t : ℕ) → (r.task t).core ≡ (s.task t).core
  pub same_place : (t : ℕ) → (r.task t).current_queue ≡ (s.task t).current_queue

pub SameShape-refl : (s : Sched) → SameShape s s
SameShape-refl s = record {
  same_tasks = refl;
  same_timers = refl;
  same_current = λ c. refl;
  same_state = λ t. refl;
  same_core = λ t. refl;
  same_place = λ t. refl;
}

pub SameShape-trans : {s r u : Sched} → SameShape s r → SameShape r u → SameShape s u
SameShape-trans p q = record {
  same_tasks = q.same_tasks ∙ p.same_tasks;
  same_timers = q.same_timers ∙ p.same_timers;
  same_current = λ c. q.same_current c ∙ p.same_current c;
  same_state = λ t. q.same_state t ∙ p.same_state t;
  same_core = λ t. q.same_core t ∙ p.same_core t;
  same_place = λ t. q.same_place t ∙ p.same_place t;
}

phase_same : {s r : Sched} → SameShape s r → (t : ℕ) → phase r t ≡ phase s t
phase_same {s} {r} p t = rw (p.same_tasks, p.same_state t) refl

pub Inv-frame : {s r : Sched} → SameShape s r → Queued r → Timed r → Inv s → Inv r
Inv-frame {s} {r} p q i v = record {
  queued = q;
  placed = λ t. rw (phase_same p t, p.same_place t) (v.placed t);
  timed = i;
  waiting = λ t m. rw (phase_same p t) (v.waiting t (rw (← p.same_timers) m));
  holds = λ c t e. rw (phase_same p t, p.same_core t) (v.holds c t (sym (p.same_current c) ∙ e));
  runs = λ t e.
      rw (p.same_core t) (p.same_current (s.task t).core ∙ v.runs t (sym (phase_same p t) ∙ e));
}

pub Leaving-frame :
    {core cur : ℕ} {s r : Sched}
    → SameShape s r
    → Queued r
    → Timed r
    → Leaving core cur s
    → Leaving core cur r
Leaving-frame {core} {cur} {s} {r} p q i v = record {
  queued = q;
  placed = λ t. rw (phase_same p t, p.same_place t) (v.placed t);
  timed = i;
  waiting = λ t m. rw (phase_same p t) (v.waiting t (rw (← p.same_timers) m));
  holds =
      λ c t e ne. rw (phase_same p t, p.same_core t) (v.holds c t (sym (p.same_current c) ∙ e) ne);
  runs = λ t e.
      let w = v.runs t (sym (phase_same p t) ∙ e) in
      rw (p.same_core t) (p.same_current (s.task t).core ∙ w.0, w.1);
}

pub reprioritize-SameShape : (s : Sched) (t p : ℕ) → SameShape s (reprioritize t p s)
unfolding reprioritize queue_push queue_remove
reprioritize-SameShape s t p = go (s.task t).current_queue refl
  where
    go :
        (o : Option ℕ)
        → (s.task t).current_queue ≡ o
        → SameShape s (requeue o t (with_priority t p s))
    go none e = record {
      same_tasks = refl;
      same_timers = refl;
      same_current = λ c. refl;
      same_state = λ j. ground arith;
      same_core = λ j. ground arith;
      same_place = λ j. ground arith;
    }
    go (some q) e = record {
      same_tasks = refl;
      same_timers = refl;
      same_current = λ c. refl;
      same_state = λ j. ground arith;
      same_core = λ j. ground arith;
      same_place = λ j. ground arith;
    }

-- A new priority keeps the invariant.
pub reprioritize-Inv : {s : Sched} (t p : ℕ) → Inv s → Inv (reprioritize t p s)
reprioritize-Inv {s} t p v =
    Inv-frame (reprioritize-SameShape s t p) (reprioritize-Queued t p v.queued)
      (reprioritize-Timed t p v.timed) v

pub reprioritize-Leaving :
    {core cur : ℕ} {s : Sched} (t p : ℕ)
    → Leaving core cur s
    → Leaving core cur (reprioritize t p s)
reprioritize-Leaving {s = s} t p v =
    Leaving-frame (reprioritize-SameShape s t p) (reprioritize-Queued t p v.queued)
      (reprioritize-Timed t p v.timed) v
