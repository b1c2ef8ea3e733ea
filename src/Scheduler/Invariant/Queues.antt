-- ===== src/Scheduler/Invariant/Queues.antt =====
-- The operations on queues keep them in step with the tasks.
use pico_toolkit.Base.{
  ℕ, ◌≡◌, refl, sym, subst, none, ◌==◌, arith, erase, mem-erase, erase-Distinct, Bool-cases,
  Option-cases, inl, inr,
}
use pico_toolkit.Scheduler.Queue.{enqueue}
use pico_toolkit.Scheduler.Queue.Order.{
  mem-enqueue, enqueue-Distinct, enqueue-Sorted, erase-Sorted, Sorted-congr,
}
use pico_toolkit.Scheduler.State.{
  Sched, Task, priority_of, queue_remove, queue_push, reprioritize, requeue, with_priority,
  set_task, timer_remove, timer_push,
}
use pico_toolkit.Scheduler.Invariant.{Queued}

-- A change that leaves the queues, and of each task the queue and the priority.
pub Queued-frame :
    {s r : Sched}
    → ((q : ℕ) → r.queue q ≡ s.queue q)
    → ((t : ℕ) → (r.task t).current_queue ≡ (s.task t).current_queue)
    → ((t : ℕ) → priority_of r t ≡ priority_of s t)
    → Queued s
    → Queued r
Queued-frame {s} {r} same_queue same_place same_priority v = record {
  linked = λ q t. ground (arith, same_queue q, same_place t, v.linked q t);
  distinct = λ q. rw (same_queue q) (v.distinct q);
  sorted = λ q. rw (same_queue q) (
      Sorted-congr (priority_of s) (priority_of r) (s.queue q) (λ j m. sym (same_priority j))
        (v.sorted q));
}

pub queue_remove-Queued : {s : Sched} (t : ℕ) → Queued s → Queued (queue_remove t s)
unfolding queue_remove
queue_remove-Queued {s} t v = record {
  linked = λ q j. ground (arith, mem-erase j t (s.queue q), v.linked q j);
  distinct = λ q. erase-Distinct t (s.queue q) (v.distinct q);
  sorted = λ q.
      Sorted-congr (priority_of s) _ (erase t (s.queue q)) (λ j m. ground arith)
        (erase-Sorted (priority_of s) t (s.queue q) (v.sorted q));
}

-- A task may be pushed that is in no queue.
pub queue_push-Queued :
    {s : Sched} (q t : ℕ) → (s.task t).current_queue ≡ none → Queued s → Queued (queue_push q t s)
unfolding queue_push
queue_push-Queued {s} q t e v = record {
  linked = λ p j. ground (arith, mem-enqueue (priority_of s) j t (s.queue q), v.linked p j);
  distinct = λ p. elim (Bool-cases (q == p)) [
    | inl h ↦ rw h (
        enqueue-Distinct (priority_of s) t (s.queue q) (ground (arith, v.linked q t))
          (v.distinct q))
    | inr h ↦ rw h (v.distinct p)
  ];
  sorted = λ p. elim (Bool-cases (q == p)) [
    | inl h ↦ rw h (
        Sorted-congr (priority_of s) _ (enqueue (priority_of s) t (s.queue q)) (λ j m. ground arith)
          (enqueue-Sorted (priority_of s) t (s.queue q) (v.sorted q)))
    | inr h ↦ rw h (Sorted-congr (priority_of s) _ (s.queue p) (λ j m. ground arith) (v.sorted p))
  ];
}

-- A new priority for a task that is in no queue.
set_priority-Queued :
    {s : Sched} (t p : ℕ)
    → (s.task t).current_queue ≡ none
    → Queued s
    → Queued (set_task t (record (s.task t) { current_priority = p }) s)
set_priority-Queued {s} t p e v = record {
  linked = λ q j. ground (arith, v.linked q j);
  distinct = v.distinct;
  sorted = λ q.
      Sorted-congr (priority_of s) _ (s.queue q) (λ j m. ground (arith, v.linked q t, v.linked q j))
        (v.sorted q);
}

-- A task that changes its priority keeps its queue, in order.
pub reprioritize-Queued : {s : Sched} (t p : ℕ) → Queued s → Queued (reprioritize t p s)
unfolding reprioritize queue_remove
reprioritize-Queued {s} t p v = elim (Option-cases (s.task t).current_queue) [
  | inl e ↦
      subst (λ o. Queued (requeue o t (with_priority t p s))) (sym e) (set_priority-Queued t p e v)
  | inr (q, e) ↦
      subst (λ o. Queued (requeue o t (with_priority t p s))) (sym e)
        (queue_push-Queued q t (ground arith) (
          Queued-frame {s = with_priority t p (queue_remove t s)} (λ q. refl) (λ j. ground arith)
            (λ j. ground arith)
            (set_priority-Queued {s = queue_remove t s} t p (ground arith)
              (queue_remove-Queued t v))))
]

-- A change of a task that leaves its queue and its priority.
pub set_task-Queued :
    {s : Sched} (t : ℕ) (u : Task)
    → u.current_queue ≡ (s.task t).current_queue
    → u.current_priority ≡ (s.task t).current_priority
    → Queued s
    → Queued (set_task t u s)
set_task-Queued {s} t u e p v = Queued-frame (λ q. refl) (λ j. ground arith) (λ j. ground arith) v

pub timer_remove-Queued : {s : Sched} (t : ℕ) → Queued s → Queued (timer_remove t s)
unfolding timer_remove
timer_remove-Queued t v = Queued-frame (λ q. refl) (λ j. refl) (λ j. refl) v

pub timer_push-Queued : {s : Sched} (t delay : ℕ) → Queued s → Queued (timer_push t delay s)
unfolding timer_push
timer_push-Queued t delay v = Queued-frame (λ q. refl) (λ j. ground arith) (λ j. ground arith) v
