-- ===== src/Scheduler/Invariant/Timers.antt =====
-- The timer list: in order, and without wrap-around.
use pico_toolkit.Base.{
  ℕ, ◌≡◌, refl, sym, ◌∙◌, Option, none, some, List, [], ◌∷◌, arith, erase, mem-erase,
  erase-Distinct,
}
use pico_toolkit.Scheduler.Queue.Order.{
  enqueue-Distinct, enqueue-Sorted, erase-Sorted, Sorted-congr,
}
use pico_toolkit.Scheduler.State.{
  Sched, Task, expiry_of, closest, timer_push, timer_remove, set_task, queue_remove, queue_push,
  reprioritize, requeue, with_priority,
}
use pico_toolkit.Scheduler.Invariant.{Timed}

closest-congr : (f g : ℕ → ℕ) (xs : List ℕ) → ((j : ℕ) → f j ≡ g j) → closest f xs ≡ closest g xs
closest-congr f g [] e = refl
closest-congr f g (x ∷ xs) e = e x

-- A change that leaves the timer list, and each task's time.
pub Timed-frame :
    {s r : Sched}
    → r.timers ≡ s.timers
    → r.timer_expires ≡ s.timer_expires
    → ((t : ℕ) → expiry_of r t ≡ expiry_of s t)
    → Timed s
    → Timed r
Timed-frame {s} {r} same_list same_next same_time v = record {
  once = rw same_list v.once;
  in_order =
      rw same_list
        (Sorted-congr (expiry_of s) (expiry_of r) s.timers (λ j m. sym (same_time j)) v.in_order);
  next_expiry =
      rw (same_list, same_next)
        (v.next_expiry
          ∙ closest-congr (expiry_of s) (expiry_of r) s.timers (λ j. sym (same_time j)));
}

pub timer_remove-Timed : {s : Sched} (t : ℕ) → Timed s → Timed (timer_remove t s)
unfolding timer_remove
timer_remove-Timed {s} t v = record {
  once = erase-Distinct t s.timers v.once;
  in_order = erase-Sorted (expiry_of s) t s.timers v.in_order;
  next_expiry = refl;
}

pub timer_push-Timed : {s : Sched} (t delay : ℕ) → Timed s → Timed (timer_push t delay s)
unfolding timer_push
timer_push-Timed {s} t delay v = record {
  once =
      enqueue-Distinct _ t (erase t s.timers) (ground (arith, mem-erase t t s.timers))
        (erase-Distinct t s.timers v.once);
  in_order = enqueue-Sorted _ t (erase t s.timers) (
      Sorted-congr (expiry_of s) _ (erase t s.timers)
        (λ j m. ground (arith, mem-erase j t s.timers))
        (erase-Sorted (expiry_of s) t s.timers v.in_order));
  next_expiry = refl;
}

pub queue_remove-Timed : {s : Sched} (t : ℕ) → Timed s → Timed (queue_remove t s)
unfolding queue_remove
queue_remove-Timed t v = Timed-frame refl refl (λ j. ground arith) v

pub queue_push-Timed : {s : Sched} (q t : ℕ) → Timed s → Timed (queue_push q t s)
unfolding queue_push
queue_push-Timed q t v = Timed-frame refl refl (λ j. ground arith) v

pub set_task-Timed :
    {s : Sched} (t : ℕ) (u : Task)
    → u.timer_expires ≡ (s.task t).timer_expires
    → Timed s
    → Timed (set_task t u s)
set_task-Timed {s} t u e v = Timed-frame refl refl (λ j. ground arith) v

pub reprioritize-Timed : {s : Sched} (t p : ℕ) → Timed s → Timed (reprioritize t p s)
unfolding reprioritize
reprioritize-Timed {s} t p v = go (s.task t).current_queue
  where
    w : Timed (with_priority t p s)
    w = set_task-Timed t (record (s.task t) { current_priority = p }) refl v

    go : (o : Option ℕ) → Timed (requeue o t (with_priority t p s))
    go none = w
    go (some q) = queue_push-Timed q t (queue_remove-Timed t w)
