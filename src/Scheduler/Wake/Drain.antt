-- ===== src/Scheduler/Wake/Drain.antt =====
-- A wake of all waiters wakes each of them, and what a new owner inherits.
use pico_toolkit.Base.{
  ℕ, zero, suc, ◌+◌, ◌≤◌, ◌<◌, ◌≡◌, ◌≢◌, refl, sym, ap, ◌∙◌, subst, Bool, true, false, none, List,
  [], ◌∷◌, arith, if◌then◌else◌, update, erase, erase_of_not_mem, Distinct, length, has_any, inl,
  inr, List-cases,
}
use pico_toolkit.Scheduler.State.{
  Sched, queue_remove, queue_push, timer_remove, reprioritize, requeue, with_priority, priority_of,
  owner_tracking, futex_pi, ready_queue, set_state, ready,
}
use pico_toolkit.Scheduler.Queue.{highest_priority}
use pico_toolkit.Scheduler.Wake.{inherit, wake_one, wake_loop}

-- What a change for the new owner leaves: the queue of the futex and its flags.
record Steady (f : ℕ) (s r : Sched) : Type 0 where
  same_queue : r.queue f ≡ s.queue f
  same_flags : (r.futex f).flags ≡ (s.futex f).flags

Steady-trans : {f : ℕ} {s u r : Sched} → Steady f s u → Steady f u r → Steady f s r
Steady-trans k l = record {
  same_queue = l.same_queue ∙ k.same_queue;
  same_flags = l.same_flags ∙ k.same_flags;
}

reprioritize-free :
    (f t p : ℕ) (s : Sched) → (s.task t).current_queue ≡ none → Steady f s (reprioritize t p s)
unfolding reprioritize
reprioritize-free f t p s e =
    subst (λ o. Steady f s (requeue o t (with_priority t p s))) (sym e)
      (record { same_queue = refl; same_flags = refl })

inherit-Steady :
    (f t : ℕ) (ws : List ℕ) (s : Sched)
    → (s.task t).current_queue ≡ none
    → Steady f s (inherit f t ws s)
unfolding inherit
inherit-Steady f t [] s e = record { same_queue = refl; same_flags = refl }
inherit-Steady f t (w ∷ ws) s e =
    Steady-trans (record { same_queue = refl; same_flags = ground arith })
      (reprioritize-free f t _ _ e)

made_ready-Steady :
    (f t : ℕ) (s : Sched)
    → f ≢ ready_queue
    → Steady f s (queue_push ready_queue t (set_state t ready (timer_remove t s)))
unfolding queue_push timer_remove
made_ready-Steady f t s nf = record { same_queue = ground arith; same_flags = refl }

wake_one-Steady :
    (f t : ℕ) (s : Sched)
    → f ≢ ready_queue
    → (s.task t).current_queue ≡ none
    → Steady f s (wake_one f t s)
unfolding wake_one
wake_one-Steady f t s nf e =
    Steady-trans
      (go (has_any (s.futex f).flags owner_tracking) (has_any (s.futex f).flags futex_pi))
      (made_ready-Steady f t _ nf)
  where
    s1 : Bool → Sched
    s1 b = if b then record s { word = update s.word (s.futex f).value t } else s

    go : (b c : Bool) → Steady f s (if c then inherit f t ((s1 b).queue f) (s1 b) else s1 b)
    go true true =
        Steady-trans {s = s} {u = s1 true} (record { same_queue = refl; same_flags = refl })
          (inherit-Steady f t ((s1 true).queue f) (s1 true) e)
    go false true = inherit-Steady f t (s.queue f) s e
    go true false = record { same_queue = refl; same_flags = refl }
    go false false = record { same_queue = refl; same_flags = refl }

-- The task at the head leaves the queue, and the futex keeps its flags.
step-queue :
    (f t : ℕ) (ts : List ℕ) (s : Sched)
    → f ≢ ready_queue
    → s.queue f ≡ t ∷ ts
    → Distinct (s.queue f)
    → ((wake_one f t (queue_remove t s)).queue f ≡ ts)
      × (((wake_one f t (queue_remove t s)).futex f).flags ≡ (s.futex f).flags)
unfolding queue_remove
step-queue f t ts s nf e d =
    let k = wake_one-Steady f t (queue_remove t s) nf (ground arith) in
    let once : Distinct (t ∷ ts) = subst Distinct e d in
    (k.same_queue ∙ ap (erase t) e ∙ ground (arith, erase_of_not_mem t ts once.0), k.same_flags)

-- A wake of all waiters of a futex that is not null and does not track its owner leaves none in
-- the queue, if they are distinct, and counts each of them, on fuel of at least their number.
pub wake_loop-all :
    (fuel f woken : ℕ) (s : Sched)
    → f ≢ ready_queue
    → has_any (s.futex f).flags owner_tracking ≡ false
    → Distinct (s.queue f)
    → length (s.queue f) ≤ fuel
    → ((wake_loop fuel f true woken s).1.queue f ≡ [])
      × ((wake_loop fuel f true woken s).0 ≡ woken + length (s.queue f))
unfolding wake_loop
wake_loop-all zero f woken s nf untracked d le = elim (List-cases (s.queue f)) [
  | inl e ↦ (e, ground (arith, e))
  | inr (t, ts, e) ↦ absurd (ground (arith, ap length e, le))
]
wake_loop-all (suc fuel) f woken s nf untracked d le = elim (List-cases (s.queue f)) [
  | inl e ↦ rw (e, wake_loop) (e, ground (arith))
  | inr (t, ts, e) ↦
      let (left, flags) = step-queue f t ts s nf e d in
      let r : Sched = wake_one f t (queue_remove t s) in
      let once : Distinct (t ∷ ts) = subst Distinct e d in
      let short : suc (length ts) ≤ suc fuel = subst (λ xs. length xs ≤ suc fuel) e le in
      let rest =
        wake_loop-all fuel f (woken + 1) r nf (ap (λ x. has_any x owner_tracking) flags ∙ untracked)
          (subst Distinct (sym left) once.1) (rw left (omega (arith, short))) in
      rw (e, wake_loop, untracked) (rest.0, rest.1 ∙ rw left (omega arith))
]

reprioritize-priority :
    (t p : ℕ) (s : Sched) → (s.task t).current_queue ≡ none → priority_of (reprioritize t p s) t ≡ p
unfolding reprioritize
reprioritize-priority t p s e =
    subst (λ o. priority_of (requeue o t (with_priority t p s)) t ≡ p) (sym e) (ground arith)

-- A woken task in no queue that takes over a futex with waiters left, and is more urgent than the
-- first of them, gets the priority of that one, and so is less urgent than before.
pub inherit-lowers :
    (f t w : ℕ) (ws : List ℕ) (s : Sched)
    → (s.task t).current_queue ≡ none
    → priority_of s t < priority_of s w
    → (priority_of (inherit f t (w ∷ ws) s) t ≡ priority_of s w)
      × (priority_of s t < priority_of (inherit f t (w ∷ ws) s) t)
unfolding inherit highest_priority
inherit-lowers f t w ws s e lt =
    let same : priority_of (inherit f t (w ∷ ws) s) t ≡ priority_of s w =
      reprioritize-priority t _ _ e in
    (same, subst (λ p. priority_of s t < p) (sym same) lt)
