-- ===== src/Scheduler/Invariant/Switch.antt =====
-- The context switch keeps the invariant, and its core runs the task that it dispatches.
use pico_toolkit.Base.{
  ℕ, ◌≤◌, ◌≡◌, ◌≢◌, refl, Bool, true, false, Option, none, some, List, [], ◌∷◌, arith, mem, ◌==◌,
  inl, inr, ◌⊎◌, Bool-cases, Option-cases, All, is_negative,
}
use pico_toolkit.Scheduler.State.{
  Sched, ready, queue_remove, queue_pop, can_run, ready_queue, check_stack, priority_of, take_task,
}
use pico_toolkit.Scheduler.Queue.{uint32_max, first_eligible}
use pico_toolkit.Scheduler.Queue.Order.{first_eligible-urgent, first_eligible-mem}
use pico_toolkit.Scheduler.Switch.{
  Round, dispatched, shut_down, idles, dispatch, choose, max_deferred_wake, round, rounds,
  switch_from, switch,
}
use pico_toolkit.Scheduler.Invariant.{Inv, phase}
use pico_toolkit.Scheduler.Invariant.Expiry.{
  Vacant, Slot, deferred_wakes-Vacant, expire_timers-Vacant,
}
use pico_toolkit.Scheduler.Invariant.Dispatch.{
  Taken, Outcome, preempt-Vacant, vacate-Vacant, take_task-Taken, evict-Vacant, started-Outcome,
  or_idle-Outcome, kick_others-keeps, request_switch-Outcome,
}

take_first-cases :
    (test : ℕ → Bool) (s : Sched) (xs : List ℕ)
    → (take_task s (first_eligible test xs) ≡ (none, s))
      ⊎ ((t : ℕ) × (mem t xs ≡ true)
          × (take_task s (first_eligible test xs) ≡ (some t, queue_remove t s)))
take_first-cases test s xs = elim (Option-cases (first_eligible test xs)) [
  | inl e ↦ inl (rw e refl)
  | inr (t, e) ↦ inr (t, first_eligible-mem test xs t e, rw e refl)
]

queue_pop-cases :
    (core : ℕ) (s : Sched)
    → (queue_pop ready_queue core s ≡ (none, s))
      ⊎ ((t : ℕ) × (mem t (s.queue ready_queue) ≡ true)
          × (queue_pop ready_queue core s ≡ (some t, queue_remove t s)))
unfolding queue_pop
queue_pop-cases core s = elim (Bool-cases (core == uint32_max)) [
  | inl e ↦ rw e (take_first-cases (λ t. true) s (s.queue ready_queue))
  | inr e ↦ rw e (take_first-cases (can_run s core) s (s.queue ready_queue))
]

dispatch-Outcome :
    {s : Sched} (num_cores core : ℕ) (last : Option ℕ) (t : ℕ)
    → Taken core t s
    → Outcome core (dispatched t (dispatch num_cores core last t s))
unfolding dispatch
dispatch-Outcome {s} num_cores core last t k =
    kick_others-keeps (λ r. Inv r × (r.current core ≡ some t)) num_cores core
      (request_switch-Outcome core t) (started-Outcome core t _ k)

-- A round ends with a task or with a vacant core.
chosen-Outcome :
    {s : Sched} (num_cores core : ℕ) (last : Option ℕ) (t : ℕ)
    → Taken core t s
    → Outcome core (choose num_cores core last (some t, s))
unfolding choose
chosen-Outcome {s} num_cores core last t k = elim (Bool-cases (check_stack (s.task t))) [
  | inl e ↦ rw e (dispatch-Outcome num_cores core last t k)
  | inr e ↦ rw e (or_idle-Outcome core (evict-Vacant core t k))
]

choose-Outcome :
    {s : Sched} (num_cores core : ℕ) (last : Option ℕ)
    → Vacant core s
    → Outcome core (choose num_cores core last (queue_pop ready_queue core s))
unfolding choose
choose-Outcome {s} num_cores core last w = elim (queue_pop-cases core s) [
  | inl e ↦ rw e (or_idle-Outcome core w)
  | inr (t, here, e) ↦
      let k = take_task-Taken core t here w in rw e (chosen-Outcome num_cores core last t k)
]

pub round-Outcome :
    {s : Sched} (num_cores core : ℕ) (last : Option ℕ)
    → Vacant core s
    → Outcome core (round num_cores core last s)
unfolding round
round-Outcome {s} num_cores core last w =
    choose-Outcome num_cores core last
      (expire_timers-Vacant _ core (deferred_wakes-Vacant max_deferred_wake core 0 w))

-- Whatever else happens while the core idles keeps the core vacant and the invariant.
abbrev pub Harmless : ℕ → (Sched → Sched) → Type 0
Harmless core other = (r : Sched) → Vacant core r → Vacant core (other r)

rounds-Outcome :
    {s : Sched} (num_cores core : ℕ) (last : Option ℕ) (others : List (Sched → Sched))
    → All (Harmless core) others
    → Vacant core s
    → Outcome core (rounds num_cores core last others s)
unfolding rounds
rounds-Outcome num_cores core last [] h w = round-Outcome num_cores core last w
rounds-Outcome {s} num_cores core last (other ∷ others) (h, hs) w =
    go (λ s1 o. rounds-Outcome num_cores core last others hs (h s1 o)) (round num_cores core last s)
      (round-Outcome num_cores core last w)
  where
    go :
        ((s1 : Sched)
          → Vacant core s1
          → Outcome core (rounds num_cores core last others (other s1)))
        → (r : Round) → Outcome core r
        → Outcome core (elim r [
          | dispatched t s1 ↦ dispatched t s1
          | shut_down s1 ↦ shut_down s1
          | idles s1 ↦ rounds num_cores core last others (other s1)
        ])
    go next (dispatched t s1) o = o
    go next (shut_down s1) o = o
    go next (idles s1) o = next s1 o

-- From a state with the invariant, in which the core's slots of deferred wakes are empty or name
-- futexes, a context switch keeps the invariant and ends with the task that its core runs, or
-- with a vacant core, if what others do while the core idles keeps the invariant and the core
-- vacant.
pub switch-Inv :
    {s : Sched} (num_cores core : ℕ) (others : List (Sched → Sched))
    → All (Harmless core) others
    → All Slot (s.deferred_wake core)
    → Inv s
    → Outcome core (switch num_cores core others s)
unfolding switch switch_from
switch-Inv {s} num_cores core others h slots v = go (s.current core) refl
  where
    go : (o : Option ℕ) → s.current core ≡ o → Outcome core (switch_from num_cores core others s o)
    go none e = rounds-Outcome num_cores core none others h (vacate-Vacant core e slots v)
    go (some t) e = elim (Bool-cases (is_negative s.locked)) [
      | inl l ↦ rw l (v, e)
      | inr l ↦
          rw l (rounds-Outcome num_cores core (some t) others h (preempt-Vacant core t e slots v))
    ]

-- With the invariant, the task that a core takes from the ready queue is ready, can run on that
-- core, and is as urgent as any other ready task that can.
pub queue_pop-most_urgent :
    {s r : Sched} (core t : ℕ)
    → core ≢ uint32_max
    → Inv s
    → queue_pop ready_queue core s ≡ (some t, r)
    → (phase s t ≡ ready)
      × (can_run s core t ≡ true)
      × ((j : ℕ) → phase s j ≡ ready → can_run s core j ≡ true → priority_of s t ≤ priority_of s j)
unfolding queue_pop
queue_pop-most_urgent {s} {r} core t nm v e =
    let off : (core == uint32_max) ≡ false = ground arith in
    let take : take_task s (first_eligible (can_run s core) (s.queue ready_queue)) ≡ (some t, r) =
      ground (arith, e) in
    elim (Option-cases (first_eligible (can_run s core) (s.queue ready_queue))) [
      | inl none_left ↦ absurd (ground (arith, take))
      | inr (y, found) ↦
          let same : y ≡ t = ground (arith, take) in
          let (here, can, least) =
            first_eligible-urgent (priority_of s) (can_run s core) (s.queue ready_queue) t
              (v.queued.sorted ready_queue) (ground arith) in
          (
            ground (arith, v.queued.linked ready_queue t, v.placed t),
            can,
            λ j f c. least j (ground (arith, v.queued.linked ready_queue j, v.placed j)) c,
          )
    ]
