-- ===== src/Scheduler/Api/Laws.antt =====
-- What the functions of the scheduler's interface promise.
use pico_toolkit.Base.{
  ℕ, ◌≤◌, ◌<◌, ◌≡◌, ◌≢◌, refl, ◌∙◌, Bool, true, false, Option, none, some, List, [], ◌∷◌, arith,
  ◌==◌, update, inl, inr, Bool-cases, mem, mem-append, has_any, increment-decrement, length,
}
use pico_toolkit.Scheduler.State.{Sched, ready_queue, priority_of, expiry_of, closest, set_current}
use pico_toolkit.Scheduler.Queue.Order.{Sorted-congr}
use pico_toolkit.Scheduler.Invariant.{Inv}
use pico_toolkit.Scheduler.Invariant.Queues.{Queued-frame}
use pico_toolkit.Scheduler.Invariant.Timers.{Timed-frame}
use pico_toolkit.Scheduler.Invariant.Lifecycle.{create_svc-Inv}
use pico_toolkit.Scheduler.Api.{
  TaskDescriptor, create, init, adopt, new_task, primordial_task, lock, unlock, lock_restore,
}
use pico_toolkit.Scheduler.Api.Futex.{find_slot, behind}

-- After `init` the invariant holds, if no task's memory claims a queue, no futex has waiters and the other cores run nothing.
pub init-Inv :
    (num_cores : ℕ) (s : Sched)
    → ((t : ℕ) → (s.task t).current_queue ≡ none)
    → ((q : ℕ) → q ≢ ready_queue → s.queue q ≡ [])
    → ((c : ℕ) → num_cores ≤ c → s.current c ≡ none)
    → Inv (init num_cores s)
unfolding init
init-Inv num_cores s free no_waiters idle = record {
  queued = record {
    linked = λ q t. elim (Bool-cases (q == ready_queue)) [
      | inl e ↦ ground (arith, free t)
      | inr e ↦ ground (arith, free t, no_waiters q)
    ];
    distinct = λ q. elim (Bool-cases (q == ready_queue)) [
      | inl e ↦ ground arith
      | inr e ↦ ground (arith, no_waiters q)
    ];
    sorted = λ q. elim (Bool-cases (q == ready_queue)) [
      | inl e ↦ ground arith
      | inr e ↦ ground (arith, no_waiters q)
    ];
  };
  placed = λ t. ground (arith, free t);
  timed = record { once = tt; in_order = tt; next_expiry = refl };
  waiting = λ t m. ground arith;
  holds = λ c t e. ground (arith, idle c);
  runs = λ t e. ground arith;
}

-- A lock that is restored leaves the scheduler as it was.
pub lock_restore-lock : (s : Sched) → (lock_restore (lock s).0 (lock s).1).1 ≡ s
unfolding lock lock_restore
lock_restore-lock s = refl

-- An unlock undoes a lock, however often the scheduler is locked.
pub unlock-lock : (s : Sched) → (unlock (lock s).1).1 ≡ s
unfolding lock unlock
unlock-lock s = rw (increment-decrement s.locked) refl

-- A wake is in a slot, and every wake that was in one still is; or there is neither an empty slot nor this wake.
abbrev pub Given : ℕ → List ℕ → Option (Bool × List ℕ) → Type 0
Given wakeup ws none = (mem 0 ws ≡ false) × (mem wakeup ws ≡ false)
Given wakeup ws (some (filled, ws1)) =
    (mem wakeup ws1 ≡ true)
    × (length ws1 ≡ length ws)
    × ((w : ℕ) → 0 < w → mem w ws ≡ true → mem w ws1 ≡ true)

behind-Given :
    (wakeup w : ℕ) (ws : List ℕ) (r : Option (Bool × List ℕ))
    → w ≢ 0
    → w ≢ wakeup
    → Given wakeup ws r
    → Given wakeup (w ∷ ws) (behind w r)
behind-Given wakeup w ws none nz nw (a, b) = (ground arith, ground arith)
behind-Given wakeup w ws (some (filled, ws1)) nz nw (a, b, c) =
    (ground arith, omega (arith, b), λ u up m. ground (arith, c u))

-- A deferred wake is in a slot afterwards, with every wake that was in one before; it fails only if
-- no slot is empty and none holds the same wake.
pub find_slot-Given : (wakeup : ℕ) (ws : List ℕ) → Given wakeup ws (find_slot wakeup ws)
unfolding find_slot
find_slot-Given wakeup [] = (refl, refl)
find_slot-Given wakeup (w ∷ ws) = elim (Bool-cases (w == 0)) [
  | inl e ↦ rw e (ground arith, refl, λ u up m. ground arith)
  | inr e ↦ elim (Bool-cases (w == wakeup)) [
    | inl h ↦ rw (e, h) (ground arith, refl, λ u up m. m)
    | inr h ↦
        rw (e, h)
          (behind-Given wakeup w ws _ (ground arith) (ground arith) (find_slot-Given wakeup ws))
  ]
]

-- The memory of a task that the scheduler does not have is in no queue and has no timer.
prepared-Inv :
    {s : Sched} (t : ℕ) (d : TaskDescriptor)
    → mem t s.tasks ≡ false
    → Inv s
    → Inv (record s { task = update s.task t (new_task d (s.task t)); owned = update s.owned t [] })
unfolding new_task
prepared-Inv {s} t d new v = record {
  queued = record {
    linked = λ q j. ground (arith, v.queued.linked q j, v.placed t);
    distinct = v.queued.distinct;
    sorted = λ q.
        Sorted-congr (priority_of s) _ (s.queue q)
          (λ j m. ground (arith, v.queued.linked q t, v.queued.linked q j, v.placed t))
          (v.queued.sorted q);
  };
  placed = λ j. ground (arith, v.placed j);
  timed = record {
    once = v.timed.once;
    in_order =
        Sorted-congr (expiry_of s) _ s.timers (λ j m. ground (arith, v.waiting t, v.waiting j))
          v.timed.in_order;
    next_expiry =
        v.timed.next_expiry
        ∙ closest-same s.timers (λ j m. ground (arith, v.waiting t, v.waiting j));
  };
  waiting = λ j m. ground (arith, v.waiting j);
  holds = λ c j e. ground (arith, v.holds c j);
  runs = λ j e. ground (arith, v.runs j);
}
  where
    closest-same :
        {f g : ℕ → ℕ} (xs : List ℕ)
        → ((j : ℕ) → mem j xs ≡ true → f j ≡ g j)
        → closest f xs ≡ closest g xs
    closest-same [] e = refl
    closest-same (x ∷ xs) e = e x (ground arith)

adopt-Inv :
    {s : Sched} (core t bound : ℕ)
    → mem t s.tasks ≡ false
    → s.current core ≡ none
    → Inv s
    → Inv (adopt core t bound s)
unfolding set_current
adopt-Inv {s} core t bound new vacant v = record {
  queued = Queued-frame (λ q. refl) (λ j. ground arith) (λ j. ground arith) v.queued;
  placed = λ j. ground (arith, v.placed j, mem-append j s.tasks (t ∷ []));
  timed = Timed-frame refl refl (λ j. ground arith) v.timed;
  waiting = λ j m. ground (arith, v.waiting j, mem-append j s.tasks (t ∷ []));
  holds = λ c j e. ground (arith, v.holds c j, mem-append j s.tasks (t ∷ []));
  runs = λ j e. ground (arith, v.runs j, mem-append j s.tasks (t ∷ []));
}

-- Creating a task that the scheduler does not have yet keeps the invariant, if the core is vacant
-- for a primordial task.
pub create-Inv :
    {s : Sched} (core t : ℕ) (d : TaskDescriptor)
    → mem t s.tasks ≡ false
    → (has_any d.flags primordial_task ≡ true → s.current core ≡ none)
    → Inv s
    → Inv (create core (some t) (some d) s).2
unfolding create
create-Inv {s} core t d new vacant v =
    let w = prepared-Inv t d new v in
    elim (Bool-cases (has_any d.flags primordial_task)) [
      | inl e ↦ rw e (adopt-Inv core t _ new (vacant e) w)
      | inr e ↦ rw e (create_svc-Inv core t new w)
    ]
