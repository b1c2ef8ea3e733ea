-- ===== src/Scheduler/Invariant/Dispatch.antt =====
-- The steps of the context switch: the core gives up its task, and takes, starts or evicts another.
use pico_toolkit.Base.{
  ◌&&◌, ℕ, zero, suc, ◌≡◌, ◌≢◌, refl, Bool, true, false, not, Option, none, some, arith, mem,
  mem-erase, erase_of_not_mem, ◌==◌, if◌then◌else◌, update, inl, inr, Bool-cases, All, erase, ℤ,
  ltb,
}
use pico_toolkit.Scheduler.State.{
  Sched, ready, running, set_state_core, queue_remove, queue_push, request_switch, set_current,
  ready_queue, priority_of, terminated_hook,
}
use pico_toolkit.Scheduler.Switch.{
  Round, dispatched, shut_down, idles, kick, kick_others, evict, or_idle, is_viable, preempt,
}
use pico_toolkit.Scheduler.Invariant.{Queued, Timed, Inv, phase, fits, waits}
use pico_toolkit.Scheduler.Invariant.Queues.{
  Queued-frame, queue_remove-Queued, queue_push-Queued, set_task-Queued,
}
use pico_toolkit.Scheduler.Invariant.Timers.{
  Timed-frame, queue_remove-Timed, queue_push-Timed, set_task-Timed,
}
use pico_toolkit.Scheduler.Invariant.Resume.{request_switch-Inv}
use pico_toolkit.Scheduler.Invariant.Expiry.{Vacant, Slot}

-- The running task of the core competes again, and the core is vacant.
pub preempt-Vacant :
    {s : Sched} (core t : ℕ)
    → s.current core ≡ some t
    → All Slot (s.deferred_wake core)
    → Inv s
    → Vacant core (preempt t (set_current core none s))
unfolding preempt set_current queue_push
preempt-Vacant {s} core t now slots v = record {
  holding = record {
    queued =
        queue_push-Queued ready_queue t (ground (arith, v.placed t, v.holds core t now)) (
          set_task-Queued t _ refl refl
            (Queued-frame (λ q. refl) (λ j. refl) (λ j. refl) v.queued));
    placed = λ j. ground (arith, v.placed j, v.holds core t now);
    timed = queue_push-Timed ready_queue t (
        set_task-Timed {s = set_current core none s} t _ refl
          (Timed-frame refl refl (λ j. refl) v.timed));
    waiting = λ j m. ground (arith, v.waiting j, v.holds core t now);
    holds = λ c j e. ground (arith, v.holds c j, v.holds core t now);
    runs = λ j e. ground (arith, v.runs j, v.holds core t now);
  };
  vacant = ground arith;
  slots = slots;
}

pub vacate-Vacant :
    {s : Sched} (core : ℕ)
    → s.current core ≡ none
    → All Slot (s.deferred_wake core)
    → Inv s
    → Vacant core (set_current core none s)
unfolding set_current
vacate-Vacant {s} core e slots v = record {
  holding = record {
    queued = Queued-frame (λ q. refl) (λ j. refl) (λ j. refl) v.queued;
    placed = v.placed;
    timed = Timed-frame refl refl (λ j. refl) v.timed;
    waiting = v.waiting;
    holds = λ c j h. ground (arith, v.holds c j);
    runs = λ j h. ground (arith, v.runs j);
  };
  vacant = ground arith;
  slots = slots;
}

-- A ready task has been taken from its queue.
pub record Taken (core t : ℕ) (s : Sched) : Type 0 where
  queued : Queued s
  timed : Timed s
  free : (s.task t).current_queue ≡ none
  was : phase s t ≡ ready
  placed : (j : ℕ) → j ≢ t → fits (phase s j) (s.task j).current_queue ≡ true
  waiting : (j : ℕ) → mem j s.timers ≡ true → waits (phase s j) ≡ true
  holds : (c j : ℕ) → s.current c ≡ some j → (phase s j ≡ running) × ((s.task j).core ≡ c)
  runs : (j : ℕ) → phase s j ≡ running → s.current (s.task j).core ≡ some j
  vacant : s.current core ≡ none
  slots : All Slot (s.deferred_wake core)

pub take_task-Taken :
    {s : Sched} (core t : ℕ)
    → mem t (s.queue ready_queue) ≡ true
    → Vacant core s
    → Taken core t (queue_remove t s)
unfolding queue_remove
take_task-Taken {s} core t here w =
    let v = w.holding in
    let place = v.queued.linked ready_queue t in
    let fit = v.placed t in
    record {
      queued = queue_remove-Queued t v.queued;
      timed = queue_remove-Timed t v.timed;
      free = ground arith;
      was = ground arith;
      placed = λ j ne. ground (arith, v.placed j);
      waiting = λ j m. ground (arith, v.waiting j);
      holds = λ c j e. ground (arith, v.holds c j);
      runs = λ j e. ground (arith, v.runs j);
      vacant = ground (arith, w.vacant);
      slots = w.slots;
    }

started-Inv :
    {s : Sched} (core t : ℕ) (slice : ℕ → ℤ)
    → Taken core t s
    → Inv (
        set_current core
          (some t)
          (record (set_state_core t running core s) { slice_expires = slice }))
unfolding set_current
started-Inv {s} core t slice k = record {
  queued =
      Queued-frame {s = set_state_core t running core s} (λ q. refl) (λ j. refl) (λ j. refl)
        (set_task-Queued t _ refl refl k.queued);
  placed = λ j. ground (arith, k.placed j, k.was, k.free);
  timed =
      Timed-frame {s = set_state_core t running core s} refl refl (λ j. refl)
        (set_task-Timed t _ refl k.timed);
  waiting = λ j m. ground (arith, k.waiting j, k.was);
  holds = λ c j e. ground (arith, k.holds c j, k.was, k.vacant);
  runs = λ j e. ground (arith, k.runs j, k.was, k.vacant);
}

-- A task whose stack is damaged is gone, and the core still vacant.
pub evict-Vacant : {s : Sched} (core t : ℕ) → Taken core t s → Vacant core (evict t s)
unfolding evict queue_remove terminated_hook
evict-Vacant {s} core t k =
    let same : erase t s.timers ≡ s.timers =
      erase_of_not_mem t s.timers (ground (arith, k.waiting t, k.was)) in
    record {
      holding = record {
        queued =
            Queued-frame (λ q. refl) (λ j. refl) (λ j. refl)
              (queue_remove-Queued t (
                set_task-Queued t _ (ground arith) (ground arith)
                  (set_task-Queued t _ refl refl k.queued)));
        placed = λ j. ground (arith, k.placed j, k.was, mem-erase j t s.tasks);
        timed =
            Timed-frame same refl (λ j. refl)
              (queue_remove-Timed t
                (set_task-Timed t _ (ground arith) (set_task-Timed t _ refl k.timed)));
        waiting = λ j m.
            ground (arith, k.waiting j, k.was, mem-erase j t s.timers, mem-erase j t s.tasks);
        holds = λ c j e. ground (arith, k.holds c j, k.was, mem-erase j t s.tasks);
        runs = λ j e. ground (arith, k.runs j, k.was, mem-erase j t s.tasks);
      };
      vacant = k.vacant;
      slots = k.slots;
    }

-- A property that a request for a switch keeps is kept by the kicks.
pub kick_others-keeps :
    (P : Sched → Type 0) (n core : ℕ) {s : Sched}
    → ((c : ℕ) (r : Sched) → P r → P (request_switch c r))
    → P s
    → P (kick_others n core s)
unfolding kick_others
kick_others-keeps P zero core keep p = p
kick_others-keeps P (suc n) core {s} keep p =
    let before = kick_others-keeps P n core keep p in
    elim (Bool-cases (n == core)) [ inl e ↦ rw e before | inr e ↦ rw e (kick-keeps _ _ _ before) ]
  where
    kick-keeps : (r : Sched) (mine next : Option ℕ) → P r → P (kick r n mine next)
    kick-keeps r none next p = p
    kick-keeps r (some a) none p = p
    kick-keeps r (some a) (some b) p = elim (Bool-cases (ltb (priority_of r b) (priority_of r a))) [
      | inl e ↦ rw e (keep n r p)
      | inr e ↦ rw e p
    ]

-- What a round leaves: a core that runs the dispatched task, or a vacant one.
abbrev pub Outcome : ℕ → Round → Type 0
Outcome core (dispatched t s) = Inv s × (s.current core ≡ some t)
Outcome core (shut_down s) = Vacant core s
Outcome core (idles s) = Vacant core s

pub request_switch-Outcome :
    (core t c : ℕ) (r : Sched)
    → Inv r × (r.current core ≡ some t)
    → Inv (request_switch c r) × ((request_switch c r).current core ≡ some t)
unfolding request_switch
request_switch-Outcome core t c r (v, e) = (request_switch-Inv c v, ground (arith, e))

pub started-Outcome :
    {s : Sched} (core t : ℕ) (b : Bool)
    → Taken core t s
    → let s1 : Sched = set_state_core t running core s in
      let r : Sched = set_current core (some t) (
        if b
        then record s1 { slice_expires = update s1.slice_expires core s1.slice_duration }
        else s1) in
      Inv r × (r.current core ≡ some t)
unfolding set_current
started-Outcome core t true k = (started-Inv core t _ k, ground arith)
started-Outcome {s} core t false k = (started-Inv core t s.slice_expires k, ground arith)

pub or_idle-Outcome : {s : Sched} (core : ℕ) → Vacant core s → Outcome core (or_idle core s)
or_idle-Outcome {s} core w = go (not (is_viable s.tasks s) && s.has_initial_frame core)
  where
    go : (b : Bool) → Outcome core (if b then shut_down s else idles s)
    go true = w
    go false = w
