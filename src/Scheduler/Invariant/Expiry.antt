-- ===== src/Scheduler/Invariant/Expiry.antt =====
-- The context switch's first steps, the deferred wakes and the expired timers, keep the invariant.
use pico_toolkit.Base.{
  Distinct, ℕ, zero, suc, ◌+◌, ◌*◌, ◌/◌, ◌%◌, ◌≤◌, ◌<◌, ◌≡◌, refl, subst, sym, ◌∙◌, true, false,
  Option, none, some, List, [], ◌∷◌, arith, mem, mem-erase, ◌==◌, leb, update, inl, inr, ◌⊎◌,
  Bool-cases, Option-cases, List-cases, length, set, get_elem?, All, erase_of_not_mem, ap,
}
use pico_toolkit.Scheduler.State.{
  Sched, queue_remove, queue_push, timer_remove, timer_pop, ready_queue, get_ticks, expiry_of,
}
use pico_toolkit.Scheduler.Queue.Order.{Sorted, AtLeast}
use pico_toolkit.Scheduler.Wake.{wake_futex}
use pico_toolkit.Scheduler.Switch.{deferred_wakes, take_wakeup, ready_expired, expire_timers}
use pico_toolkit.Scheduler.Invariant.{Timed, Inv}
use pico_toolkit.Scheduler.Invariant.Queues.{
  Queued-frame, queue_remove-Queued, queue_push-Queued, set_task-Queued, timer_remove-Queued,
}
use pico_toolkit.Scheduler.Invariant.Timers.{
  Timed-frame, timer_remove-Timed, queue_remove-Timed, queue_push-Timed, set_task-Timed,
}
use pico_toolkit.Scheduler.Invariant.Wake.{wake_futex-Inv}
use pico_toolkit.Scheduler.Invariant.Keeps.{wake_futex-Keeps}

-- What a slot of deferred wakes may hold: nothing, or the address of a futex with its flag.
abbrev pub Slot : ℕ → Type 0
Slot w = (w ≡ 0) ⊎ (2 ≤ w)

-- The core runs no task, and its deferred wakes name futexes.
pub record Vacant (core : ℕ) (s : Sched) : Type 0 where
  pub holding : Inv s
  pub vacant : s.current core ≡ none
  pub slots : All Slot (s.deferred_wake core)

set-All : (xs : List ℕ) (i : ℕ) → All Slot xs → All Slot (set xs i 0)
set-All [] i a = a
set-All (x ∷ xs) zero (a, al) = (inl refl, al)
set-All (x ∷ xs) (suc i) (a, al) = (a, set-All xs i al)

get-All : (xs : List ℕ) (i w : ℕ) → All Slot xs → get_elem? xs i ≡ some w → Slot w
get-All [] i w a e = absurd (ground arith)
get-All (x ∷ xs) zero w (a, al) e = ground arith
get-All (x ∷ xs) (suc i) w (a, al) e = get-All xs i w al e

-- A change of a core's slots and counters.
counters-Inv :
    {s : Sched} (deferred : ℕ → List ℕ) (taken : ℕ → ℕ)
    → Inv s
    → Inv (record s { deferred_wake = deferred; taken_wake_counter = taken })
counters-Inv deferred taken v = record {
  queued = Queued-frame (λ q. refl) (λ j. refl) (λ j. refl) v.queued;
  placed = v.placed;
  timed = Timed-frame refl refl (λ j. refl) v.timed;
  waiting = v.waiting;
  holds = v.holds;
  runs = v.runs;
}

take_wakeup-Vacant :
    {s : Sched} (core i : ℕ)
    → Vacant core s
    → Vacant core (take_wakeup core i (get_elem? (s.deferred_wake core) i) s)
take_wakeup-Vacant {s} core i p = elim (Option-cases (get_elem? (s.deferred_wake core) i)) [
  | inl e ↦ rw e p
  | inr (w, e) ↦ rw e (go w (get-All _ i w p.slots e))
]
  where
    go : (w : ℕ) → Slot w → Vacant core (take_wakeup core i (some w) s)
    go w (inl z) = rw z p
    go w (inr big) =
        let s1 : Sched = record s {
          deferred_wake = update s.deferred_wake core (set (s.deferred_wake core) i 0);
        } in
        let k = wake_futex-Keeps (w / 2 * 2) (w % 2 == 1) s1 in
        let nz : (w == 0) ≡ false = ground arith in
        let after : Inv (wake_futex (w / 2 * 2) (w % 2 == 1) s1).1 =
          wake_futex-Inv (w / 2 * 2) (w % 2 == 1) (λ z. omega (arith, z, big))
            (counters-Inv _ s.taken_wake_counter p.holding) in
        rw nz (record {
          holding = counters-Inv _ _ after;
          vacant = ap (λ g. g core) k.same_current ∙ p.vacant;
          slots = rw k.same_deferred (ground (arith, set-All (s.deferred_wake core) i p.slots));
        })

pub deferred_wakes-Vacant :
    (left : ℕ) {s : Sched} (core i : ℕ) → Vacant core s → Vacant core (deferred_wakes left core i s)
unfolding deferred_wakes
deferred_wakes-Vacant zero core i p = p
deferred_wakes-Vacant (suc left) {s} core i p =
    elim (Bool-cases (s.taken_wake_counter core == s.given_wake_counter core)) [
      | inl e ↦ rw e p
      | inr e ↦ rw e (deferred_wakes-Vacant left core (i + 1) (take_wakeup-Vacant core i p))
    ]

-- A waiting task becomes ready, once its timer is out of the list.
ready_expired-Inv :
    {s : Sched} (t : ℕ) → mem t s.timers ≡ true → Inv s → Inv (ready_expired t (timer_remove t s))
unfolding ready_expired queue_remove queue_push timer_remove
ready_expired-Inv {s} t here v = record {
  queued = queue_push-Queued ready_queue t (ground arith) (
      set_task-Queued t _ (ground arith) (ground arith)
        (set_task-Queued t _ refl refl (queue_remove-Queued t (timer_remove-Queued t v.queued))));
  placed = λ j. ground (arith, v.placed j, v.waiting t here);
  timed = queue_push-Timed ready_queue t (
      set_task-Timed t _ (ground arith)
        (set_task-Timed t _ refl (queue_remove-Timed t (timer_remove-Timed t v.timed))));
  waiting = λ j m. ground (arith, v.waiting j, mem-erase j t s.timers);
  holds = λ c j e. ground (arith, v.holds c j, v.waiting t here);
  runs = λ j e. ground (arith, v.runs j, v.waiting t here);
}

-- A timer is popped if it is the first, and its time has come.
timer_pop-cases :
    (s : Sched)
    → ((timer_pop s ≡ (none, s))
        × ((s.timers ≡ [])
            ⊎ ((t : ℕ) × (ts : List ℕ) × (s.timers ≡ t ∷ ts) × (get_ticks s < expiry_of s t))))
      ⊎ ((t : ℕ) × (ts : List ℕ) × (s.timers ≡ t ∷ ts) × (timer_pop s ≡ (some t, timer_remove t s)))
unfolding timer_pop
timer_pop-cases s = elim (List-cases s.timers) [
  | inl e ↦ inl (rw e refl, inl e)
  | inr (t, ts, e) ↦ elim (Bool-cases (leb (expiry_of s t) (get_ticks s))) [
    | inl h ↦ inr (t, ts, e, rw (e, h) refl)
    | inr h ↦ inl (rw (e, h) refl, inr (t, ts, e, ground arith))
  ]
]

ready_expired-current :
    (s : Sched) (t core : ℕ) → (ready_expired t (timer_remove t s)).current core ≡ s.current core
unfolding ready_expired queue_remove queue_push timer_remove
ready_expired-current s t core = refl

ready_expired-slots :
    (s : Sched) (t core : ℕ)
    → All Slot (s.deferred_wake core)
    → All Slot ((ready_expired t (timer_remove t s)).deferred_wake core)
unfolding ready_expired queue_remove queue_push timer_remove
ready_expired-slots s t core a = a

abbrev after_pop : ℕ → Option ℕ × Sched → Sched
after_pop fuel r = elim r.0 [ none ↦ r.1 | some t ↦ expire_timers fuel (ready_expired t r.1) ]

expire_timers-stop :
    (fuel : ℕ) (s : Sched) → timer_pop s ≡ (none, s) → expire_timers (suc fuel) s ≡ s
unfolding expire_timers
expire_timers-stop fuel s e = ap (after_pop fuel) e

expire_timers-step :
    (fuel t : ℕ) (s u : Sched)
    → timer_pop s ≡ (some t, u)
    → expire_timers (suc fuel) s ≡ expire_timers fuel (ready_expired t u)
unfolding expire_timers
expire_timers-step fuel t s u e = ap (after_pop fuel) e

-- The loop over the timers keeps the invariant.
pub expire_timers-Vacant :
    (fuel : ℕ) {s : Sched} (core : ℕ) → Vacant core s → Vacant core (expire_timers fuel s)
unfolding expire_timers
expire_timers-Vacant zero core v = v
expire_timers-Vacant (suc fuel) {s} core v = elim (timer_pop-cases s) [
  | inl (e, _) ↦ rw (expire_timers-stop fuel s e) v
  | inr (t, ts, here, e) ↦ rw (expire_timers-step fuel t s _ e) (
      expire_timers-Vacant fuel core (record {
        holding = ready_expired-Inv t (rw here (ground arith)) v.holding;
        vacant = ready_expired-current s t core ∙ v.vacant;
        slots = ready_expired-slots s t core v.slots;
      }))
]

AtLeast-mem : (f : ℕ → ℕ) (k j : ℕ) (xs : List ℕ) → AtLeast f k xs → mem j xs ≡ true → k ≤ f j
AtLeast-mem f k j [] a m = absurd (ground arith)
AtLeast-mem f k j (x ∷ xs) a m = ground (arith, AtLeast-mem f k j xs)

ready_expired-timers :
    (s : Sched) (t : ℕ) (ts : List ℕ)
    → s.timers ≡ t ∷ ts
    → mem t ts ≡ false
    → (ready_expired t (timer_remove t s)).timers ≡ ts
unfolding ready_expired queue_remove queue_push timer_remove
ready_expired-timers s t ts e n = rw e (ground (arith, erase_of_not_mem t ts))

ready_expired-Timed : {s : Sched} (t : ℕ) → Timed s → Timed (ready_expired t (timer_remove t s))
unfolding ready_expired
ready_expired-Timed t v = queue_push-Timed ready_queue t (
    set_task-Timed t _ refl
      (set_task-Timed t _ refl (queue_remove-Timed t (timer_remove-Timed t v))))

not_due :
    {s : Sched} (j t : ℕ) (ts : List ℕ)
    → Timed s
    → s.timers ≡ t ∷ ts
    → get_ticks s < expiry_of s t
    → mem j s.timers ≡ true
    → get_ticks s < expiry_of s j
not_due {s} j t ts v e later m =
    let order : Sorted (expiry_of s) (t ∷ ts) = subst (Sorted (expiry_of s)) e v.in_order in
    let here : mem j (t ∷ ts) ≡ true = ap (mem j) (sym e) ∙ m in
    ground (arith, AtLeast-mem (expiry_of s) (expiry_of s t) j ts)

-- With a timer list in order and as much fuel as there are timers, no timer is left whose time
-- has come.
pub expire_timers-none_due :
    (fuel : ℕ) (s : Sched) (j : ℕ)
    → Timed s
    → length s.timers ≤ fuel
    → mem j (expire_timers fuel s).timers ≡ true
    → get_ticks (expire_timers fuel s) < expiry_of (expire_timers fuel s) j
unfolding expire_timers
expire_timers-none_due zero s j v n m = absurd (no_member s.timers n m)
  where
    no_member : (xs : List ℕ) → length xs ≤ 0 → mem j xs ≡ true → ⊥
    no_member [] n m = ground arith
    no_member (x ∷ xs) n m = omega (arith, n)
expire_timers-none_due (suc fuel) s j v n m = elim (timer_pop-cases s) [
  | inl (e, inl none_left) ↦ absurd (
      ground
        (arith, ap (mem j) none_left, ap (λ r. mem j r.timers) (expire_timers-stop fuel s e), m))
  | inl (e, inr (t, ts, here, later)) ↦
      let stop = expire_timers-stop fuel s e in
      rw stop (not_due j t ts v here later (ap (λ r. mem j r.timers) (sym stop) ∙ m))
  | inr (t, ts, here, e) ↦
      let step = expire_timers-step fuel t s _ e in
      let once : Distinct (t ∷ ts) = subst Distinct here v.once in
      let left = ready_expired-timers s t ts here once.0 in
      let shorter : length (t ∷ ts) ≤ suc fuel = subst (λ xs. length xs ≤ suc fuel) here n in
      rw step (
        expire_timers-none_due fuel (ready_expired t (timer_remove t s)) j (ready_expired-Timed t v)
          (rw left (omega (arith, shorter))) (ap (λ r. mem j r.timers) (sym step) ∙ m))
]
