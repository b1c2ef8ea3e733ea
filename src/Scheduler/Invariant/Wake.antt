-- ===== src/Scheduler/Invariant/Wake.antt =====
-- Waking the waiters of a futex keeps the invariant.
use pico_toolkit.Base.{
  ℕ, zero, suc, ◌+◌, ◌≡◌, ◌≢◌, refl, sym, ◌∙◌, List-cases, Bool, true, false, not, ◌||◌, none, some,
  List, [], ◌∷◌, arith, mem, mem-erase, if◌then◌else◌, update, inl, inr, Bool-cases, ltb, has_any,
  length,
}
use pico_toolkit.Scheduler.State.{
  Sched, Futex, blocked, ready, running, queue_remove, queue_push, timer_remove, ready_queue,
  set_state, reprioritize, request_switch, owner_tracking, futex_pi, contention_tracking,
}
use pico_toolkit.Scheduler.Service.{is_inheriting}
use pico_toolkit.Scheduler.Wake.{
  release_owner, inherit, wake_one, wake_loop, track_contention, wake_futex, wake_svc,
}
use pico_toolkit.Scheduler.Invariant.{Queued, Timed, Inv, phase, fits, waits}
use pico_toolkit.Scheduler.Invariant.Queues.{
  Queued-frame, queue_remove-Queued, queue_push-Queued, set_task-Queued, timer_remove-Queued,
  reprioritize-Queued,
}
use pico_toolkit.Scheduler.Invariant.Timers.{
  Timed-frame, timer_remove-Timed, queue_remove-Timed, queue_push-Timed, set_task-Timed,
  reprioritize-Timed,
}
use pico_toolkit.Scheduler.Invariant.Resume.{request_switch-Inv}
use pico_toolkit.Scheduler.Invariant.Frame.{
  SameShape, SameShape-refl, SameShape-trans, Inv-frame, reprioritize-Inv, reprioritize-SameShape,
}

-- A change of words and owned futexes alone, and what follows from it.
record Aside (s r : Sched) : Type 0 where
  shape : SameShape s r
  keeps_queued : Queued s → Queued r
  keeps_timed : Timed s → Timed r

Aside-Inv : {s r : Sched} → Aside s r → Inv s → Inv r
Aside-Inv a v = Inv-frame a.shape (a.keeps_queued v.queued) (a.keeps_timed v.timed) v

Aside-refl : (s : Sched) → Aside s s
Aside-refl s = record { shape = SameShape-refl s; keeps_queued = λ q. q; keeps_timed = λ q. q }

Aside-trans : {s r u : Sched} → Aside s r → Aside r u → Aside s u
Aside-trans a b = record {
  shape = SameShape-trans a.shape b.shape;
  keeps_queued = λ q. b.keeps_queued (a.keeps_queued q);
  keeps_timed = λ q. b.keeps_timed (a.keeps_timed q);
}

set_memory-Aside :
    (s : Sched) (word : ℕ → ℕ) (owned : ℕ → List ℕ) (futex : ℕ → Futex)
    → Aside s (record s { word = word; owned = owned; futex = futex })
set_memory-Aside s word owned futex = record {
  shape = record {
    same_tasks = refl;
    same_timers = refl;
    same_current = λ c. refl;
    same_state = λ t. refl;
    same_core = λ t. refl;
    same_place = λ t. refl;
  };
  keeps_queued = λ v. Queued-frame (λ q. refl) (λ j. refl) (λ j. refl) v;
  keeps_timed = λ v. Timed-frame refl refl (λ j. refl) v;
}

reprioritize-Aside : (s : Sched) (t p : ℕ) → Aside s (reprioritize t p s)
reprioritize-Aside s t p = record {
  shape = reprioritize-SameShape s t p;
  keeps_queued = reprioritize-Queued t p;
  keeps_timed = reprioritize-Timed t p;
}

release_owner-Inv : {s : Sched} (f : ℕ) → Inv s → Inv (release_owner f s)
unfolding release_owner
release_owner-Inv {s} f v = reprioritize-Inv _ _ (Aside-Inv (set_memory-Aside s s.word _ _) v)

inherit-Aside : (f t : ℕ) (ws : List ℕ) (s : Sched) → Aside s (inherit f t ws s)
unfolding inherit
inherit-Aside f t [] s = Aside-refl s
inherit-Aside f t (w ∷ ws) s =
    Aside-trans (set_memory-Aside s s.word _ _) (reprioritize-Aside _ _ _)

-- What happens to a futex and its new owner before the task becomes ready.
abbrev handed_over : ℕ → ℕ → Sched → Sched
handed_over f t s0 =
    let s1 =
      if has_any (s0.futex f).flags owner_tracking
      then record s0 { word = update s0.word (s0.futex f).value t }
      else s0 in
    if has_any (s0.futex f).flags futex_pi then inherit f t (s1.queue f) s1 else s1

handed_over-Aside : (f t : ℕ) (s : Sched) → Aside s (handed_over f t s)
handed_over-Aside f t s =
    go (has_any (s.futex f).flags owner_tracking) (has_any (s.futex f).flags futex_pi)
  where
    s1 : Bool → Sched
    s1 b = if b then record s { word = update s.word (s.futex f).value t } else s

    first : (b : Bool) → Aside s (s1 b)
    first true = set_memory-Aside s _ s.owned s.futex
    first false = Aside-refl s

    go : (b c : Bool) → Aside s (if c then inherit f t ((s1 b).queue f) (s1 b) else s1 b)
    go b true = Aside-trans (first b) (inherit-Aside f t ((s1 b).queue f) (s1 b))
    go b false = first b

-- A blocked task becomes ready.
abbrev made_ready : ℕ → Sched → Sched
made_ready t s = queue_push ready_queue t (set_state t ready (timer_remove t s))

-- The state in which `t` has left its queue and is still marked as blocked.
record Between (t : ℕ) (s : Sched) : Type 0 where
  queued : Queued s
  timed : Timed s
  free : (s.task t).current_queue ≡ none
  was : phase s t ≡ blocked
  placed : (j : ℕ) → j ≢ t → fits (phase s j) (s.task j).current_queue ≡ true
  waiting : (j : ℕ) → mem j s.timers ≡ true → waits (phase s j) ≡ true
  holds : (c j : ℕ) → s.current c ≡ some j → (phase s j ≡ running) × ((s.task j).core ≡ c)
  runs : (j : ℕ) → phase s j ≡ running → s.current (s.task j).core ≡ some j

queue_remove-Between :
    {s : Sched} (t : ℕ) → phase s t ≡ blocked → Inv s → Between t (queue_remove t s)
unfolding queue_remove
queue_remove-Between {s} t b v = record {
  queued = queue_remove-Queued t v.queued;
  timed = queue_remove-Timed t v.timed;
  free = ground arith;
  was = ground arith;
  placed = λ j ne. ground (arith, v.placed j);
  waiting = λ j m. ground (arith, v.waiting j);
  holds = λ c j e. ground (arith, v.holds c j);
  runs = λ j e. ground (arith, v.runs j);
}

Between-Aside : {s r : Sched} (t : ℕ) → Aside s r → Between t s → Between t r
Between-Aside {s} {r} t a v = record {
  queued = a.keeps_queued v.queued;
  timed = a.keeps_timed v.timed;
  free = a.shape.same_place t ∙ v.free;
  was = same t ∙ v.was;
  placed = λ j ne. rw (same j, a.shape.same_place j) (v.placed j ne);
  waiting = λ j m. rw (same j) (v.waiting j (rw (← a.shape.same_timers) m));
  holds =
      λ c j e. rw (same j, a.shape.same_core j) (v.holds c j (sym (a.shape.same_current c) ∙ e));
  runs = λ j e.
      rw (a.shape.same_core j) (a.shape.same_current (s.task j).core ∙ v.runs j (sym (same j) ∙ e));
}
  where
    same : (j : ℕ) → phase r j ≡ phase s j
    same j = rw (a.shape.same_tasks, a.shape.same_state j) refl

made_ready-Inv : {s : Sched} (t : ℕ) → Between t s → Inv (made_ready t s)
unfolding queue_push timer_remove
made_ready-Inv {s} t v = record {
  queued =
      queue_push-Queued ready_queue t (ground (arith, v.free))
        (set_task-Queued t _ refl refl (timer_remove-Queued t v.queued));
  placed = λ j. ground (arith, v.placed j, v.was);
  timed = queue_push-Timed ready_queue t (set_task-Timed t _ refl (timer_remove-Timed t v.timed));
  waiting = λ j m. ground (arith, v.waiting j, mem-erase j t s.timers);
  holds = λ c j e. ground (arith, v.holds c j, v.was);
  runs = λ j e. ground (arith, v.runs j, v.was);
}

wake_one-Inv : {s : Sched} (f t : ℕ) → Between t s → Inv (wake_one f t s)
unfolding wake_one
wake_one-Inv {s} f t v = made_ready-Inv t (Between-Aside t (handed_over-Aside f t s) v)

-- A task in the queue of a futex is blocked.
waiter-blocked :
    {s : Sched} (f t : ℕ) (ts : List ℕ) → f ≢ 0 → s.queue f ≡ t ∷ ts → Inv s → phase s t ≡ blocked
waiter-blocked {s} f t ts nf e v =
    let here : mem t (s.queue f) ≡ true = rw e (ground arith) in
    ground (arith, v.queued.linked f t, v.placed t)

if_true-or-Inv : (b : Bool) (p q : ℕ × Sched) → Inv p.1 → Inv q.1 → Inv (if b then p else q).1
if_true-or-Inv true p q v w = v
if_true-or-Inv false p q v w = w

wake_loop-Inv :
    (fuel f : ℕ) (all : Bool) (woken : ℕ) (s : Sched)
    → f ≢ 0
    → Inv s
    → Inv (wake_loop fuel f all woken s).1
unfolding wake_loop
wake_loop-Inv zero f all woken s nf v = v
wake_loop-Inv (suc fuel) f all woken s nf v = elim (List-cases (s.queue f)) [
  | inl e ↦ rw (e, wake_loop) v
  | inr (t, ts, e) ↦
      let w : Inv (wake_one f t (queue_remove t s)) =
        wake_one-Inv f t (queue_remove-Between t (waiter-blocked f t ts nf e v) v) in
      rw (e, wake_loop)
        (if_true-or-Inv (not all || has_any (s.futex f).flags owner_tracking) _ _ w
          (wake_loop-Inv fuel f all (woken + 1) (wake_one f t (queue_remove t s)) nf w))
]

track_contention-Inv : {s : Sched} (f : ℕ) (ws : List ℕ) → Inv s → Inv (track_contention f ws s)
unfolding track_contention
track_contention-Inv {s} f ws v = go _ (has_any (s.futex f).flags contention_tracking)
  where
    r : ℕ → Sched
    r w = record s { word = update s.word (s.futex f).value w }

    go : (w : ℕ) (b : Bool) → Inv (if b then r w else s)
    go w true = Aside-Inv (set_memory-Aside s (update s.word (s.futex f).value w) s.owned s.futex) v
    go w false = v

release_if_inheriting-Inv :
    {s : Sched} (f : ℕ) (b : Bool) → Inv s → Inv (if b then release_owner f s else s)
release_if_inheriting-Inv f true v = release_owner-Inv f v
release_if_inheriting-Inv f false v = v

pub wake_futex-Inv : {s : Sched} (f : ℕ) (all : Bool) → f ≢ 0 → Inv s → Inv (wake_futex f all s).1
unfolding wake_futex
wake_futex-Inv {s} f all nf v = track_contention-Inv f _ (
    wake_loop-Inv (length _) f all 0 _ nf
      (release_if_inheriting-Inv f (is_inheriting (s.futex f)) v))

-- A wake of one or all waiters of a futex that is not null keeps the invariant, however many
-- tasks it wakes.
pub wake_svc-Inv :
    {s : Sched} (core f : ℕ) (all : Bool) → f ≢ 0 → Inv s → Inv (wake_svc core f all s).1
unfolding wake_svc
wake_svc-Inv {s} core f all nf v = go (wake_futex f all s) (wake_futex-Inv f all nf v)
  where
    go : (r : ℕ × Sched) → Inv r.1 → Inv (if ltb 0 r.0 then request_switch core r.1 else r.1)
    go (woken, u) w = elim (Bool-cases (ltb 0 woken)) [
      | inl e ↦ rw e (request_switch-Inv core w)
      | inr e ↦ rw e w
    ]
