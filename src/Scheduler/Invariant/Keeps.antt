-- ===== src/Scheduler/Invariant/Keeps.antt =====
-- Waking tasks leaves the cores' current tasks and their deferred wakes alone.
use pico_toolkit.Base.{
  update, ℕ, zero, suc, ◌+◌, ◌≡◌, refl, ◌∙◌, Bool, true, false, not, ◌||◌, Option, none, some, List,
  [], ◌∷◌, if◌then◌else◌, inl, inr, List-cases, has_any, length,
}
use pico_toolkit.Scheduler.State.{
  Sched, queue_remove, queue_push, timer_remove, reprioritize, requeue, with_priority,
  owner_tracking, futex_pi, contention_tracking,
}
use pico_toolkit.Scheduler.Service.{is_inheriting}
use pico_toolkit.Scheduler.Wake.{
  unlink_owned, release_owner, inherit, wake_one, wake_loop, track_contention, wake_futex,
}

pub record Keeps (s r : Sched) : Type 0 where
  pub same_current : r.current ≡ s.current
  pub same_deferred : r.deferred_wake ≡ s.deferred_wake

unchanged : {s r : Sched} → r.current ≡ s.current → r.deferred_wake ≡ s.deferred_wake → Keeps s r
unchanged a b = record { same_current = a; same_deferred = b }

Keeps-trans : {s r u : Sched} → Keeps s r → Keeps r u → Keeps s u
Keeps-trans k l = unchanged (l.same_current ∙ k.same_current) (l.same_deferred ∙ k.same_deferred)

Keeps-if : {s r u : Sched} (b : Bool) → Keeps s r → Keeps s u → Keeps s (if b then r else u)
Keeps-if true k l = k
Keeps-if false k l = l

-- The same from a state that differs elsewhere.
Keeps-after :
    (s u r : Sched)
    → u.current ≡ s.current
    → u.deferred_wake ≡ s.deferred_wake
    → Keeps u r
    → Keeps s r
Keeps-after s u r a b k = Keeps-trans (unchanged a b) k

reprioritize-Keeps : (t p : ℕ) (s : Sched) → Keeps s (reprioritize t p s)
unfolding reprioritize queue_remove queue_push
reprioritize-Keeps t p s = go (s.task t).current_queue
  where
    go : (o : Option ℕ) → Keeps s (requeue o t (with_priority t p s))
    go none = unchanged refl refl
    go (some q) = unchanged refl refl

release_owner-Keeps : (f : ℕ) (s : Sched) → Keeps s (release_owner f s)
unfolding release_owner unlink_owned
release_owner-Keeps f s =
    Keeps-after s (unlink_owned f s) _ refl refl (reprioritize-Keeps _ _ (unlink_owned f s))

inherit-Keeps : (f t : ℕ) (ws : List ℕ) (s : Sched) → Keeps s (inherit f t ws s)
unfolding inherit
inherit-Keeps f t [] s = unchanged refl refl
inherit-Keeps f t (w ∷ ws) s = Keeps-after s _ _ refl refl (reprioritize-Keeps _ _ _)

wake_one-Keeps : (f t : ℕ) (s : Sched) → Keeps s (wake_one f t s)
unfolding wake_one queue_push timer_remove
wake_one-Keeps f t s =
    Keeps-trans (go (has_any (s.futex f).flags owner_tracking) (has_any (s.futex f).flags futex_pi))
      (unchanged refl refl)
  where
    s1 : Bool → Sched
    s1 b = if b then record s { word = update s.word (s.futex f).value t } else s

    go : (b c : Bool) → Keeps s (if c then inherit f t ((s1 b).queue f) (s1 b) else s1 b)
    go true true =
        Keeps-after s (s1 true) _ refl refl (inherit-Keeps f t ((s1 true).queue f) (s1 true))
    go false true = inherit-Keeps f t (s.queue f) s
    go true false = unchanged refl refl
    go false false = unchanged refl refl

wake_loop-Keeps :
    (fuel f : ℕ) (all : Bool) (woken : ℕ) (s : Sched) → Keeps s (wake_loop fuel f all woken s).1
unfolding wake_loop queue_remove
wake_loop-Keeps zero f all woken s = unchanged refl refl
wake_loop-Keeps (suc fuel) f all woken s = elim (List-cases (s.queue f)) [
  | inl e ↦ rw (e, wake_loop) (unchanged refl refl)
  | inr (t, ts, e) ↦
      rw (e, wake_loop)
        (go _ _ _ (not all || has_any (s.futex f).flags owner_tracking)
          (Keeps-after s (queue_remove t s) _ refl refl (wake_one-Keeps f t (queue_remove t s)))
          (wake_loop-Keeps fuel f all (woken + 1) (wake_one f t (queue_remove t s))))
]
  where
    go :
        (u : Sched) (p : ℕ × Sched) (n : ℕ) (b : Bool)
        → Keeps s u
        → Keeps u p.1
        → Keeps s (if b then (n, u) else p).1
    go u p n true k l = k
    go u p n false k l = Keeps-trans k l

track_contention-Keeps : (f : ℕ) (ws : List ℕ) (s : Sched) → Keeps s (track_contention f ws s)
unfolding track_contention
track_contention-Keeps f ws s =
    Keeps-if (has_any (s.futex f).flags contention_tracking) (unchanged refl refl)
      (unchanged refl refl)

pub wake_futex-Keeps : (f : ℕ) (all : Bool) (s : Sched) → Keeps s (wake_futex f all s).1
unfolding wake_futex
wake_futex-Keeps f all s =
    let s1 : Sched = if is_inheriting (s.futex f) then release_owner f s else s in
    let loop : ℕ × Sched = wake_loop (length (s1.queue f)) f all 0 s1 in
    Keeps-trans
      (Keeps-if (is_inheriting (s.futex f)) (release_owner-Keeps f s) (unchanged refl refl))
      (Keeps-trans (wake_loop-Keeps (length (s1.queue f)) f all 0 s1)
        (track_contention-Keeps f (loop.1.queue f) loop.1))
