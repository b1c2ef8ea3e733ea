-- ===== src/Threads/Mutex/Live.antt =====
-- What holds of the value of a mutex of the C library, its waiters and the threads while no wait times
-- out, and how the moves of a thread keep it.
use pico_toolkit.Base.{
  ℕ, ◌%◌, ◌≡◌, ◌≢◌, refl, Bool, true, false, not, ◌||◌, List, [], ◌∷◌, arith, ◌==◌, update,
  clear_bit0, set_bit0, Bool-cases, inl, inr, mem, Distinct,
}
use pico_toolkit.Scheduler.Queue.{enqueue}
use pico_toolkit.Scheduler.Queue.Order.{mem-enqueue, enqueue-Distinct}
use pico_toolkit.Threads.Mutex.{
  Stand, outside, holding, releasing, waking, trying, asleep, resumed, entering, task, tracked,
}
use pico_toolkit.Threads.Mutex.Exclusion.{holds, Owned, tracked-task}

-- The mutex is held, or has been handed over to a thread that has not looked yet.
abbrev pub owning : Stand → Bool
owning (resumed msec) = true
owning p = holds p

abbrev pub is_waking : Stand → Bool
is_waking waking = true
is_waking _ = false

abbrev pub is_asleep : Stand → Bool
is_asleep (asleep msec) = true
is_asleep _ = false

-- A wait is entered with a value that was not 0.
abbrev pub saw : Stand → Bool
saw (entering msec seen) = not (seen == 0)
saw _ = true

abbrev pub some_wait : List ℕ → ℕ
some_wait [] = 0
some_wait (w ∷ ws) = 1

some_wait-enqueue : (prio : ℕ → ℕ) (t : ℕ) (ws : List ℕ) → some_wait (enqueue prio t ws) ≡ 1
unfolding enqueue
some_wait-enqueue prio t [] = refl
some_wait-enqueue prio t (w ∷ ws) = ground arith

pub record Live (v : ℕ) (ws : List ℕ) (st : ℕ → Stand) : Type 0 where
  pub owned : v ≢ 0 → (t : ℕ) × (clear_bit0 v ≡ task t) × (owning (st t) ≡ true)
  pub contended : v % 2 ≡ some_wait ws
  pub saw_value : (j : ℕ) → saw (st j) ≡ true
  pub wakes : (j : ℕ) → is_waking (st j) ≡ true → v % 2 ≡ 1
  pub sleeps : (j : ℕ) → mem j ws ≡ true → is_asleep (st j) ≡ true
  pub distinct : Distinct ws

module _ (v : ℕ) (ws : List ℕ) (st : ℕ → Stand) (x : Live v ws st) (t : ℕ) where
  pub owner_owns : v ≢ 0 → clear_bit0 v ≡ task t → owning (st t) ≡ true
  owner_owns ne e =
      let (u, own, o) = x.owned ne in let same : u ≡ t = omega (arith, own, e) in rw (← same) o

  -- Another place for a thread, which owns the mutex there if it is the owner.
  pub keep :
      (p : Stand)
      → (v ≢ 0 → clear_bit0 v ≡ task t → owning p ≡ true)
      → saw p ≡ true
      → (is_waking p ≡ true → v % 2 ≡ 1)
      → (mem t ws ≡ true → is_asleep p ≡ true)
      → Live v ws (update st t p)
  keep p o s w a = record {
    owned = λ ne.
        let (u, own, ou) = x.owned ne in
        elim (Bool-cases (t == u)) [
          | inl e ↦ (u, own, ground (arith, o ne))
          | inr e ↦ (u, own, ground (arith, ou))
        ];
    contended = x.contended;
    saw_value = λ j. ground (arith, x.saw_value j);
    wakes = λ j h. ground (arith, x.wakes j);
    sleeps = λ j h. ground (arith, x.sleeps j, a);
    distinct = x.distinct;
  }

  pub not_queued : is_asleep (st t) ≡ false → mem t ws ≡ true → ⊥
  not_queued a h = absurd (ground (arith, x.sleeps t h, a))

  -- A thread takes a free mutex.
  pub take : v ≡ 0 → is_asleep (st t) ≡ false → Live (task t) ws (update st t holding)
  take free a = record {
    owned = λ ne. (t, omega arith, ground arith);
    contended = omega (arith, x.contended, free);
    saw_value = λ j. ground (arith, x.saw_value j);
    wakes = λ j h. absurd (ground (arith, x.wakes j));
    sleeps = λ j h. ground (arith, x.sleeps j, a);
    distinct = x.distinct;
  }

  -- A thread that holds the mutex alone frees it.
  pub free_it : v ≡ task t → st t ≡ releasing → Live 0 ws (update st t outside)
  free_it own r = record {
    owned = λ ne. absurd (ne refl);
    contended = omega (arith, x.contended, own);
    saw_value = λ j. ground (arith, x.saw_value j);
    wakes = λ j h. absurd (ground (arith, x.wakes j));
    sleeps = λ j h. ground (arith, x.sleeps j, r);
    distinct = x.distinct;
  }

  -- A thread falls asleep behind the owner.
  pub fall_asleep :
      (prio : ℕ → ℕ) (msec seen : ℕ)
      → st t ≡ entering msec seen
      → ((v == seen) || (v == set_bit0 seen)) ≡ true
      → Live (set_bit0 seen) (enqueue prio t ws) (update st t (asleep msec))
  fall_asleep prio msec seen r e = record {
    owned = λ ne.
        let (u, own, ou) = x.owned (ground (arith, x.saw_value t, r, e)) in
        (u, ground (arith, own, e), ground (arith, ou, r));
    contended = ground (arith, some_wait-enqueue prio t ws);
    saw_value = λ j. ground (arith, x.saw_value j);
    wakes = λ j h. omega arith;
    sleeps = λ j h. ground (arith, x.sleeps j, mem-enqueue prio j t ws);
    distinct = enqueue-Distinct prio t ws (ground (arith, x.sleeps t, r)) x.distinct;
  }

tracked_contended : (ws : List ℕ) (t : ℕ) → tracked ws (task t) % 2 ≡ some_wait ws
tracked_contended [] t = omega arith
tracked_contended (w ∷ ws) t = omega arith

waking_holds : (p : Stand) → is_waking p ≡ true → holds p ≡ true
waking_holds waking h = refl
waking_holds outside h = h
waking_holds holding h = refl
waking_holds releasing h = refl
waking_holds (trying msec) h = h
waking_holds (asleep msec) h = h
waking_holds (resumed msec) h = h
waking_holds (entering msec seen) h = h

-- The first waiter becomes the owner; the thread that held the mutex leaves.
pub pass_on :
    (v w : ℕ) (ws : List ℕ) (st : ℕ → Stand) (t msec : ℕ)
    → Live v (w ∷ ws) st
    → Owned v st
    → st t ≡ waking
    → Live (tracked ws (task w)) ws (update (update st w (resumed msec)) t outside)
pass_on v w ws st t msec x o r =
    let w_sleeps : is_asleep (st w) ≡ true = x.sleeps w (ground arith) in
    let apart : w ≢ t = λ e. ground (arith, w_sleeps, r, e) in
    record {
      owned = λ ne. (w, tracked-task ws w, ground (arith, apart));
      contended = tracked_contended ws w;
      saw_value = λ j. ground (arith, x.saw_value j);
      wakes = λ j h. absurd (ground (arith, o.owner j, o.owner t, waking_holds (st j), r, h));
      sleeps = λ j h. ground (arith, x.sleeps j, r, h);
      distinct = x.distinct.1;
    }
