-- ===== src/Threads/Life/Cleanup.antt =====
-- Who cleans up after a thread of the C library.
use pico_toolkit.Base.{
  ℕ, ◌≡◌, refl, Bool, true, false, Option, none, some, List, [], ◌∷◌, arith, update, update_self,
  erase, ap, ◌∙◌,
}
use pico_toolkit.Threads.{success}
use pico_toolkit.Threads.Life.{
  Thread, System, create, exit, detach, reap, reap_all, Wait, await, leave, join,
}

-- What threads do: they are created, detached, leave, and the reaper wakes up.
pub data Event : Type 0 where
  creates : Option ℕ → Bool → Event
  detaches : ℕ → ℕ → Event
  exits : ℕ → ℕ → Event
  reaps : Event

unfoldable pub happen : Event → System → System
unfolding create detach exit reap_all
happen (creates block scheduled) s = (create block scheduled s).1
happen (detaches self t) s = (detach self t s).1
happen (exits t res) s = (exit t res s).1
happen reaps s = reap_all s

unfoldable pub run : List Event → System → System
unfolding happen
run [] s = s
run (e ∷ es) s = run es (happen e s)

abbrev pub NoneDetached : System → Type 0
NoneDetached s = (t : ℕ) → (s.thread t).detached ≡ false

reap_none : (ts : List ℕ) (s : System) → NoneDetached s → reap ts s ≡ s
unfolding reap
reap_none [] s h = refl
reap_none (t ∷ ts) s h = rw (h t) (reap_none ts s h)

happen-NoneDetached : (e : Event) (s : System) → NoneDetached s → NoneDetached (happen e s)
unfolding happen create detach exit reap_all
happen-NoneDetached (creates none b) s h t = h t
happen-NoneDetached (creates (some u) true) s h t = ground (arith, h t)
happen-NoneDetached (creates (some u) false) s h t = ground (arith, h t)
happen-NoneDetached (detaches self u) s h t = h t
happen-NoneDetached (exits u res) s h t = ground (arith, h t, h u)
happen-NoneDetached reaps s h t = rw (reap_none s.thrds s h) (h t)

run-NoneDetached : (es : List Event) (s : System) → NoneDetached s → NoneDetached (run es s)
unfolding run
run-NoneDetached [] s h = h
run-NoneDetached (e ∷ es) s h = run-NoneDetached es (happen e s) (happen-NoneDetached e s h)

-- If no thread is marked as detached at first, then whatever threads are created, detached and exit,
-- the reaper changes nothing: a detached thread is never taken off the list and its memory is never
-- released, since thrd_detach does not mark it.
pub reap_all-run : (es : List Event) (s : System) → NoneDetached s → reap_all (run es s) ≡ run es s
unfolding reap_all
reap_all-run es s h = reap_none (run es s).thrds (run es s) (run-NoneDetached es s h)

await-terminated :
    (t : ℕ) (ws : List Wait) (s : System)
    → (s.thread t).terminated ≡ true
    → await t ws s ≡ some (success, s)
unfolding await
await-terminated t [] s e = rw e
await-terminated t (w ∷ ws) s e = rw e

join-terminated :
    (self t : ℕ) (ws : List Wait) (s : System)
    → (s.thread t).detached ≡ false
    → (s.thread t).joiner ≡ 0
    → (s.thread t).terminated ≡ true
    → let joined : System = record s {
      thread = update s.thread t (record (s.thread t) { joiner = self });
    } in
      join self t ws s ≡ leave t (some (success, joined))
unfolding join
join-terminated self t ws s d j e =
    let joined : System = record s {
      thread = update s.thread t (record (s.thread t) { joiner = self });
    } in
    let over : (joined.thread t).terminated ≡ true = ground (arith, e) in
    rw (await-terminated t ws joined over, d, j)

-- The join of a thread that is not detached and has no joiner, and has exited, succeeds without a
-- wait: it returns the result of the thread, which is off the list with its memory released.
pub join-exit :
    (self t res : ℕ) (ws : List Wait) (s : System)
    → (s.thread t).detached ≡ false
    → (s.thread t).joiner ≡ 0
    → (s' : System) × (join self t ws (exit t res s).1 ≡ some (success, res, s'))
      × (s'.thrds ≡ erase t s.thrds)
      × (s'.released ≡ t ∷ s.released)
unfolding exit
join-exit self t res ws s d j =
    let s1 : System = (exit t res s).1 in
    let here : s1.thread t ≡ record (s.thread t) { ret = res; terminated = true } =
      update_self s.thread t _ in
    let joined : System = record s1 {
      thread = update s1.thread t (record (s1.thread t) { joiner = self });
    } in
    let result : (joined.thread t).ret ≡ res =
      ap Thread.ret (update_self s1.thread t _) ∙ ap Thread.ret here in
    (
      record joined { thrds = erase t s.thrds; released = t ∷ s.released },
      join-terminated self t ws s1 (ap Thread.detached here ∙ d) (ap Thread.joiner here ∙ j)
            (ap Thread.terminated here)
          ∙ ap
              (λ r.
                some (
                  success,
                  r,
                  record joined { thrds = erase t s.thrds; released = t ∷ s.released },
                ))
              result,
      refl,
      refl,
    )
