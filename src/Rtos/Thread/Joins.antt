-- ===== src/Rtos/Thread/Joins.antt =====
-- A join of a thread whose exit handler has run.
use pico_toolkit.Base.{
  ℕ, ◌≡◌, refl, sym, ap, ◌∙◌, true, false, Option, some, List, ◌∷◌, ◌==◌, update, update_self, mem,
  erase, arith, subst, has_any,
}
use pico_toolkit.Scheduler.State.{Code, done, terminated}
use pico_toolkit.Rtos.{Status, ok, Context, context_is_valid, is_resource_valid}
use pico_toolkit.Rtos.EventFlags.{EventFlags}
use pico_toolkit.Rtos.EventFlags as Flags
use pico_toolkit.Rtos.Thread.{Thread, Threads, valid, thread_marker, get_state, exit_handler}
use pico_toolkit.Rtos.Thread.End.{Helpers, clean, join}
use pico_toolkit.Rtos.Thread.Cleanup.{Helpful, Ended, cleaned, clean_lem}

-- Nobody has waited for the end of the thread, and it has not ended.
abbrev pub not_joined : EventFlags
not_joined = record { marker = Flags.marker_of; flags = 0; waiters = 0 }

-- A joinable thread of the kernel, before its end.
pub record Joinable (t : ℕ) (s : Threads) : Type 0 where
  pub is_valid : valid t s ≡ ok
  pub joins : (s.thread t).is_joinable ≡ true
  pub runs : (s.thread t).is_reaped ≡ false
  pub fresh : (s.thread t).joiner ≡ not_joined
  pub flags : is_resource_valid t (s.thread t).flags.marker Flags.marker_of ≡ ok
  pub no_waiter : (s.thread t).flags.waiters ≡ 0
  pub listed : mem t s.registered ≡ true

-- A round in which nobody else touches the flags.
abbrev pub quiet : Flags.Round
quiet = record { between = λ e. e; others = λ e. e; result = done 0 }

set_fresh :
    (wake : Code) (t : ℕ)
    → (t == 0) ≡ false
    → (Flags.set wake t 0x40000000 not_joined).1 ≡ record not_joined { flags = 0x40000000 }
unfolding Flags.set Flags.in_range is_resource_valid has_any
set_fresh wake t nz = ground (arith, nz)

-- The exit handler has told whoever joins.
unfoldable pub told : ℕ → Threads → Threads
told t s = record s {
  thread =
      update s.thread t (record (s.thread t) { joiner = record not_joined { flags = 0x40000000 } });
}

exit_lem :
    (wake : Code) (reaper t : ℕ) (s : Threads)
    → (t == 0) ≡ false
    → Joinable t s
    → (exit_handler wake reaper t s).1 ≡ told t s
unfolding exit_handler told
exit_lem wake reaper t s nz j = rw (j.joins, j.fresh, set_fresh wake t nz) refl

wait_lem :
    (c : Context) (t : ℕ) (rs : List Flags.Round)
    → (t == 0) ≡ false
    → context_is_valid true 0xffffffff c ≡ ok
    → Flags.wait c t 0x40000000
        (record { wait_all = false; no_clear = false })
        0xffffffff
        (quiet ∷ rs)
        (record not_joined { flags = 0x40000000 })
      ≡ some (Flags.were 0x40000000, not_joined)
unfolding Flags.wait Flags.wait_loop is_resource_valid has_any
wait_lem c t rs nz i = rw (i, nz) refl

-- The same after its end.
record Over (t : ℕ) (s : Threads) : Type 0 where
  is_valid : valid t s ≡ ok
  joins : (s.thread t).is_joinable ≡ true
  runs : (s.thread t).is_reaped ≡ false
  ended : (s.thread t).joiner ≡ record not_joined { flags = 0x40000000 }
  flags : is_resource_valid t (s.thread t).flags.marker Flags.marker_of ≡ ok
  no_waiter : (s.thread t).flags.waiters ≡ 0
  listed : mem t s.registered ≡ true

told-Over : (t : ℕ) (s : Threads) → Joinable t s → Over t (told t s)
unfolding told
told-Over t s j =
    let th : Thread = record (s.thread t) { joiner = record not_joined { flags = 0x40000000 } } in
    let at_t = update_self s.thread t th in
    record {
      is_valid = ap (λ x. is_resource_valid t x.marker thread_marker) at_t ∙ j.is_valid;
      joins = ap (λ x. x.is_joinable) at_t ∙ j.joins;
      runs = ap (λ x. x.is_reaped) at_t ∙ j.runs;
      ended = ap (λ x. x.joiner) at_t;
      flags = ap (λ x. is_resource_valid t x.flags.marker Flags.marker_of) at_t ∙ j.flags;
      no_waiter = ap (λ x. x.flags.waiters) at_t ∙ j.no_waiter;
      listed = j.listed;
    }

-- The state before the clean-up of a join.
unfoldable pub unlisted : ℕ → Threads → Threads
unlisted t s = record s {
  thread = update s.thread t (record (s.thread t) { joiner = not_joined });
  registered = erase t s.registered;
}

unlisted-Ended :
    (t : ℕ) (s : Threads) → (t == 0) ≡ false → Over t s → Ended t ((unlisted t s).thread t)
unfolding unlisted is_resource_valid
unlisted-Ended t s nz o =
    subst (Ended t) (sym (update_self s.thread t (record (s.thread t) { joiner = not_joined })))
      (record {
        joiner = ground (arith, nz);
        no_joiner = refl;
        flags = o.flags;
        no_waiter = o.no_waiter;
      })

join_to :
    (c : Context) (rs : List Flags.Round) (h : Helpers) (self t : ℕ) (s : Threads)
    (r : Option (Status × Threads))
    → (t == 0) ≡ false
    → (t == self) ≡ false
    → context_is_valid false 0 c ≡ ok
    → context_is_valid true 0xffffffff c ≡ ok
    → Over t s
    → some (clean c h t (unlisted t s)) ≡ r
    → join c terminated (quiet ∷ rs) (λ x. x) ok h self t s ≡ r
unfolding join get_state unlisted
join_to c rs h self t s r nz other i i2 o e =
    rw (i, o.listed, o.is_valid, o.runs, o.joins, other, o.ended, wait_lem c t rs nz i2) e

-- A join of a joinable thread that has ended, by another thread, with a valid call and with what it
-- calls succeeding, returns osOK at its first look at the flags: the thread is out of the kernel's
-- list and cleaned up, its memory released if it was allocated.
pub join-exit_handler :
    (c : Context) (wake : Code) (rs : List Flags.Round) (h : Helpers) (reaper self t : ℕ)
    (s : Threads)
    → (t == 0) ≡ false
    → (t == self) ≡ false
    → context_is_valid false 0 c ≡ ok
    → context_is_valid true 0xffffffff c ≡ ok
    → Helpful h
    → Joinable t s
    → join c terminated (quiet ∷ rs) (λ x. x) ok h self t (exit_handler wake reaper t s).1
      ≡ some (ok, cleaned t (unlisted t (told t s)))
join-exit_handler c wake rs h reaper self t s nz other i i2 hh j =
    ap (join c terminated (quiet ∷ rs) (λ x. x) ok h self t) (exit_lem wake reaper t s nz j)
    ∙ join_to c rs h self t (told t s) _ nz other i i2 (told-Over t s j) (
        ap some (
          clean_lem c h t (unlisted t (told t s)) i hh
            (unlisted-Ended t (told t s) nz (told-Over t s j))))
