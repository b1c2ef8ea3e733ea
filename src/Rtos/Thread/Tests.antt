-- ===== src/Rtos/Thread/Tests.antt =====
-- pico-cmsis-rtos2/cmsis-rtos2-thread.c at small inputs.
use pico_toolkit.Base.{
  ℕ, ◌≡◌, refl, sym, subst, has_any, has_all, Bool, true, false, some, [], ◌∷◌, ◌==◌, if◌then◌else◌,
  arith, Bool-cases, inl, inr,
}
use pico_toolkit.Scheduler.State.{done, terminated}
use pico_toolkit.Rtos.{ok, Context, context_is_valid, is_resource_valid}
use pico_toolkit.Rtos.EventFlags.{EventFlags, were}
use pico_toolkit.Rtos.EventFlags as Flags
use pico_toolkit.Rtos.Thread.{Thread, Threads, thread_marker, detach, exit_handler}
use pico_toolkit.Rtos.Thread.End.{Helpers, reap, join}
use pico_toolkit.Rtos.Thread.Joins.{Joinable, quiet, told, unlisted, join-exit_handler}
use pico_toolkit.Rtos.Thread.Cleanup.{cleaned, Ended, Helpful, reaped, AllEnded}
use pico_toolkit.Rtos.Thread.Reaper.{Reaped, reap-Reaped}

abbrev no_flags : EventFlags
no_flags = record { marker = 0x42055024; flags = 0; waiters = 0 }

abbrev alive : Bool → Thread
alive joinable = record {
  marker = thread_marker;
  is_joinable = joinable;
  is_reaped = false;
  is_dynamic = true;
  joiner = no_flags;
  flags = no_flags;
}

-- Thread 100 is the reaper, 200 is joinable, 300 detached and at its end.
abbrev three : Threads
three = record {
  thread = λ t. if t == 300 then record (alive false) { is_reaped = true } else alive (t == 200);
  registered = 100 ∷ 200 ∷ 300 ∷ [];
  released = [];
}

abbrev here : Context
here = record { ipsr = 0; is_realtime = false }

abbrev helpers : Helpers
helpers = record { robust = ok; joiner_removed = ok; flags_removed = ok }

helpers-Helpful : Helpful helpers
helpers-Helpful = record { robust = refl; joiner_removed = refl; flags_removed = refl }

detached_reaped : ((detach here terminated (done 0) 100 200 three).1.thread 200).is_reaped ≡ true
unfolding detach context_is_valid is_resource_valid has_any Flags.in_range has_all
detached_reaped = refl

Ended-300 : Ended 300 (three.thread 300)
unfolding is_resource_valid
Ended-300 = record { joiner = refl; no_joiner = refl; flags = refl; no_waiter = refl }

ended-AllEnded : AllEnded (reaped three.thread three.registered) three
ended-AllEnded t m = elim (Bool-cases (t == 300)) [
  | inl e ↦ subst (λ x. Ended x (three.thread x)) (sym (same e)) Ended-300
  | inr e ↦ absurd (ground (arith, m, e))
]
  where
    same : {t : ℕ} → (t == 300) ≡ true → t ≡ 300
    same e = ground (arith, e)

reap-Reaped_example : (s : Threads) × (reap here (λ t. helpers) 2 three ≡ some s) × Reaped three s
unfolding context_is_valid is_resource_valid
reap-Reaped_example =
    reap-Reaped here (λ t. helpers) three refl (λ t. helpers-Helpful) (refl, (refl, (refl, tt)))
      (refl, (refl, (refl, tt))) ended-AllEnded

alive-Joinable : Joinable 200 three
unfolding is_resource_valid
alive-Joinable = record {
  is_valid = refl;
  joins = refl;
  runs = refl;
  fresh = refl;
  flags = refl;
  no_waiter = refl;
  listed = refl;
}

join-exit_handler_example :
    join here terminated
      (quiet ∷ [])
      (λ x. x)
      ok
      helpers
      100
      200
      (exit_handler (done 0) 100 200 three).1
    ≡ some (ok, cleaned 200 (unlisted 200 (told 200 three)))
unfolding context_is_valid
join-exit_handler_example =
    join-exit_handler here (done 0) [] helpers 100 100 200 three refl refl refl refl helpers-Helpful
      alive-Joinable
