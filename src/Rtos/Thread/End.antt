-- ===== src/Rtos/Thread/End.antt =====
-- pico-cmsis-rtos2/cmsis-rtos2-thread.c: the reaper and osThreadJoin, which clean up after a thread.
use pico_toolkit.Base.{
  ℕ, zero, suc, false, Option, none, some, List, [], ◌∷◌, ◌==◌, if◌then◌else◌, update, mem, erase,
}
use pico_toolkit.Scheduler.State.{TaskState}
use pico_toolkit.Rtos.{
  Status, ok, error, error_resource, error_parameter, Context, context_is_valid, if_ok,
}
use pico_toolkit.Rtos.EventFlags.{
  EventFlags, Answer, were, flags_error, flags_error_parameter, flags_error_resource, refused,
  exits, Options,
}
use pico_toolkit.Rtos.EventFlags as Flags
use pico_toolkit.Rtos.Thread.{Threads, ThreadState, state_error, valid, joined, get_state}

-- What the calls of a clean-up answer: the release of the robust mutexes, and the removals of the two
-- flags from the kernel's list.
pub record Helpers : Type 0 where
  pub robust : Status
  pub joiner_removed : Status
  pub flags_removed : Status

-- The end of `osThreadJoin` and of a turn of the reaper.
unfoldable pub clean : Context → Helpers → ℕ → Threads → Status × Threads
unfolding Flags.delete
clean c h t s =
    let th = s.thread t in
    let gone = record s {
      thread = update s.thread t (record th { marker = 0 });
      released = if th.is_dynamic then t ∷ s.released else s.released;
    } in
    if_ok h.robust (λ e. (e, s))
      (if_ok (Flags.delete c t h.joiner_removed th.joiner) (λ e. (e, s))
        (if_ok (Flags.delete c t h.flags_removed th.flags) (λ e. (e, s)) (ok, gone)))

-- `osThreadReap` for each thread of the kernel's list: those that stay, and those to reap. Without a
-- result the code aborts.
unfoldable pub gather : List ℕ → Threads → Option (List ℕ × List ℕ)
gather [] s = some ([], [])
gather (t ∷ ts) s =
    let rest = gather ts s in
    if_ok (valid t s) (λ e. none)
      (elim rest as (λ r. Option (List ℕ × List ℕ)) [
        | none ↦ none
        | some r ↦ some (if (s.thread t).is_reaped then (r.0, t ∷ r.1) else (t ∷ r.0, r.1))
      ])

unfoldable pub clean_all : Context → (ℕ → Helpers) → List ℕ → Threads → Option Threads
unfolding clean
clean_all c h [] s = some s
clean_all c h (t ∷ ts) s =
    let r = clean c (h t) t s in let rest = clean_all c h ts r.1 in if_ok r.0 (λ e. none) rest

abbrev pub after_clean : (Threads → Option Threads) → Option Threads → Option Threads
after_clean next none = none
after_clean next (some s) = next s

-- A turn of the loop of the reaper, after `gather`.
abbrev pub after_gather :
    Context
    → (ℕ → Helpers)
    → (Threads → Option Threads)
    → Threads
    → Option (List ℕ × List ℕ)
    → Option Threads
after_gather c h next s none = none
after_gather c h next s (some (stay, [])) = some (record s { registered = stay })
after_gather c h next s (some (stay, t ∷ ts)) =
    after_clean next (clean_all c h (t ∷ ts) (record s { registered = stay }))

-- `while (true)` of the reaper, once it is called; `none` is an abort, or fuel that ran out.
unfoldable pub reap : Context → (ℕ → Helpers) → ℕ → Threads → Option Threads
unfolding gather clean_all
reap c h zero s = none
reap c h (suc fuel) s = after_gather c h (reap c h fuel) s (gather s.registered s)

abbrev pub any_flag : Options
any_flag = record { wait_all = false; no_clear = false }

-- `osThreadJoin` by `self`; `rounds` are those of the wait, `others` what others did to the threads in
-- it, and `removed` the answer of the kernel's list. Without a result it does not return.
unfoldable pub join :
    Context
    → TaskState
    → List Flags.Round
    → (Threads → Threads)
    → Status
    → Helpers
    → ℕ
    → ℕ
    → Threads
    → Option (Status × Threads)
unfolding get_state clean Flags.wait
join c task rounds others removed h self t s =
    let out = Flags.wait c t joined any_flag 0xffffffff rounds (s.thread t).joiner in
    let wait = if t == self then some (error_resource, s) else waited out in
    let here = if (s.thread t).is_joinable then wait else some (error_resource, s) in
    let known = by_state (get_state c task t s) here in
    let listed = if_ok (valid t s) (λ e. some (e, s)) known in
    if_ok (context_is_valid false 0 c) (λ e. some (e, s))
      (if mem t s.registered then listed else some (error_parameter, s))
  where
    by_state : ThreadState → Option (Status × Threads) → Option (Status × Threads)
    by_state state_error go = some (error_parameter, s)
    by_state _ go = go

    finish : EventFlags → Option (Status × Threads)
    finish e =
        let s1 = others s in
        let s2 = record s1 { thread = update s1.thread t (record (s1.thread t) { joiner = e }) } in
        let s3 = record s2 { registered = erase t s2.registered } in
        if_ok removed (λ f. some (f, s2)) (some (clean c h t s3))

    waited : Option (Answer × EventFlags) → Option (Status × Threads)
    waited none = none
    waited (some (were n, e)) = finish e
    waited (some (flags_error, e)) = some (error, s)
    waited (some (flags_error_parameter, e)) = some (error_parameter, s)
    waited (some (flags_error_resource, e)) = some (error_resource, s)
    waited (some (refused f, e)) = some (f, s)
    waited (some (exits, e)) = none
