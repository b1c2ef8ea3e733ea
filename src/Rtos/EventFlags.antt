-- ===== src/Rtos/EventFlags.antt =====
-- pico-cmsis-rtos2/cmsis-rtos2-eventflags.c: set, clear, get, and the wait for any or all of some flags.
pub mod Met
mod Tests
use Prim.Native.Nat.{bit_and, bit_or}
use pico_toolkit.Base.{
  ℕ, zero, suc, ◌+◌, ◌-◌, Bool, true, false, not, Option, none, some, List, [], ◌∷◌, ◌==◌,
  if◌then◌else◌, has_any, has_all,
}
use pico_toolkit.Scheduler.State.{Code, done, failed, Errno, etimedout, ecanceled}
use pico_toolkit.Rtos.{
  Status, ok, error, error_timeout, error_resource, error_parameter, Context, context_is_valid,
  is_resource_valid, if_ok,
}

-- `struct rtos_eventflags`
pub record EventFlags : Type 0 where
  pub marker : ℕ
  pub flags : ℕ
  pub waiters : ℕ

-- What a function returns: flags, an `osFlagsError` value, or a status in their place.
pub data Answer : Type 0 where
  were : ℕ → Answer
  flags_error flags_error_parameter flags_error_resource : Answer
  refused : Status → Answer
  -- The thread ends.
  exits : Answer

abbrev pub marker_of : ℕ
marker_of = 0x42055024

abbrev error_bit : ℕ
error_bit = 0x80000000

abbrev bits_not : ℕ → ℕ
bits_not flags = 0xffffffff - flags

-- The guard of set and clear.
unfoldable pub in_range : ℕ → ℕ → EventFlags → Bool
in_range ef_id flags e =
    if has_any flags error_bit
    then false
    else if_ok (is_resource_valid ef_id e.marker marker_of) (λ s. false) true

-- The result of the wake counts only if a flag is new.
abbrev after_wake : Code → ℕ → Answer
after_wake (done n) now = were now
after_wake (failed e) now = flags_error

unfoldable pub set : Code → ℕ → ℕ → EventFlags → Answer × EventFlags
set wake ef_id flags e =
    let now = bit_or e.flags flags in
    let answer = if has_all e.flags flags then were e.flags else after_wake wake now in
    if in_range ef_id flags e
    then (answer, record e { flags = now })
    else (flags_error_parameter, e)

unfoldable pub clear : ℕ → ℕ → EventFlags → Answer × EventFlags
clear ef_id flags e =
    if in_range ef_id flags e
    then (were e.flags, record e { flags = bit_and e.flags (bits_not flags) })
    else (flags_error_parameter, e)

unfoldable pub get : ℕ → EventFlags → ℕ
get ef_id e = if_ok (is_resource_valid ef_id e.marker marker_of) (λ s. 0) e.flags

-- `osEventFlagsDelete`, where `removed` is the answer of the kernel's list; the flags stay as they are.
unfoldable pub delete : Context → ℕ → Status → EventFlags → Status
delete c ef_id removed e =
    let idle = if e.waiters == 0 then removed else error_resource in
    if_ok (context_is_valid false 0 c) (λ s. s)
      (if_ok (is_resource_valid ef_id e.marker marker_of) (λ s. s) idle)

-- The options of a wait.
pub record Options : Type 0 where
  pub wait_all : Bool
  pub no_clear : Bool

abbrev pub is_met : Options → ℕ → ℕ → Bool
is_met o flags now = if o.wait_all then has_all now flags else has_any now flags

-- One round of the loop: what others do between the look at the flags and their clearing, what they do
-- during a wait on the futex, and its status.
pub record Round : Type 0 where
  pub between : EventFlags → EventFlags
  pub others : EventFlags → EventFlags
  pub result : Code

abbrev leaves : EventFlags → EventFlags
leaves e = record e { waiters = e.waiters - 1 }

abbrev clears : Options → ℕ → ℕ
clears o flags = if o.no_clear then 0xffffffff else bits_not flags

abbrev pub takes : Options → ℕ → EventFlags → Answer × EventFlags
takes o flags e = (were e.flags, record (leaves e) { flags = bit_and e.flags (clears o flags) })

abbrev pub broken_wait : Errno → Status
broken_wait etimedout = error_timeout
broken_wait ecanceled = error_timeout
broken_wait _ = error

abbrev pub after_wait :
    Code → EventFlags → Option (Answer × EventFlags) → Option (Answer × EventFlags)
after_wait (failed err) e go = some (refused (broken_wait err), leaves e)
after_wait (done n) e go = go

-- The loop; `none` while it waits after the given rounds.
unfoldable pub wait_loop : Options → ℕ → ℕ → List Round → EventFlags → Option (Answer × EventFlags)
wait_loop o flags timeout [] e = none
wait_loop o flags timeout (r ∷ rs) e =
    let e1 = r.others e in
    let rest = wait_loop o flags timeout rs e1 in
    if is_met o flags e.flags
    then some (takes o flags (r.between e))
    else if timeout == 0
    then some (flags_error_resource, leaves e)
    else if has_any e.flags error_bit
    then some (exits, leaves e)
    else after_wait r.result e1 rest

unfoldable pub wait :
    Context → ℕ → ℕ → Options → ℕ → List Round → EventFlags → Option (Answer × EventFlags)
unfolding wait_loop
wait c ef_id flags o timeout rs e =
    let loop = wait_loop o flags timeout rs (record e { waiters = e.waiters + 1 }) in
    let valid =
      if_ok (is_resource_valid ef_id e.marker marker_of) (λ s. some (refused s, e)) loop in
    if has_any flags error_bit
    then some (flags_error_parameter, e)
    else if_ok (context_is_valid true timeout c) (λ s. some (refused s, e)) valid
