-- ===== src/Rtos/EventFlags/Met.antt =====
-- A wait for flags is answered with flags that meet it.
use pico_toolkit.Base.{
  ℕ, ◌+◌, ◌≡◌, Bool, true, false, Option, none, some, List, [], ◌∷◌, ◌==◌, if◌then◌else◌, has_any,
  has_all, All, Bool-cases, bit, AllSet, AnySet, has_all-AllSet, has_any-AnySet, inl, inr,
}
use pico_toolkit.Scheduler.State.{Code, done, failed}
use pico_toolkit.Rtos.{
  Status, ok, error, error_timeout, error_resource, error_parameter, error_no_memory, error_isr,
  Context, context_is_valid, is_resource_valid, if_ok,
}
use pico_toolkit.Rtos.EventFlags.{
  EventFlags, Answer, were, flags_error, flags_error_parameter, flags_error_resource, refused,
  exits, Options, Round, is_met, after_wait, wait_loop, wait, marker_of,
}

-- What a wait asks of the flags, bit by bit: all of a mask, or any.
abbrev pub Seen : Bool → ℕ → ℕ → Type 0
Seen true flags now = AllSet now flags
Seen false flags now = AnySet now flags

-- Flags that are an answer have what the wait asks for.
abbrev pub Meets : Options → ℕ → Option (Answer × EventFlags) → Type 0
Meets o flags none = Unit
Meets o flags (some (were now, e)) = Seen o.wait_all flags now
Meets o flags (some (flags_error, e)) = Unit
Meets o flags (some (flags_error_parameter, e)) = Unit
Meets o flags (some (flags_error_resource, e)) = Unit
Meets o flags (some (refused s, e)) = Unit
Meets o flags (some (exits, e)) = Unit

-- Between a look and the clearing nobody clears a flag of the mask.
abbrev pub Keeping : ℕ → Round → Type 0
Keeping flags r =
    (e : EventFlags) (i : ℕ)
    → bit flags i ≡ true
    → bit e.flags i ≡ true
    → bit (r.between e).flags i ≡ true

met-Seen :
    (all : Bool) (flags now : ℕ)
    → (if all then has_all now flags else has_any now flags) ≡ true
    → Seen all flags now
met-Seen true flags now h = has_all-AllSet now flags h
met-Seen false flags now h = has_any-AnySet now flags h

kept :
    (all : Bool) (flags : ℕ) (r : Round) (e : EventFlags)
    → Keeping flags r
    → Seen all flags e.flags
    → Seen all flags (r.between e).flags
kept true flags r e k seen = λ i m. k e i m (seen i m)
kept false flags r e k (i, (m, f)) = (i, (m, k e i m f))

after_wait-Meets :
    (o : Options) (flags : ℕ) (code : Code) (e : EventFlags) (go : Option (Answer × EventFlags))
    → Meets o flags go
    → Meets o flags (after_wait code e go)
after_wait-Meets o flags (done n) e go m = m
after_wait-Meets o flags (failed err) e go m = tt

wait_loop-Meets :
    (o : Options) (flags timeout : ℕ) (rs : List Round) (e : EventFlags)
    → All (Keeping flags) rs
    → Meets o flags (wait_loop o flags timeout rs e)
unfolding wait_loop
wait_loop-Meets o flags timeout [] e k = tt
wait_loop-Meets o flags timeout (r ∷ rs) e (k, ks) = elim (Bool-cases (is_met o flags e.flags)) [
  | inl met ↦ rw met (kept o.wait_all flags r e k (met-Seen o.wait_all flags e.flags met))
  | inr unmet ↦ elim (Bool-cases (timeout == 0)) [
    | inl h ↦ rw (unmet, h) tt
    | inr h ↦ elim (Bool-cases (has_any e.flags 0x80000000)) [
      | inl g ↦ rw (unmet, h, g) tt
      | inr g ↦
          rw (unmet, h, g)
            (after_wait-Meets o flags r.result (r.others e) _
              (wait_loop-Meets o flags timeout rs (r.others e) ks))
    ]
  ]
]

if_ok-Meets :
    (o : Options) (flags : ℕ) (s : Status) (e : EventFlags) (go : Option (Answer × EventFlags))
    → Meets o flags go
    → Meets o flags (if_ok s (λ t. some (refused t, e)) go)
if_ok-Meets o flags ok e go m = m
if_ok-Meets o flags error e go m = tt
if_ok-Meets o flags error_timeout e go m = tt
if_ok-Meets o flags error_resource e go m = tt
if_ok-Meets o flags error_parameter e go m = tt
if_ok-Meets o flags error_no_memory e go m = tt
if_ok-Meets o flags error_isr e go m = tt

-- Flags that answer a wait have every bit of the mask set if all are asked for, and else one of them,
-- whatever happens during the waits, if nobody clears a flag of the mask between a look and the clearing.
pub wait-Meets :
    (c : Context) (ef_id flags : ℕ) (o : Options) (timeout : ℕ) (rs : List Round) (e : EventFlags)
    → All (Keeping flags) rs
    → Meets o flags (wait c ef_id flags o timeout rs e)
unfolding wait
wait-Meets c ef_id flags o timeout rs e ks = elim (Bool-cases (has_any flags 0x80000000)) [
  | inl h ↦ rw h tt
  | inr h ↦ rw h (
      if_ok-Meets o flags (context_is_valid true timeout c) e _ (
        if_ok-Meets o flags (is_resource_valid ef_id e.marker marker_of) e _
          (wait_loop-Meets o flags timeout rs (record e { waiters = e.waiters + 1 }) ks)))
]
