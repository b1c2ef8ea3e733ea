-- ===== src/Threads/Mutex/Waiters.antt =====
-- The waiters of a mutex of the C library: while no wait times out none is forgotten, and what a wait
-- that times out does to the next unlock.
use pico_toolkit.Base.{
  ℕ, ◌+◌, ◌-◌, ◌%◌, ◌≡◌, ◌≢◌, refl, Bool, true, false, ◌&&◌, ◌||◌, List, [], ◌∷◌, arith, ◌==◌, ltb,
  update, clear_bit0, set_bit0, Bool-cases, ==_iff, inl, inr, ◌⊎◌, All,
}
use pico_toolkit.Threads.{success, forever}
use pico_toolkit.Threads.Mutex.{
  Stand, outside, holding, releasing, waking, trying, asleep, resumed, entering, Mutex, task,
  is_owner, begin_lock, try_value, enter_wait, look_again, begin_unlock, swap_out, wake_one,
  hand_over, try_lock, timeout_of, call, advance, Event, locks, tries, unlocks, goes_on, times_out,
  happen, run, init, returns, first_count,
}
use pico_toolkit.Threads.Mutex.Exclusion.{Excl, happen-Excl, init-Excl}
use pico_toolkit.Threads.Mutex.Live.{
  owning, is_waking, is_asleep, saw, some_wait, Live, owner_owns, keep, not_queued, take, free_it,
  fall_asleep, pass_on,
}

abbrev IsLive : Mutex → Type 0
IsLive m = Live m.value m.waiters m.stand

module _ (m : Mutex) (x : IsLive m) (t : ℕ) where
  -- A move of a thread that is awake, to a place where it owns the mutex, or from which it is not the
  -- owner.
  move :
      (p : Stand)
      → is_asleep (m.stand t) ≡ false
      → (m.value ≢ 0 → clear_bit0 m.value ≡ task t → owning p ≡ true)
      → saw p ≡ true
      → (is_waking p ≡ true → m.value % 2 ≡ 1)
      → Live m.value m.waiters (update m.stand t p)
  move p awake o s w =
      keep m.value m.waiters m.stand x t p o s w
        (λ h. absurd (not_queued m.value m.waiters m.stand x t awake h))

  disowned :
      {p : Stand} → m.stand t ≡ p → owning p ≡ false → m.value ≢ 0 → clear_bit0 m.value ≡ task t → ⊥
  disowned e o ne own =
      absurd (ground (arith, owner_owns m.value m.waiters m.stand x t ne own, e, o))

  same_place : Live m.value m.waiters (update m.stand t (m.stand t))
  same_place =
      keep m.value m.waiters m.stand x t (m.stand t) (owner_owns m.value m.waiters m.stand x t)
        (x.saw_value t) (x.wakes t) (x.sleeps t)

  taken-Live :
      (m.value == 0) ≡ true
      → is_asleep (m.stand t) ≡ false
      → IsLive (returns t holding success (first_count (record m { value = task t })))
  taken-Live e awake =
      let got : Live (task t) m.waiters (update m.stand t holding) =
        take m.value m.waiters m.stand x t ((==_iff _ 0).0 e) awake in
      elim (Bool-cases m.is_recursive) [ inl r ↦ rw r got | inr r ↦ rw r got ]

  begin_lock-Live : (msec : ℕ) → is_asleep (m.stand t) ≡ false → IsLive (begin_lock t msec m)
  unfolding begin_lock
  begin_lock-Live msec awake = elim (Bool-cases (is_owner t m)) [
    | inl e ↦ elim (Bool-cases m.is_recursive) [
      | inl r ↦ rw (e, r) (move holding awake (λ ne own. refl) refl (λ h. cc))
      | inr r ↦ rw (e, r) same_place
    ]
    | inr e ↦
        rw e (move (trying msec) awake (λ ne own. absurd (ground (arith, e, own))) refl (λ h. cc))
  ]

  try_value-Live : (msec : ℕ) → m.stand t ≡ trying msec → IsLive (try_value t msec m)
  unfolding try_value
  try_value-Live msec p = elim (Bool-cases (m.value == 0)) [
    | inl e ↦ rw e (taken-Live e (ground (arith, p)))
    | inr e ↦ rw e (
        move (entering msec m.value) (ground (arith, p)) (λ ne own. absurd (disowned p refl ne own))
          (ground (arith, e)) (λ h. cc))
  ]

  enter_wait-Live :
      (msec seen : ℕ) → m.stand t ≡ entering msec seen → IsLive (enter_wait t msec seen m)
  unfolding enter_wait
  enter_wait-Live msec seen p =
      elim (Bool-cases ((m.value == seen) || (m.value == set_bit0 seen))) [
        | inl e ↦ rw e (fall_asleep m.value m.waiters m.stand x t m.priority msec seen p e)
        | inr e ↦ rw e (move (resumed msec) (ground (arith, p)) (λ ne own. refl) refl (λ h. cc))
      ]

  look_again-Live : (msec : ℕ) → m.stand t ≡ resumed msec → IsLive (look_again t msec m)
  unfolding look_again
  look_again-Live msec p = elim (Bool-cases (is_owner t m)) [
    | inl e ↦
        let got : Live m.value m.waiters (update m.stand t holding) =
          move holding (ground (arith, p)) (λ ne own. refl) refl (λ h. cc) in
        elim (Bool-cases m.is_recursive) [ inl r ↦ rw (e, r) got | inr r ↦ rw (e, r) got ]
    | inr e ↦ rw e (
        move (trying msec) (ground (arith, p)) (λ ne own. absurd (ground (arith, e, own))) refl
          (λ h. cc))
  ]

  begin_unlock-Live : is_asleep (m.stand t) ≡ false → IsLive (begin_unlock t m)
  unfolding begin_unlock
  begin_unlock-Live awake =
      let last : Live m.value m.waiters (update m.stand t releasing) =
        move releasing awake (λ ne own. refl) refl (λ h. cc) in
      elim (Bool-cases (is_owner t m)) [
        | inr e ↦ rw e same_place
        | inl e ↦ elim (Bool-cases m.is_recursive) [
          | inr r ↦ rw (e, r) last
          | inl r ↦ elim (Bool-cases (ltb 0 (m.count - 1))) [
            | inl d ↦ rw (e, r, d) same_place
            | inr d ↦ rw (e, r, d) last
          ]
        ]
      ]

  try_lock-Live : is_asleep (m.stand t) ≡ false → IsLive (try_lock t m)
  unfolding try_lock
  try_lock-Live awake = elim (Bool-cases (m.is_recursive && (m.value == task t))) [
    | inl e ↦ rw e (move holding awake (λ ne own. refl) refl (λ h. cc))
    | inr e ↦ elim (Bool-cases (m.value == 0)) [
      | inl f ↦ rw (e, f) (taken-Live f awake)
      | inr f ↦ rw (e, f) same_place
    ]
  ]

  module _ (excl : Excl m) where
    swap_out-Live : m.stand t ≡ releasing → IsLive (swap_out t m)
    unfolding swap_out
    swap_out-Live p = elim (Bool-cases (m.value == task t)) [
      | inl e ↦ rw e (free_it m.value m.waiters m.stand x t ((==_iff _ _).0 e) p)
      | inr e ↦
          let own : clear_bit0 m.value ≡ task t = excl.owner t (ground (arith, p)) in
          rw e (move waking (ground (arith, p)) (λ ne o. refl) refl (λ h. ground (arith, own, e)))
    ]

    hand_over-Live :
        (ws : List ℕ) → Live m.value ws m.stand → m.stand t ≡ waking → IsLive (hand_over t m ws)
    hand_over-Live [] y p = absurd (omega (arith, y.contended, y.wakes t (ground (arith, p))))
    hand_over-Live (w ∷ ws) y p = pass_on m.value w ws m.stand t (timeout_of (m.stand w)) y excl p

    advance-Live : (p : Stand) → m.stand t ≡ p → IsLive (advance t m p)
    unfolding advance wake_one
    advance-Live outside e = x
    advance-Live holding e = x
    advance-Live (trying msec) e = try_value-Live msec e
    advance-Live (entering msec seen) e = enter_wait-Live msec seen e
    advance-Live (asleep msec) e = x
    advance-Live (resumed msec) e = look_again-Live msec e
    advance-Live releasing e = swap_out-Live e
    advance-Live waking e = hand_over-Live m.waiters x e

  call-Live :
      (f : Mutex → Mutex) (p : Stand)
      → m.stand t ≡ p
      → (is_asleep (m.stand t) ≡ false → IsLive (f m))
      → IsLive (call f m p)
  call-Live f outside e y = y (ground (arith, e))
  call-Live f holding e y = y (ground (arith, e))
  call-Live f releasing e y = x
  call-Live f waking e y = x
  call-Live f (trying msec) e y = x
  call-Live f (asleep msec) e y = x
  call-Live f (resumed msec) e y = x
  call-Live f (entering msec seen) e y = x

-- Nothing that happens is a time-out.
abbrev pub Untimed : Event → Type 0
Untimed (times_out t) = ⊥
Untimed _ = Unit

happen-Live : (e : Event) (m : Mutex) → Untimed e → Excl m → IsLive m → IsLive (happen e m)
unfolding happen
happen-Live (locks t msec) m u excl x =
    call-Live m x t (begin_lock t msec) (m.stand t) refl (begin_lock-Live m x t msec)
happen-Live (tries t) m u excl x =
    call-Live m x t (try_lock t) (m.stand t) refl (try_lock-Live m x t)
happen-Live (unlocks t) m u excl x =
    call-Live m x t (begin_unlock t) (m.stand t) refl (begin_unlock-Live m x t)
happen-Live (goes_on t) m u excl x = advance-Live m x t excl (m.stand t) refl
happen-Live (times_out t) m u excl x = absurd u

run-Live : (es : List Event) (m : Mutex) → All Untimed es → Excl m → IsLive m → IsLive (run es m)
unfolding run
run-Live [] m u excl x = x
run-Live (e ∷ es) m u excl x =
    run-Live es (happen e m) u.1 (happen-Excl e m excl) (happen-Live e m u.0 excl x)

init-Live : (recursive : Bool) (priority : ℕ → ℕ) → IsLive (init recursive priority)
unfolding init
init-Live recursive priority = record {
  owned = λ ne. absurd (ne refl);
  contended = omega arith;
  saw_value = λ j. refl;
  wakes = λ j h. absurd (cc);
  sleeps = λ j h. absurd (cc);
  distinct = tt;
}

-- Free with no one waiting, or owned: the value is the task of a thread that holds the mutex or has been
-- woken to hold it, and its lowest bit says whether threads wait.
abbrev pub Settled : Mutex → Type 0
Settled m =
    (m.value ≡ 0) × (some_wait m.waiters ≡ 0)
    ⊎ ((t : ℕ) × (m.value ≡ task t + some_wait m.waiters) × (owning (m.stand t) ≡ true))

Live-Settled : (m : Mutex) → IsLive m → Settled m
Live-Settled m x = elim (Bool-cases (m.value == 0)) [
  | inl e ↦
      let free : m.value ≡ 0 = (==_iff _ 0).0 e in inl (free, omega (arith, x.contended, free))
  | inr e ↦
      let (t, own, o) = x.owned (ground (arith, e)) in inr (t, omega (arith, own, x.contended), o)
]

-- From a new mutex, as long as no wait times out, in any interleaving: the mutex is free and no thread
-- waits, or it is owned by a thread that holds it or has been woken to hold it, and the mark of
-- contention is set exactly when threads wait, so that the unlock of the owner wakes one.
pub run-Settled :
    (es : List Event) (recursive : Bool) (priority : ℕ → ℕ)
    → All Untimed es
    → Settled (run es (init recursive priority))
run-Settled es recursive priority u =
    Live-Settled (run es (init recursive priority))
      (run-Live es _ u (init-Excl recursive priority) (init-Live recursive priority))

-- One thread locks, another waits for the mutex until its wait times out, and the first unlocks.
abbrev pub stale_unlock : ℕ → ℕ → ℕ → List Event
stale_unlock t u msec =
    locks t forever
    ∷ goes_on t
    ∷ locks u msec
    ∷ goes_on u
    ∷ goes_on u
    ∷ times_out u
    ∷ unlocks t
    ∷ goes_on t
    ∷ goes_on t
    ∷ []
