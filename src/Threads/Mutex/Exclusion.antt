-- ===== src/Threads/Mutex/Exclusion.antt =====
-- Mutual exclusion of a mutex of the C library, in any interleaving.
use pico_toolkit.Base.{
  ℕ, ◌-◌, ◌≡◌, ◌≢◌, refl, Bool, true, false, ◌&&◌, ◌||◌, List, [], ◌∷◌, arith, ◌==◌, ltb, update,
  clear_bit0, set_bit0, Bool-cases, ==_iff, inl, inr, ◌∙◌,
}
use pico_toolkit.Threads.{forever}
use pico_toolkit.Threads.Mutex.{
  Stand, outside, holding, releasing, waking, trying, asleep, resumed, entering, Mutex, task,
  is_owner, begin_lock, try_value, enter_wait, look_again, begin_unlock, swap_out, wake_one,
  hand_over, try_lock, timeout_of, tracked, call, advance, time_out, Event, locks, tries, unlocks,
  goes_on, times_out, happen, run, init,
}

-- From the return of the lock to the end of the unlock.
abbrev pub holds : Stand → Bool
holds holding = true
holds releasing = true
holds waking = true
holds _ = false

-- Whoever holds the mutex is its owner.
pub record Owned (value : ℕ) (stand : ℕ → Stand) : Type 0 where
  pub owner : (j : ℕ) → holds (stand j) ≡ true → clear_bit0 value ≡ task j

take :
    (v' t : ℕ) (p : Stand) (st : ℕ → Stand)
    → ((j : ℕ) → t ≢ j → holds (st j) ≡ true → clear_bit0 v' ≡ task j)
    → (holds p ≡ true → clear_bit0 v' ≡ task t)
    → Owned v' (update st t p)
take v' t p st others own = record {
  owner = λ j h. elim (Bool-cases (t == j)) [
    | inl e ↦ ground (arith, own, h)
    | inr e ↦ ground (arith, others j, h)
  ];
}

module _ {v : ℕ} {st : ℕ → Stand} (owned : Owned v st) where
  stay :
      (v' t : ℕ) (p : Stand)
      → clear_bit0 v' ≡ clear_bit0 v
      → (holds p ≡ true → clear_bit0 v ≡ task t)
      → Owned v' (update st t p)
  stay v' t p same own = take v' t p st (λ j ne h. same ∙ owned.owner j h) (λ h. same ∙ own h)

  -- The owner keeps all others from holding it.
  alone : (t j : ℕ) → clear_bit0 v ≡ task t → t ≢ j → holds (st j) ≡ true → ⊥
  alone t j own ne h = absurd (omega (arith, own, ne, owned.owner j h))

  unheld : (j : ℕ) → v ≡ 0 → holds (st j) ≡ true → ⊥
  unheld j free h = absurd (omega (arith, free, owned.owner j h))

abbrev pub Excl : Mutex → Type 0
Excl m = Owned m.value m.stand

task_even : (t : ℕ) → clear_bit0 (task t) ≡ task t
task_even t = omega arith

pub tracked-task : (ws : List ℕ) (t : ℕ) → clear_bit0 (tracked ws (task t)) ≡ task t
tracked-task [] t = omega arith
tracked-task (w ∷ ws) t = omega arith

module _ (m : Mutex) (x : Excl m) (t : ℕ) where
  begin_lock-Excl : (msec : ℕ) → Excl (begin_lock t msec m)
  unfolding begin_lock
  begin_lock-Excl msec = elim (Bool-cases (is_owner t m)) [
    | inl e ↦
        let own : clear_bit0 m.value ≡ task t = ground (arith, e) in
        elim (Bool-cases m.is_recursive) [
          | inl r ↦ rw (e, r) (stay x m.value t holding refl (λ h. own))
          | inr r ↦ rw (e, r) (stay x m.value t (m.stand t) refl (λ h. own))
        ]
    | inr e ↦ rw e (stay x m.value t (trying msec) refl (λ h. cc))
  ]

  try_value-Excl : (msec : ℕ) → Excl (try_value t msec m)
  unfolding try_value
  try_value-Excl msec = elim (Bool-cases (m.value == 0)) [
    | inl e ↦
        let free : m.value ≡ 0 = (==_iff _ 0).0 e in
        let got : Owned (task t) (update m.stand t holding) =
          take (task t) t holding m.stand (λ j ne h. absurd (unheld x j free h))
            (λ h. task_even t) in
        elim (Bool-cases m.is_recursive) [ inl r ↦ rw (e, r) got | inr r ↦ rw (e, r) got ]
    | inr e ↦ rw e (stay x m.value t (entering msec m.value) refl (λ h. cc))
  ]

  enter_wait-Excl : (msec seen : ℕ) → Excl (enter_wait t msec seen m)
  unfolding enter_wait
  enter_wait-Excl msec seen = elim (Bool-cases ((m.value == seen) || (m.value == set_bit0 seen))) [
    | inl e ↦ rw e (stay x (set_bit0 seen) t (asleep msec) (ground (arith, e)) (λ h. cc))
    | inr e ↦ rw e (stay x m.value t (resumed msec) refl (λ h. cc))
  ]

  look_again-Excl : (msec : ℕ) → Excl (look_again t msec m)
  unfolding look_again
  look_again-Excl msec = elim (Bool-cases (is_owner t m)) [
    | inl e ↦
        let own : clear_bit0 m.value ≡ task t = ground (arith, e) in
        let got : Owned m.value (update m.stand t holding) =
          stay x m.value t holding refl (λ h. own) in
        elim (Bool-cases m.is_recursive) [ inl r ↦ rw (e, r) got | inr r ↦ rw (e, r) got ]
    | inr e ↦ rw e (stay x m.value t (trying msec) refl (λ h. cc))
  ]

  begin_unlock-Excl : Excl (begin_unlock t m)
  unfolding begin_unlock
  begin_unlock-Excl = elim (Bool-cases (is_owner t m)) [
    | inl e ↦
        let own : clear_bit0 m.value ≡ task t = ground (arith, e) in
        let same : Owned m.value (update m.stand t (m.stand t)) =
          stay x m.value t (m.stand t) refl (λ h. own) in
        let last : Owned m.value (update m.stand t releasing) =
          stay x m.value t releasing refl (λ h. own) in
        elim (Bool-cases m.is_recursive) [
          | inr r ↦ rw (e, r) last
          | inl r ↦ elim (Bool-cases (ltb 0 (m.count - 1))) [
            | inl d ↦ rw (e, r, d) same
            | inr d ↦ rw (e, r, d) last
          ]
        ]
    | inr e ↦ rw e (stay x m.value t (m.stand t) refl (x.owner t))
  ]

  try_lock-Excl : Excl (try_lock t m)
  unfolding try_lock
  try_lock-Excl = elim (Bool-cases (m.is_recursive && (m.value == task t))) [
    | inl e ↦ rw e (stay x m.value t holding refl (λ h. ground (arith, e)))
    | inr e ↦ elim (Bool-cases (m.value == 0)) [
      | inr f ↦ rw (e, f) (stay x m.value t (m.stand t) refl (x.owner t))
      | inl f ↦
          let free : m.value ≡ 0 = (==_iff _ 0).0 f in
          let got : Owned (task t) (update m.stand t holding) =
            take (task t) t holding m.stand (λ j ne h. absurd (unheld x j free h))
              (λ h. task_even t) in
          elim (Bool-cases m.is_recursive) [ inl r ↦ rw (e, f, r) got | inr r ↦ rw (e, f, r) got ]
    ]
  ]

  module _ (own : clear_bit0 m.value ≡ task t) where
    swap_out-Excl : Excl (swap_out t m)
    unfolding swap_out
    swap_out-Excl = elim (Bool-cases (m.value == task t)) [
      | inl e ↦ rw e (take 0 t outside m.stand (λ j ne h. absurd (alone x t j own ne h)) (λ h. cc))
      | inr e ↦ rw e (stay x m.value t waking refl (λ h. own))
    ]

    hand_over-Excl : (ws : List ℕ) → Excl (hand_over t m ws)
    hand_over-Excl [] = stay x (clear_bit0 m.value) t outside (omega arith) (λ h. cc)
    hand_over-Excl (w ∷ ws) =
        take (tracked ws (task w)) t outside (update m.stand w (resumed (timeout_of (m.stand w))))
          (λ j ne h. elim (Bool-cases (w == j)) [
            | inl e ↦ absurd (ground (arith, h))
            | inr e ↦ absurd (alone x t j own ne (ground (arith, h)))
          ])
          (λ h. cc)

  time_out-Excl : (p : Stand) → Excl (time_out t m p)
  time_out-Excl (asleep msec) = elim (Bool-cases (ltb msec forever)) [
    | inl e ↦ rw e (stay x m.value t outside refl (λ h. cc))
    | inr e ↦ rw e x
  ]
  time_out-Excl outside = x
  time_out-Excl holding = x
  time_out-Excl releasing = x
  time_out-Excl waking = x
  time_out-Excl (trying msec) = x
  time_out-Excl (resumed msec) = x
  time_out-Excl (entering msec seen) = x

  call-Excl : (f : Mutex → Mutex) (p : Stand) → Excl (f m) → Excl (call f m p)
  call-Excl f outside y = y
  call-Excl f holding y = y
  call-Excl f releasing y = x
  call-Excl f waking y = x
  call-Excl f (trying msec) y = x
  call-Excl f (asleep msec) y = x
  call-Excl f (resumed msec) y = x
  call-Excl f (entering msec seen) y = x

  advance-Excl : (p : Stand) → (holds p ≡ true → clear_bit0 m.value ≡ task t) → Excl (advance t m p)
  unfolding advance wake_one
  advance-Excl outside own = x
  advance-Excl holding own = x
  advance-Excl (trying msec) own = try_value-Excl msec
  advance-Excl (entering msec seen) own = enter_wait-Excl msec seen
  advance-Excl (asleep msec) own = x
  advance-Excl (resumed msec) own = look_again-Excl msec
  advance-Excl releasing own = swap_out-Excl (own refl)
  advance-Excl waking own = hand_over-Excl (own refl) m.waiters

pub happen-Excl : (e : Event) (m : Mutex) → Excl m → Excl (happen e m)
unfolding happen
happen-Excl (locks t msec) m x =
    call-Excl m x t (begin_lock t msec) (m.stand t) (begin_lock-Excl m x t msec)
happen-Excl (tries t) m x = call-Excl m x t (try_lock t) (m.stand t) (try_lock-Excl m x t)
happen-Excl (unlocks t) m x = call-Excl m x t (begin_unlock t) (m.stand t) (begin_unlock-Excl m x t)
happen-Excl (goes_on t) m x = advance-Excl m x t (m.stand t) (x.owner t)
happen-Excl (times_out t) m x = time_out-Excl m x t (m.stand t)

pub run-Excl : (es : List Event) (m : Mutex) → Excl m → Excl (run es m)
unfolding run
run-Excl [] m x = x
run-Excl (e ∷ es) m x = run-Excl es (happen e m) (happen-Excl e m x)

pub init-Excl : (recursive : Bool) (priority : ℕ → ℕ) → Excl (init recursive priority)
unfolding init
init-Excl recursive priority = record { owner = λ j h. cc }

-- From a new mutex, whatever threads call its functions and in whatever order their accesses, their
-- wake-ups and their time-outs come: at no time do two threads hold the mutex, from the return of a
-- successful lock to the end of the unlock.
pub thread_exclusion :
    (es : List Event) (recursive : Bool) (priority : ℕ → ℕ) (t u : ℕ)
    → holds ((run es (init recursive priority)).stand t) ≡ true
    → holds ((run es (init recursive priority)).stand u) ≡ true
    → t ≡ u
thread_exclusion es recursive priority t u g h =
    let x : Excl (run es (init recursive priority)) =
      run-Excl es _ (init-Excl recursive priority) in
    omega (arith, x.owner t g, x.owner u h)
