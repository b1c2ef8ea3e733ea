-- ===== src/Rtos/Mutex/Owner.antt =====
-- Who owns a mutex after an acquire, and what a release undoes.
use pico_toolkit.Base.{
  ℕ, ◌+◌, ◌-◌, ◌≤◌, ◌≡◌, ◌≢◌, refl, Bool, true, false, Option, none, some, List, [], ◌∷◌, arith,
  ◌==◌, ltb, if◌then◌else◌, clear_bit0, Bool-cases, inl, inr,
}
use pico_toolkit.Scheduler.State.{
  Code, done, failed, Errno, esrch, einval, etimedout, ecanceled, efault, enospc,
}
use pico_toolkit.Rtos.{Status, ok}
use pico_toolkit.Rtos.Mutex.{
  broken_wait, after_wait, Mutex, Wait, Call, guard, is_owner, first_count, lock_loop, acquire,
  release,
}

-- What a result that is OK says about the mutex.
abbrev pub Owned : ℕ → Option (Status × Mutex) → Type 0
Owned task none = Unit
Owned task (some (s, m)) = s ≡ ok → clear_bit0 m.value ≡ task

first_count-value : (m : Mutex) → (first_count m).value ≡ m.value
first_count-value m = elim (Bool-cases m.is_recursive) [ inl e ↦ rw e refl | inr e ↦ rw e refl ]

taken-Owned :
    (task : ℕ) (m : Mutex) → clear_bit0 m.value ≡ task → Owned task (some (ok, first_count m))
taken-Owned task m e o = rw (first_count-value m) e

broken_wait-fails : (e : Errno) → broken_wait e ≢ ok
broken_wait-fails esrch h = ground (arith, h)
broken_wait-fails einval h = ground (arith, h)
broken_wait-fails etimedout h = ground (arith, h)
broken_wait-fails ecanceled h = ground (arith, h)
broken_wait-fails efault h = ground (arith, h)
broken_wait-fails enospc h = ground (arith, h)

after_wait-Owned :
    (task : ℕ) (code : Code) (m : Mutex) (go : Option (Status × Mutex))
    → Owned task go
    → Owned task (after_wait code m go)
after_wait-Owned task (done n) m go o = o
after_wait-Owned task (failed e) m go o = λ h. absurd (broken_wait-fails e h)

lock_loop-Owned :
    (task timeout : ℕ) (ws : List Wait) (m : Mutex)
    → clear_bit0 task ≡ task
    → Owned task (lock_loop task timeout ws m)
unfolding lock_loop
lock_loop-Owned task timeout [] m even = elim (Bool-cases (m.value == 0)) [
  | inl e ↦ rw e (taken-Owned task (record m { value = task }) even)
  | inr e ↦ elim (Bool-cases (timeout == 0)) [
    | inl h ↦ rw (e, h) (λ o. absurd (ground (arith, o)))
    | inr h ↦ rw (e, h) tt
  ]
]
lock_loop-Owned task timeout (w ∷ ws) m even = elim (Bool-cases (m.value == 0)) [
  | inl e ↦ rw e (taken-Owned task (record m { value = task }) even)
  | inr e ↦ elim (Bool-cases (timeout == 0)) [
    | inl h ↦ rw (e, h) (λ o. absurd (ground (arith, o)))
    | inr h ↦
        rw (e, h)
          (after_wait-Owned task w.result (w.others m) _ (
            go (is_owner task (w.others m)) refl
              (lock_loop-Owned task timeout ws (w.others m) even)))
  ]
]
  where
    go :
        (b : Bool)
        → is_owner task (w.others m) ≡ b
        → Owned task (lock_loop task timeout ws (w.others m))
        → Owned task (
            if b
            then some (ok, first_count (w.others m))
            else lock_loop task timeout ws (w.others m))
    go true e o = taken-Owned task (w.others m) (ground (arith, e))
    go false e o = o

-- An acquire that returns osOK leaves the mutex with the calling task as its owner, whatever happens
-- during its waits, and however many there are.
pub acquire-Owned :
    (task timeout : ℕ) (call : Call) (ws : List Wait) (m : Mutex)
    → clear_bit0 task ≡ task
    → guard call m ≡ ok
    → Owned task (acquire task timeout call ws m)
unfolding acquire
acquire-Owned task timeout call ws m even passes = elim (Bool-cases (is_owner task m)) [
  | inr e ↦ rw (passes, e) (lock_loop-Owned task timeout ws m even)
  | inl e ↦ elim (Bool-cases m.is_recursive) [
    | inl h ↦ rw (passes, e, h) (λ o. ground (arith, e))
    | inr h ↦ rw (passes, e, h) (λ o. absurd (ground (arith, o)))
  ]
]

-- A release of a recursive mutex by its owner undoes the last acquire: the owner stays and the depth
-- is as before, however deep.
pub release-acquire :
    (wake : Mutex → Code × Mutex) (task timeout : ℕ) (call : Call) (ws : List Wait) (m : Mutex)
    → guard call m ≡ ok
    → m.is_recursive ≡ true
    → m.value ≢ 0
    → is_owner task m ≡ true
    → 1 ≤ m.count
    → (r : Mutex) × (acquire task timeout call ws m ≡ some (ok, r))
      × (release wake task call r ≡ (ok, m))
unfolding acquire release guard
release-acquire wake task timeout call ws m passes recursive held own deep =
    let r : Mutex = record m { count = m.count + 1 } in
    let back : m.count + 1 - 1 ≡ m.count = omega arith in
    let positive : ltb 0 m.count ≡ true = ground arith in
    let locked : (m.value == 0) ≡ false = ground arith in
    (r, rw (passes, own, recursive) refl, rw (passes, recursive, locked, own, back, positive) refl)
