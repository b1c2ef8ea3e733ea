-- ===== src/Rtos/Mutex/Tests.antt =====
-- The theorems on mutexes at work.
use pico_toolkit.Base.{◌≡◌, refl, true, false, some, [], ◌∷◌, arith}
use pico_toolkit.Scheduler.State.{done}
use pico_toolkit.Rtos.{ok, context_is_valid, is_resource_valid}
use pico_toolkit.Rtos.Mutex.{Mutex, Wait, Call, guard, acquire, release}
use pico_toolkit.Rtos.Mutex.Owner.{Owned, acquire-Owned, release-acquire}

-- Task 2000 holds the mutex and others wait.
abbrev contended : Mutex
contended = record { marker = 0x42022024; is_recursive = true; value = 2001; count = 1 }

abbrev in_thread : Call
in_thread = record { context = record { ipsr = 0; is_realtime = false }; mutex_id = 100 }

-- During the wait of task 1000 the mutex is handed to it.
abbrev handed : Wait
handed = record { others = λ m. record m { value = 1001 }; result = done 0 }

passes : guard in_thread contended ≡ ok
unfolding guard context_is_valid is_resource_valid
passes = refl

acquire-Owned_example : Owned 1000 (acquire 1000 5 in_thread (handed ∷ []) contended)
acquire-Owned_example = acquire-Owned 1000 5 in_thread (handed ∷ []) contended refl passes

release-acquire_example :
    (r : Mutex) × (acquire 2000 5 in_thread [] contended ≡ some (ok, r))
    × (release (λ m. (done 1, m)) 2000 in_thread r ≡ (ok, contended))
release-acquire_example =
    release-acquire (λ m. (done 1, m)) 2000 5 in_thread [] contended passes refl
      (λ e. omega (arith, e)) refl (omega arith)
