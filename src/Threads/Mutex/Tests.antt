-- ===== src/Threads/Mutex/Tests.antt =====
-- Runs of a mutex of the C library.
use pico_toolkit.Base.{ℕ, ◌≡◌, refl, true, false, List, [], ◌∷◌, arith}
use pico_toolkit.Scheduler.Queue.{enqueue}
use pico_toolkit.Threads.{forever}
use pico_toolkit.Threads.Mutex.{Mutex, outside, Event, locks, unlocks, goes_on, run, init}
use pico_toolkit.Threads.Mutex.Exclusion.{holds, thread_exclusion}
use pico_toolkit.Threads.Mutex.Waiters.{Settled, run-Settled}

-- Thread 1 holds the mutex while thread 2 waits, and hands it over.
abbrev contended : List Event
contended =
    locks 1 forever
    ∷ goes_on 1
    ∷ locks 2 forever
    ∷ goes_on 2
    ∷ goes_on 2
    ∷ unlocks 1
    ∷ goes_on 1
    ∷ goes_on 1
    ∷ goes_on 2
    ∷ []

second_holds : holds ((run contended (init false (λ t. t))).stand 2) ≡ true
unfolding run init enqueue
second_holds = refl

first_left : (run contended (init false (λ t. t))).stand 1 ≡ outside
unfolding run init enqueue
first_left = refl

thread_exclusion_example : ◌≡◌ {A = ℕ} 2 2
thread_exclusion_example = thread_exclusion contended false (λ t. t) 2 2 second_holds second_holds

run-Settled_example : Settled (run contended (init false (λ t. t)))
run-Settled_example = run-Settled contended false (λ t. t) (omega arith)
