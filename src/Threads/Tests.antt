-- ===== src/Threads/Tests.antt =====
-- The other theorems on the threads of the C library at work.
use pico_toolkit.Base.{
  ◌+◌, ◌≡◌, refl, true, false, none, some, List, [], ◌∷◌, arith, ◌==◌, erase, update, length, ◌⊎◌,
  ◌≤◌,
}
use pico_toolkit.Threads.{success}
use pico_toolkit.Threads.Specific.{Slot, Values, Destroy, exit_values}
use pico_toolkit.Threads.Specific.Destructors.{Runs, Nulled, exit_values-Runs}
use pico_toolkit.Threads.Condition.{new_condition, enter_wait, counts, wakes, waits, moves}
use pico_toolkit.Threads.Condition.Wakeups.{wakeups, enter_wait-moves}
use pico_toolkit.Threads.Life.{System, new_thread, exit, reap_all, join}
use pico_toolkit.Threads.Life.Cleanup.{Event, creates, detaches, exits, run, join-exit}

-- The first key is in use with destructor 7, the second is free.
abbrev slots : List Slot
slots =
    record { used = true; destructor = some 7 } ∷ record { used = false; destructor = none } ∷ []

abbrev values : Values
values k = k + 40

-- The destructor stores again.
abbrev again : Destroy
again c vs = update vs 0 (c.value + 1)

exit_values-Runs_example :
    Runs again slots values (exit_values again slots values)
    × (Nulled slots (exit_values again slots values).values
        ⊎ (5 ≤ length (exit_values again slots values).calls))
exit_values-Runs_example = exit_values-Runs again slots values

-- A broadcast comes after the thread has read the number, and before it waits.
enter_wait-moves_example :
    (enter_wait
      (λ t. t)
      3
      0
      (moves (λ t. t) (waits 4 0 ∷ counts ∷ wakes true ∷ []) new_condition)).0
    ≡ (wakeups (waits 4 0 ∷ counts ∷ wakes true ∷ []) == 0)
enter_wait-moves_example =
    enter_wait-moves (λ t. t) 3 (waits 4 0 ∷ counts ∷ wakes true ∷ []) new_condition (omega arith)
      (omega arith)

abbrev system : System
system = record { thread = λ t. new_thread; thrds = []; released = []; ignored = [] }

abbrev events : List Event
events = creates (some 5) true ∷ detaches 1 5 ∷ exits 5 3 ∷ []

left_over : (reap_all (run events system)).thrds ≡ 5 ∷ []
unfolding run reap_all
left_over = refl

join-exit_example :
    (s' : System) × (join 1 5 [] (exit 5 3 system).1 ≡ some (success, 3, s'))
    × (s'.thrds ≡ erase 5 system.thrds)
    × (s'.released ≡ 5 ∷ system.released)
join-exit_example = join-exit 1 5 3 [] system refl refl
