-- ===== src/Rtos/Semaphore/Tests.antt =====
-- The theorems on semaphores at work on one with two of three tokens.
use pico_toolkit.Base.{List, [], ◌∷◌}
use pico_toolkit.Rtos.Semaphore.{Semaphore, outside, Event, acquires, releases, goes_on}

abbrev two_left : Semaphore
two_left = record {
  max_count = 3;
  value = 2;
  priority = λ t. t;
  waiters = [];
  stand = λ t. outside;
  taken = 0;
  given = 0;
}

abbrev mixed : List Event
mixed =
    acquires 1 0
    ∷ acquires 2 5
    ∷ goes_on 1
    ∷ goes_on 2
    ∷ releases 3
    ∷ goes_on 2
    ∷ goes_on 3
    ∷ goes_on 3
    ∷ []
