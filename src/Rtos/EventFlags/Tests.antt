-- ===== src/Rtos/EventFlags/Tests.antt =====
-- The theorem on waits at work.
use pico_toolkit.Base.{true, false, [], ◌∷◌, All}
use pico_toolkit.Scheduler.State.{done}
use pico_toolkit.Rtos.{Context}
use pico_toolkit.Rtos.EventFlags.{EventFlags, Options, Round, wait}
use pico_toolkit.Rtos.EventFlags.Met.{Meets, Keeping, wait-Meets}

abbrev none_set : EventFlags
none_set = record { marker = 0x42055024; flags = 0; waiters = 0 }

abbrev all_of : Options
all_of = record { wait_all = true; no_clear = false }

abbrev thread : Context
thread = record { ipsr = 0; is_realtime = false }

-- During the wait two flags are set.
abbrev sets_both : Round
sets_both = record { between = λ e. e; others = λ e. record e { flags = 3 }; result = done 0 }

keeping : All (Keeping 3) (sets_both ∷ sets_both ∷ [])
keeping = ((λ e i m f. f), ((λ e i m f. f), tt))

wait-Meets_example :
    Meets all_of 3 (wait thread 100 3 all_of 5 (sets_both ∷ sets_both ∷ []) none_set)
wait-Meets_example = wait-Meets thread 100 3 all_of 5 (sets_both ∷ sets_both ∷ []) none_set keeping
