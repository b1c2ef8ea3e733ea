-- ===== src/Rtos/Timer/Tests.antt =====
-- Timers at work: timer 3 is periodic and due, timer 4 is later.
use pico_toolkit.Base.{ℕ, ◌≡◌, refl, none, some, [], ◌∷◌, arith, ◌==◌, if◌then◌else◌}
use pico_toolkit.Links.{Heap}
use pico_toolkit.Links.Ring.{Ring}
use pico_toolkit.Rtos.Timer.{Timers, tick_hook}
use pico_toolkit.Rtos.Timer.Tick.{Valid, Ticked}
use pico_toolkit.Rtos.Timer.Posts.{Ahead, Posts, tick_hook-Posts}
use pico_toolkit.Rtos.Timer.Restart.{find_place, link_timer, restart-loops}

abbrev timers : Timers
timers = record {
  timer = λ t. record {
    marker = 0x42066024;
    is_periodic = t == 3;
    ticks = 5;
    target = if t == 3 then 10 else 20;
  };
  active = 3 ∷ 4 ∷ [];
}

timers-Valid : Valid timers
timers-Valid = record { sorted = omega arith; once = (refl, (refl, tt)) }

timers-Ahead : Ahead 12 timers
timers-Ahead j m = omega arith

tick_hook-Posts_example :
    Posts 12 5 timers (tick_hook 0 12 5 timers) × Ticked 12 5 (tick_hook 0 12 5 timers)
tick_hook-Posts_example = tick_hook-Posts 12 5 timers timers-Valid timers-Ahead

-- The list with head 100 has the timers at 5 and 7, by the targets 5 and 7, and 7 starts again at 9.
abbrev heap : Heap
heap = record {
  next = λ a. if a == 100 then 5 else if a == 5 then 7 else 100;
  prev = λ a. if a == 100 then 7 else if a == 5 then 100 else 5;
}

abbrev targets : ℕ → ℕ
targets t = if t == 7 then 9 else t

heap-Ring : Ring heap 100 (5 ∷ 7 ∷ [])
heap-Ring = record { seg = omega arith; apart = (refl, (refl, (refl, tt))) }

restart-loops_example :
    (h' : Heap) × (link_timer 3 targets 100 7 heap ≡ some h')
    × (h'.next 7 ≡ 7)
    × (find_place 50 targets 100 9 (h'.next 100) h' ≡ none)
restart-loops_example =
    restart-loops targets targets 100 7 9 (5 ∷ []) heap 50 heap-Ring (refl, (refl, tt)) (refl, tt)
      refl
