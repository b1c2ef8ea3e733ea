-- ===== src/Atomic/Tests.antt =====
-- The theorems on the atomic functions at work.
use pico_toolkit.Base.{◌≡◌, ◌≢◌, refl, true, false, some, arith, ◌==◌, if◌then◌else◌}
use pico_toolkit.Atomic.{Mem, fetch_modify}
use pico_toolkit.Atomic.Laws.{Ready, store, fetch_modify-Ready}
use pico_toolkit.Atomic.Exclusion.{
  Lock, Reachable, start, step, set, win, initial, asking, holding, mutual_exclusion, after,
}

-- The cell 8 holds the largest value of 32 bits, and core 1 holds the lock of the cells 12 to 15.
abbrev cells : Mem
cells = record {
  cell = λ a. if a == 8 then 0xffffffff else 5;
  bit = λ i c. if i == 3 then c == 1 else false;
  primask = λ c. 0;
}

cells-Ready : Ready 0 8 cells
cells-Ready = record { core_small = omega arith; free = λ c. refl; mask_small = omega arith }

fetch_modify-Ready_example :
    fetch_modify 32 (λ old. 9) 0 8 cells ≡ some (0xffffffff, store 8 9 cells)
fetch_modify-Ready_example = fetch_modify-Ready 32 (λ old. 9) 0 8 cells refl cells-Ready

abbrev one_holds : Lock
one_holds = after false true holding (after false true asking initial)

one_holds-Reachable : Reachable one_holds
one_holds-Reachable = step (step start (set false refl)) (win false refl refl)

mutual_exclusion_example : one_holds.phase true ≢ holding
mutual_exclusion_example = mutual_exclusion one_holds one_holds-Reachable refl
