-- ===== src/Links/Tests.antt =====
-- The theorems on lists at work on a list with head 10 and the nodes 1, 2 and 3.
use pico_toolkit.Base.{[], ◌∷◌, arith, ◌==◌, if◌then◌else◌}
use pico_toolkit.Links.{Heap}
use pico_toolkit.Links.Ring.{Ring}

abbrev three : Heap
three = record {
  next = λ j.
      if j == 10 then 1 else if j == 1 then 2 else if j == 2 then 3 else if j == 3 then 10 else j;
  prev = λ j.
      if j == 10 then 3 else if j == 1 then 10 else if j == 2 then 1 else if j == 3 then 2 else j;
}

three-Ring : Ring three 10 (1 ∷ 2 ∷ 3 ∷ [])
three-Ring = record { seg = ground arith; apart = ground arith }
