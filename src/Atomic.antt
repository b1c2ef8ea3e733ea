-- ===== src/Atomic.antt =====
-- pico-atomic.c: the `__atomic_*` functions. A variable is a cell that is named by its address and
-- has one width; sixteen locks of two bits, one for each core, guard stripes of addresses. `none` is a
-- core that spins because the other one holds the lock.
pub mod Laws
mod Exclusion
mod Tests
use Prim.Native.Nat.{bit_and, bit_or}
use pico_toolkit.Base.{
  ℕ, ◌+◌, ◌-◌, ◌*◌, ◌/◌, ◌%◌, ◌^◌, Bool, true, false, not, ◌&&◌, Option, none, some, ◌==◌,
  if◌then◌else◌, update,
}

-- The cells, the lock register as a bit for each lock and core, and the cores' interrupt masks.
pub record Mem : Type 0 where
  pub cell : ℕ → ℕ
  pub bit : ℕ → ℕ → Bool
  pub primask : ℕ → ℕ

-- Stripes of four bytes take the sixteen locks in turn.
abbrev pub lock_idx : ℕ → ℕ
lock_idx mem = mem / 4 % 16

-- Cores are numbered 0 and 1.
abbrev pub other_core : ℕ → ℕ
other_core core = 1 - core

abbrev pub set_bit : ℕ → ℕ → Bool → Mem → Mem
set_bit i core b m = record m { bit = update m.bit i (update (m.bit i) core b) }

-- `__atomic_lock` returns the interrupt mask. The core's own bit is clear when it comes here.
unfoldable pub lock : ℕ → ℕ → Mem → Option (ℕ × Mem)
lock core mem m0 =
    let m1 = record m0 { primask = update m0.primask core 1 } in
    let m2 = set_bit (lock_idx mem) core true m1 in
    if m2.bit (lock_idx mem) (other_core core) then none else some (m0.primask core, m2)

unfoldable pub unlock : ℕ → ℕ → ℕ → Mem → Mem
unlock core mem state m0 =
    let m1 = set_bit (lock_idx mem) core false m0 in
    record m1 { primask = update m1.primask core state }

-- One read and one write under the lock; `width` is that of the variable in which the function keeps the mask.
abbrev pub under_lock : ℕ → ℕ → ℕ → (ℕ → ℕ) → Option (ℕ × Mem) → Option (ℕ × Mem)
under_lock width core mem f none = none
under_lock width core mem f (some (state, m)) =
    let result = m.cell mem in
    some (
      result,
      unlock core mem (state % 2 ^ width) (record m { cell = update m.cell mem (f result) }),
    )

unfoldable pub fetch_modify : ℕ → (ℕ → ℕ) → ℕ → ℕ → Mem → Option (ℕ × Mem)
unfolding lock unlock
fetch_modify width f core mem m = under_lock width core mem f (lock core mem m)

-- C's arithmetic on `bits` bits.
abbrev pub add_wrap : ℕ → ℕ → ℕ → ℕ
add_wrap bits val old = (old + val) % 2 ^ bits

abbrev pub sub_wrap : ℕ → ℕ → ℕ → ℕ
sub_wrap bits val old = (old + 2 ^ bits - val) % 2 ^ bits

unfoldable pub fetch_add_1 : ℕ → ℕ → ℕ → Mem → Option (ℕ × Mem)
unfolding fetch_modify
fetch_add_1 core mem val m = fetch_modify 32 (add_wrap 8 val) core mem m

unfoldable pub fetch_sub_1 : ℕ → ℕ → ℕ → Mem → Option (ℕ × Mem)
unfolding fetch_modify
fetch_sub_1 core mem val m = fetch_modify 32 (sub_wrap 8 val) core mem m

unfoldable pub fetch_and_1 : ℕ → ℕ → ℕ → Mem → Option (ℕ × Mem)
unfolding fetch_modify
fetch_and_1 core mem val m = fetch_modify 32 (λ old. bit_and old val) core mem m

unfoldable pub fetch_or_1 : ℕ → ℕ → ℕ → Mem → Option (ℕ × Mem)
unfolding fetch_modify
fetch_or_1 core mem val m = fetch_modify 32 (λ old. bit_or old val) core mem m

unfoldable pub exchange_1 : ℕ → ℕ → ℕ → Mem → Option (ℕ × Mem)
unfolding fetch_modify
exchange_1 core mem val m = fetch_modify 32 (λ old. val) core mem m

unfoldable pub fetch_add_2 : ℕ → ℕ → ℕ → Mem → Option (ℕ × Mem)
unfolding fetch_modify
fetch_add_2 core mem val m = fetch_modify 32 (add_wrap 16 val) core mem m

unfoldable pub fetch_sub_2 : ℕ → ℕ → ℕ → Mem → Option (ℕ × Mem)
unfolding fetch_modify
fetch_sub_2 core mem val m = fetch_modify 32 (sub_wrap 16 val) core mem m

unfoldable pub fetch_and_2 : ℕ → ℕ → ℕ → Mem → Option (ℕ × Mem)
unfolding fetch_modify
fetch_and_2 core mem val m = fetch_modify 32 (λ old. bit_and old val) core mem m

unfoldable pub fetch_or_2 : ℕ → ℕ → ℕ → Mem → Option (ℕ × Mem)
unfolding fetch_modify
fetch_or_2 core mem val m = fetch_modify 16 (λ old. bit_or old val) core mem m

unfoldable pub exchange_2 : ℕ → ℕ → ℕ → Mem → Option (ℕ × Mem)
unfolding fetch_modify
exchange_2 core mem val m = fetch_modify 32 (λ old. val) core mem m

unfoldable pub fetch_add_4 : ℕ → ℕ → ℕ → Mem → Option (ℕ × Mem)
unfolding fetch_modify
fetch_add_4 core mem val m = fetch_modify 32 (add_wrap 32 val) core mem m

unfoldable pub fetch_sub_4 : ℕ → ℕ → ℕ → Mem → Option (ℕ × Mem)
unfolding fetch_modify
fetch_sub_4 core mem val m = fetch_modify 32 (sub_wrap 32 val) core mem m

unfoldable pub fetch_and_4 : ℕ → ℕ → ℕ → Mem → Option (ℕ × Mem)
unfolding fetch_modify
fetch_and_4 core mem val m = fetch_modify 32 (λ old. bit_and old val) core mem m

unfoldable pub fetch_or_4 : ℕ → ℕ → ℕ → Mem → Option (ℕ × Mem)
unfolding fetch_modify
fetch_or_4 core mem val m = fetch_modify 32 (λ old. bit_or old val) core mem m

unfoldable pub exchange_4 : ℕ → ℕ → ℕ → Mem → Option (ℕ × Mem)
unfolding fetch_modify
exchange_4 core mem val m = fetch_modify 32 (λ old. val) core mem m

unfoldable pub fetch_add_8 : ℕ → ℕ → ℕ → Mem → Option (ℕ × Mem)
unfolding fetch_modify
fetch_add_8 core mem val m = fetch_modify 32 (add_wrap 64 val) core mem m

unfoldable pub fetch_sub_8 : ℕ → ℕ → ℕ → Mem → Option (ℕ × Mem)
unfolding fetch_modify
fetch_sub_8 core mem val m = fetch_modify 32 (sub_wrap 64 val) core mem m

unfoldable pub fetch_and_8 : ℕ → ℕ → ℕ → Mem → Option (ℕ × Mem)
unfolding fetch_modify
fetch_and_8 core mem val m = fetch_modify 32 (λ old. bit_and old val) core mem m

unfoldable pub fetch_or_8 : ℕ → ℕ → ℕ → Mem → Option (ℕ × Mem)
unfolding fetch_modify
fetch_or_8 core mem val m = fetch_modify 32 (λ old. bit_or old val) core mem m

unfoldable pub exchange_8 : ℕ → ℕ → ℕ → Mem → Option (ℕ × Mem)
unfolding fetch_modify
exchange_8 core mem val m = fetch_modify 32 (λ old. val) core mem m

-- The result and what `expected` points to afterwards: on failure, the value that was found.
abbrev pub compare_under_lock : ℕ → ℕ → ℕ → ℕ → Option (ℕ × Mem) → Option (Bool × ℕ × Mem)
compare_under_lock core mem expected desired none = none
compare_under_lock core mem expected desired (some (state, m)) =
    let found = m.cell mem in
    let m1 = if found == expected then record m { cell = update m.cell mem desired } else m in
    some (found == expected, found, unlock core mem state m1)

unfoldable pub compare_exchange : ℕ → ℕ → ℕ → ℕ → Mem → Option (Bool × ℕ × Mem)
unfolding lock unlock
compare_exchange core mem expected desired m =
    compare_under_lock core mem expected desired (lock core mem m)

unfoldable pub compare_exchange_1 : ℕ → ℕ → ℕ → ℕ → Mem → Option (Bool × ℕ × Mem)
unfolding compare_exchange
compare_exchange_1 core mem expected desired m = compare_exchange core mem expected desired m

unfoldable pub compare_exchange_2 : ℕ → ℕ → ℕ → ℕ → Mem → Option (Bool × ℕ × Mem)
unfolding compare_exchange
compare_exchange_2 core mem expected desired m = compare_exchange core mem expected desired m

unfoldable pub compare_exchange_4 : ℕ → ℕ → ℕ → ℕ → Mem → Option (Bool × ℕ × Mem)
unfolding compare_exchange
compare_exchange_4 core mem expected desired m = compare_exchange core mem expected desired m

unfoldable pub compare_exchange_8 : ℕ → ℕ → ℕ → ℕ → Mem → Option (Bool × ℕ × Mem)
unfolding compare_exchange
compare_exchange_8 core mem expected desired m = compare_exchange core mem expected desired m

-- The value is read into a variable of 32 bits.
abbrev truncated : Option (ℕ × Mem) → Option (ℕ × Mem)
truncated none = none
truncated (some (v, m)) = some (v % 2 ^ 32, m)

unfoldable pub load_8 : ℕ → ℕ → Mem → Option (ℕ × Mem)
unfolding fetch_modify
load_8 core mem m = truncated (fetch_modify 32 (λ old. old) core mem m)

abbrev forget : Option (ℕ × Mem) → Option Mem
forget none = none
forget (some (v, m)) = some m

unfoldable pub store_8 : ℕ → ℕ → ℕ → Mem → Option Mem
unfolding fetch_modify
store_8 core mem val m = forget (fetch_modify 32 (λ old. val) core mem m)

-- A flag holds 0 or 1.
unfoldable pub test_and_set_m0 : ℕ → ℕ → Mem → Option (ℕ × Mem)
unfolding fetch_modify
test_and_set_m0 core mem m = fetch_modify 32 (λ old. 1) core mem m

-- The flag is cleared without the lock.
unfoldable pub clear_m0 : ℕ → Mem → Mem
clear_m0 mem m = record m { cell = update m.cell mem 0 }
