-- ===== src/Fault/Unwind.antt =====
-- pico-fault/backtrace.c: the interpreter of unwind instructions. A number is a `uint32_t`; the
-- array `vrs` is a function on its sixteen positions, and a write behind them is the outcome `overrun`.
pub mod Pops
pub mod Total
use pico_toolkit.Base.{
  ℕ, zero, suc, ◌+◌, ◌-◌, ◌*◌, ◌/◌, ◌%◌, ◌^◌, Bool, true, false, not, ◌&&◌, ◌||◌, Option, none,
  some, ◌==◌, leb, ltb, if◌then◌else◌, update,
}
use pico_toolkit.Fault.{Memory}

abbrev pub uint32_max : ℕ
uint32_max = 2 ^ 32 - 1

abbrev pub add32 : ℕ → ℕ → ℕ
add32 a b = (a + b) % 2 ^ 32

abbrev pub sub32 : ℕ → ℕ → ℕ
sub32 a b = (a + 2 ^ 32 - b) % 2 ^ 32

abbrev pub Registers : Type 0
Registers = ℕ → ℕ

-- `backtrace_frame_t`
pub record Frame : Type 0 where
  pub fp : ℕ
  pub sp : ℕ
  pub lr : ℕ
  pub pc : ℕ

-- `unwind_control_block_t`
pub record Ucb : Type 0 where
  pub vrs : Registers
  pub current : ℕ
  pub remaining : ℕ
  pub byte : ℕ

-- `unwind_get_next_byte`; -1 is `uint32_max`.
unfoldable pub next_byte : Memory → Ucb → ℕ × Ucb
next_byte word u =
    let instruction = word u.current / 2 ^ (8 * u.byte) % 256 in
    let moved =
      if u.byte == 0
      then record u { current = u.current + 4; byte = 3 }
      else record u { byte = u.byte - 1 } in
    if u.remaining == 0
    then (uint32_max, u)
    else (instruction, record moved { remaining = u.remaining - 1 })

-- `unwind_control_block_init`, with the fields that `memset` has cleared.
unfoldable pub init : Memory → ℕ → Frame → Option Ucb
init word instructions f =
    let w = word instructions in
    let kind = w / 2 ^ 24 % 256 in
    let cleared : Registers = λ r. 0 in
    let vrs = update (update (update cleared 7 f.fp) 13 f.sp) 14 f.lr in
    if kind == 0x80
    then some (record { vrs = vrs; current = instructions; remaining = 3; byte = 2 })
    else if kind == 0x81
    then some (record {
      vrs = vrs;
      current = instructions;
      remaining = w / 2 ^ 16 % 256 * 4 + 2;
      byte = 1;
    })
    else none

-- What an instruction comes to.
pub data Outcome : Type 0 where
  goes_on : Ucb → Outcome
  finished : Ucb → Outcome
  refused overrun : Outcome

-- `while (mask != 0) …`: the registers of a mask, from `reg` on. `none` is a write behind `vrs`, or
-- fuel that ran out.
unfoldable pub pop_mask : Memory → ℕ → ℕ → ℕ → ℕ → Registers → Option (ℕ × Registers)
pop_mask word zero reg mask vsp vrs = none
pop_mask word (suc fuel) reg mask vsp vrs =
    let popped =
      pop_mask word fuel (reg + 1) (mask / 2) (add32 vsp 4) (update vrs reg (word vsp)) in
    let passed = pop_mask word fuel (reg + 1) (mask / 2) vsp vrs in
    if mask == 0
    then some (vsp, vrs)
    else if not (mask % 2 == 0) && leb 16 reg
    then none
    else if mask % 2 == 0
    then passed
    else popped

-- `for (reg = 4; reg <= …; ++reg) ucb->vrs[reg] = *vsp++`, with the number of registers left.
unfoldable pub pop_range : Memory → ℕ → ℕ → ℕ → Registers → ℕ × Registers
pop_range word zero reg vsp vrs = (vsp, vrs)
pop_range word (suc n) reg vsp vrs =
    pop_range word n (reg + 1) (add32 vsp 4) (update vrs reg (word vsp))

-- A mask has at most 32 bits. The test for a popped r13 sees the mask after the loop, which is 0.
abbrev pub refill : Ucb → Option (ℕ × Registers) → Outcome
refill u none = overrun
refill u (some (vsp, vrs)) = goes_on (record u { vrs = update vrs 13 vsp })

unfoldable pub masked : Memory → ℕ → ℕ → Ucb → Outcome
unfolding pop_mask
masked word reg mask u = refill u (pop_mask word 33 reg mask (u.vrs 13) u.vrs)

abbrev pub move_sp : ℕ → Ucb → Outcome
move_sp sp u = goes_on (record u { vrs = update u.vrs 13 sp })

-- The instruction 1000iiii iiiiiiii, of two bytes; without a second byte it is all ones.
unfoldable pub pop_high : Memory → ℕ → Ucb → Outcome
unfolding next_byte masked
pop_high word i u0 =
    let (byte, u) = next_byte word u0 in
    let instruction = if byte == uint32_max then uint32_max else i * 256 + byte in
    if instruction == 0x8000 then finished u else masked word 4 (instruction % 2 ^ 12) u

-- The instruction 1010lnnn.
unfoldable pub pop_low : Memory → ℕ → Ucb → Outcome
unfolding pop_range
pop_low word i u =
    let (vsp, vrs) = pop_range word (i % 8 + 1) 4 (u.vrs 13) u.vrs in
    if i / 8 % 2 == 0
    then goes_on (record u { vrs = update vrs 13 vsp })
    else goes_on (record u { vrs = update (update vrs 14 (word vsp)) 13 (add32 vsp 4) })

unfoldable pub finish : Ucb → Outcome
finish u =
    if u.vrs 15 == 0 then finished (record u { vrs = update u.vrs 15 (u.vrs 14) }) else finished u

-- The instruction 10110001 0000iiii: the second byte is taken whole.
unfoldable pub pop_argument : Memory → Ucb → Outcome
unfolding next_byte masked
pop_argument word u0 = let (mask, u) = next_byte word u0 in masked word 0 mask u

-- The instruction 10110010: one byte of the number is read.
unfoldable pub far_sp : Memory → Ucb → Outcome
unfolding next_byte
far_sp word u0 =
    let (byte, u) = next_byte word u0 in move_sp (add32 (u.vrs 13) (0x204 + byte * 4)) u

-- The instructions that pop double registers, whose values are dropped.
unfoldable pub skip_doubles : Memory → ℕ → Ucb → Outcome
unfolding next_byte
skip_doubles word i u0 =
    let (byte, u) = next_byte word u0 in
    let extra = if i == 0xb3 then 4 else 0 in
    move_sp (add32 (u.vrs 13) (8 * (byte % 16 + 1) + extra)) u

unfoldable pub skip_doubles_from_8 : ℕ → Ucb → Outcome
skip_doubles_from_8 i u =
    let extra = if i / 8 == 0x17 then 4 else 0 in
    move_sp (add32 (u.vrs 13) (8 * (i % 8 + 1) + extra)) u

-- One turn of the loop of `unwind_execute_instruction`, for a byte.
unfoldable pub execute_one : Memory → ℕ → Ucb → Outcome
execute_one word i u =
    if i / 64 == 0
    then move_sp (add32 (u.vrs 13) (i % 64 * 4 + 4)) u
    else if i / 64 == 1
    then move_sp (sub32 (u.vrs 13) (i % 64 * 4 + 4)) u
    else if i / 16 == 0x8
    then pop_high word i u
    else if (i / 16 == 0x9) && not (i == 0x9d) && not (i == 0x9f)
    then move_sp (u.vrs (i % 16)) u
    else if i / 16 == 0xa
    then pop_low word i u
    else if i == 0xb0
    then finish u
    else if i == 0xb1
    then pop_argument word u
    else if i == 0xb2
    then far_sp word u
    else if (i == 0xb3) || (i == 0xc8) || (i == 0xc9)
    then skip_doubles word i u
    else if (i / 8 == 0x17) || (i / 8 == 0x1a)
    then skip_doubles_from_8 i u
    else refused

-- On to the next instruction, unless this was the last.
abbrev pub after : (Ucb → Option Outcome) → Outcome → Option Outcome
after next (goes_on u) = next u
after next (finished u) = some (finished u)
after next refused = some refused
after next overrun = some overrun

-- `unwind_execute_instruction`: it comes back with 0 (`finished`, also behind the last byte) or -1.
-- `none` is fuel that ran out.
unfoldable pub execute : Memory → ℕ → Ucb → Option Outcome
unfolding next_byte execute_one
execute word zero u0 = none
execute word (suc fuel) u0 =
    let (i, u) = next_byte word u0 in
    let rest = after (execute word fuel) (execute_one word i u) in
    if i == uint32_max then some (finished u) else rest
