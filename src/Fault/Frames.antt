-- ===== src/Fault/Frames.antt =====
-- pico-fault/backtrace.c: the step from a frame to its caller's, and the whole backtrace. `none` is
-- fuel that ran out.
pub mod Bounds
use pico_toolkit.Base.{
  ℕ, zero, suc, ◌+◌, ◌-◌, ◌*◌, ◌/◌, ◌%◌, ◌^◌, Bool, ◌&&◌, Option, none, some, List, [], ◌∷◌, ◌==◌,
  leb, ltb, if◌then◌else◌, update,
}
use pico_toolkit.Fault.{
  Memory, Index, insn, prel31_to_addr, entry_addr, unwind_search_index, Name, entry_point,
  end_of_table, cannot_unwind, get_function_name,
}
use pico_toolkit.Fault.Unwind.{
  Frame, Ucb, Registers, init, Outcome, goes_on, finished, refused, overrun, execute, sub32, add32,
}

-- The result of `unwind_frame`: 0, -1, 1 with the caller's frame, or a write behind the registers.
pub data Unwound : Type 0 where
  stops fails overran : Unwound
  unwinds : Frame → Unwound

-- Where the exception frame has the program counter: below the aligned frame pointer in handler mode,
-- or above the process stack pointer `psp`.
unfoldable pub exception_stack : ℕ → Registers → ℕ
exception_stack psp vrs =
    let lr = vrs 15 in
    let base = sub32 (vrs 7 / 8 * 8) 8 in
    if lr / 4 % 4 == 0 then (if lr / 16 % 16 == 0xe then sub32 base 72 else base) else add32 psp 24

unfoldable pub exception_return : Memory → ℕ → Registers → Registers
exception_return word psp vrs =
    let stack = exception_stack psp vrs in
    let aligned = update vrs 13 (vrs 7 / 8 * 8) in
    if vrs 15 / 2 ^ 28 % 16 == 0xf
    then update (update aligned 15 (word stack)) 14 (word (sub32 stack 4))
    else vrs

-- From the end of the instructions to the end of `unwind_frame`.
unfoldable pub conclude : Memory → ℕ → Frame → Registers → Unwound
unfolding exception_return exception_stack
conclude word psp f vrs0 =
    let vrs1 = if vrs0 15 == 0 then update vrs0 15 (vrs0 14) else vrs0 in
    let vrs = exception_return word psp vrs1 in
    if f.pc == vrs 15
    then stops
    else unwinds (record { fp = vrs 7; sp = vrs 13; lr = vrs 14; pc = vrs 15 })

unfoldable pub settle : Memory → ℕ → Frame → Option Outcome → Option Unwound
unfolding conclude
settle word psp f none = none
settle word psp f (some (goes_on u)) = some (conclude word psp f u.vrs)
settle word psp f (some (finished u)) = some (conclude word psp f u.vrs)
settle word psp f (some refused) = some fails
settle word psp f (some overrun) = some overran

-- The address of the first unwind instruction.
unfoldable pub instructions_of : Memory → Index → ℕ → ℕ
unfolding prel31_to_addr
instructions_of word x i =
    let inlined = word (insn x i) / 2 ^ 31 % 2 == 1 in
    let elsewhere = prel31_to_addr word (insn x i) in if inlined then insn x i else elsewhere

unfoldable pub run_table : Memory → ℕ → Frame → Option Ucb → Option Unwound
unfolding execute settle
run_table word psp f none = some fails
run_table word psp f (some u) = settle word psp f (execute word 1023 u)

-- `unwind_frame`, at the entry that the search has found.
unfoldable pub unwind_at : Memory → Index → ℕ → Frame → ℕ → Option Unwound
unfolding init instructions_of run_table
unwind_at word x psp f i =
    let table = run_table word psp f (init word (instructions_of word x i) f) in
    if word (insn x i) == 1 then some stops else table

abbrev pub with_index {ℓ} : {A : Type ℓ} → Option ℕ → (ℕ → Option A) → Option A
with_index none go = none
with_index (some i) go = go i

unfoldable pub unwind_frame : Memory → Index → ℕ → Frame → Option Unwound
unfolding unwind_search_index unwind_at
unwind_frame word x psp f = with_index (unwind_search_index word x f.pc) (unwind_at word x psp f)

-- `backtrace_t`
pub record Backtrace : Type 0 where
  pub function : ℕ
  pub address : ℕ
  pub name : Name

-- A round of the loop fills one entry, and breaks or goes on to unwind the frame.
pub data Round : Type 0 where
  breaks : Backtrace → Round
  continues : Backtrace → Frame → Round

unfoldable pub visit : Memory → Index → ℕ → Frame → Option Round
visit word x start f =
    let cleared = f.pc / 2 * 2 in
    if f.pc == 0
    then some (breaks (record { function = 0; address = 0; name = end_of_table }))
    else if f.pc == 1
    then some (breaks (record { function = 0; address = 0; name = cannot_unwind }))
    else if leb start f.pc && leb f.pc (start + 64)
    then some (breaks (record { function = start; address = cleared; name = entry_point }))
    else with_index (unwind_search_index word x f.pc) (λ i.
      let function = entry_addr word x i in
      some (
        continues
          (record {
            function = function;
            address = cleared;
            name = get_function_name word function;
          })
          (record f { pc = cleared })))

-- The entries that `_backtrace_unwind` fills, or a write behind the registers.
pub data Trace : Type 0 where
  traced : List Backtrace → Trace
  corrupted : Trace

abbrev pub and_then : Backtrace → Option Trace → Option Trace
and_then b none = none
and_then b (some (traced bs)) = some (traced (b ∷ bs))
and_then b (some corrupted) = some corrupted

-- `while (unwind_frame(frame) && count < size)`, where -1 goes on with the frame as it is; `next`
-- is the rest of the loop if there is room.
abbrev pub next_round : Backtrace → Frame → (Frame → Option Trace) → Option Unwound → Option Trace
next_round b f next none = none
next_round b f next (some stops) = some (traced (b ∷ []))
next_round b f next (some fails) = and_then b (next f)
next_round b f next (some (unwinds g)) = and_then b (next g)
next_round b f next (some overran) = some corrupted

unfoldable pub after_visit :
    Memory → Index → ℕ → (Frame → Option Trace) → Option Round → Option Trace
unfolding unwind_frame
after_visit word x psp next none = none
after_visit word x psp next (some (breaks b)) = some (traced (b ∷ []))
after_visit word x psp next (some (continues b f)) = next_round b f next (unwind_frame word x psp f)

-- Fuel is the room that is left: the first round takes place whatever `size` is.
unfoldable pub walk : Memory → Index → ℕ → ℕ → ℕ → Frame → Option Trace
unfolding visit after_visit
walk word x start psp zero f = some (traced [])
walk word x start psp (suc room) f =
    after_visit word x psp (walk word x start psp room) (visit word x start f)

unfoldable pub backtrace_unwind : Memory → Index → ℕ → ℕ → ℕ → Frame → Option Trace
unfolding walk
backtrace_unwind word x start psp zero f = walk word x start psp 1 f
backtrace_unwind word x start psp (suc size) f = walk word x start psp (suc size) f
