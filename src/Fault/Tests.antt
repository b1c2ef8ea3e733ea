-- ===== src/Fault/Tests.antt =====
-- Backtraces over a small image: two functions, at 0x100 and 0x200, with an index of two entries at
-- 0x1000 and a stack at 0x2000.
use pico_toolkit.Base.{
  ℕ, zero, suc, ◌-◌, ◌^◌, ◌≡◌, refl, some, [], ◌∷◌, arith, ◌==◌, if◌then◌else◌, update,
}
use pico_toolkit.Fault.{
  Memory, Index, entry_addr, unwind_search_index, unknown, prel31_to_addr, search_loop,
  get_function_name,
}
use pico_toolkit.Fault.Search.{Ascends, last_entry, unwind_search_index-last_entry}
use pico_toolkit.Fault.Unwind.{Frame, Ucb, pop_low, finish}
use pico_toolkit.Fault.Frames.{
  fails, Backtrace, continues, visit, unwind_frame, traced, backtrace_unwind,
}
use pico_toolkit.Fault.Frames.Bounds.{Between, backtrace_unwind-Between}

-- The second function pops r4 to r6 and r14, or has the table `table`.
abbrev image : ℕ → Memory
image table a =
    if a == 0x1000
    then 2 ^ 31 - 0xf00
    else if a == 0x1004
    then 0x80b0b0b0
    else if a == 0x1008
    then 2 ^ 31 - 0xe08
    else if a == 0x100c
    then table
    else if a == 0x200c
    then 0x104
    else a

abbrev good : Memory
good = image 0x80aab0b0

abbrev bad : Memory
bad = image 0x83b0b0b0

abbrev index : Index
index = record { start = 0x1000; count = 2 }

abbrev frame : Frame
frame = record { fp = 0; sp = 0x2000; lr = 0; pc = 0x210 }

good-Ascends : Ascends good index
unfolding entry_addr prel31_to_addr
good-Ascends zero zero l h = omega arith
good-Ascends zero (suc zero) l h = omega arith
good-Ascends (suc zero) (suc zero) l h = omega arith
good-Ascends (suc zero) zero l h = absurd (omega arith)
good-Ascends (suc (suc i)) zero l h = absurd (omega arith)
good-Ascends (suc (suc i)) (suc zero) l h = absurd (omega arith)
good-Ascends i (suc (suc j)) l h = absurd (omega arith)

search_second : unwind_search_index good index 0x210 ≡ some 1
unfolding unwind_search_index search_loop entry_addr prel31_to_addr
search_second = refl

unwind_search_index-last_entry_example :
    unwind_search_index good index 0x210 ≡ some (last_entry good index 0x210 2)
unwind_search_index-last_entry_example =
    unwind_search_index-last_entry good index 0x210 good-Ascends

abbrev entry_2 : Backtrace
entry_2 = record { function = 0x200; address = 0x210; name = unknown }

abbrev entry_1 : Backtrace
entry_1 = record { function = 0x100; address = 0x104; name = unknown }

trace_2 : backtrace_unwind good index 0x8000 0 5 frame ≡ some (traced (entry_2 ∷ entry_1 ∷ []))
unfolding backtrace_unwind get_function_name unwind_search_index search_loop entry_addr
    prel31_to_addr pop_low finish
trace_2 = refl

backtrace_unwind-Between_example : Between 1 5 (backtrace_unwind good index 0x8000 0 5 frame)
backtrace_unwind-Between_example =
    backtrace_unwind-Between good index 0 0x8000 5 frame (omega arith)

visit-bad : visit bad index 0x8000 frame ≡ some (continues entry_2 frame)
unfolding visit get_function_name unwind_search_index search_loop entry_addr prel31_to_addr
visit-bad = refl

unwind_bad : unwind_frame bad index 0 frame ≡ some fails
unfolding unwind_frame search_loop entry_addr
unwind_bad = refl

abbrev block : Ucb
block = record {
  vrs = λ r. if r == 13 then 0x2000 else 0;
  current = 0x100c;
  remaining = 3;
  byte = 2;
}

abbrev ready : Ucb
ready = record {
  vrs = update (update (update (λ r. 0) 7 0) 13 0x2000) 14 0;
  current = 0x100c;
  remaining = 3;
  byte = 2;
}
