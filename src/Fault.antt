-- ===== src/Fault.antt =====
-- pico-fault/backtrace.c: the index of unwind tables and its search. Memory is a function from an
-- address to the word there; tests by a mask of adjacent bits are written as quotients.
pub mod Search
pub mod Unwind
pub mod Frames
mod Tests
use pico_toolkit.Base.{
  ℕ, zero, suc, ◌+◌, ◌-◌, ◌*◌, ◌/◌, ◌%◌, ◌^◌, Option, none, some, ◌==◌, leb, ltb, if◌then◌else◌,
}

-- Machine words.
abbrev pub Memory : Type 0
Memory = ℕ → ℕ

-- A word at an address, as an offset of 31 bits with its sign.
unfoldable pub prel31_to_addr : Memory → ℕ → ℕ
prel31_to_addr word addr =
    let low = word addr % 2 ^ 31 in
    let offset = if leb (2 ^ 30) low then low + 2 ^ 31 else low in (addr + offset) % 2 ^ 32 % 2 ^ 31

-- `__exidx_start` and the number of entries up to `__exidx_end`; an entry is two words.
pub record Index : Type 0 where
  pub start : ℕ
  pub count : ℕ

-- `&start[i].addr_offset` and `&start[i].insn`
abbrev pub addr_offset : Index → ℕ → ℕ
addr_offset x i = x.start + 8 * i

abbrev pub insn : Index → ℕ → ℕ
insn x i = x.start + 8 * i + 4

-- The function that an entry is about.
unfoldable pub entry_addr : Memory → Index → ℕ → ℕ
entry_addr word x i = prel31_to_addr word (addr_offset x i)

-- The loop of `unwind_search_index`, on the positions of entries. `none` is fuel that ran out.
unfoldable pub search_loop : Memory → Index → ℕ → ℕ → ℕ → ℕ → Option ℕ
search_loop word x ip zero lo hi = none
search_loop word x ip (suc fuel) lo hi =
    let middle = lo + (hi - lo + 1) / 2 in
    let lower = search_loop word x ip fuel lo middle in
    let upper = search_loop word x ip fuel middle hi in
    if ltb (lo + 1) hi
    then (if ltb ip (entry_addr word x middle) then lower else upper)
    else some lo

unfoldable pub unwind_search_index : Memory → Index → ℕ → Option ℕ
unwind_search_index word x ip = search_loop word x ip (suc x.count) 0 x.count

-- Where the name of a function is found, in the words before its code.
pub data Name : Type 0 where
  at : ℕ → Name
  unknown entry_point end_of_table cannot_unwind : Name

unfoldable pub get_function_name : Memory → ℕ → Name
get_function_name word address =
    let before = (address + 2 ^ 32 - 4) % 2 ^ 32 in
    let flag_word = word before in
    if address % 4 == 0
    then (if flag_word / 2 ^ 24 % 256 == 0xff
        then at ((before + 2 ^ 32 - flag_word % 2 ^ 24) % 2 ^ 32)
        else unknown)
    else unknown

-- `backtrace_function_name`
unfoldable pub backtrace_function_name : Memory → Index → ℕ → Option Name
backtrace_function_name word x pc = elim (unwind_search_index word x pc) [
  | none ↦ none
  | some i ↦ some (get_function_name word (entry_addr word x i))
]
