-- ===== src/Fault/Frames/Bounds.antt =====
-- The loop of a backtrace ends, within the room it is given.
use pico_toolkit.Base.{
  ℕ, zero, suc, ◌+◌, ◌≤◌, ◌<◌, ◌≡◌, inl, inr, refl, Option, some, List, arith, length, replicate,
  ◌&&◌, leb, ◌==◌, Bool-cases, Option-cases, ap,
}
use pico_toolkit.Fault.{Memory, Index, insn}
use pico_toolkit.Fault.Search.{unwind_search_index-returns}
use pico_toolkit.Fault.Unwind.{Frame, init, Outcome, goes_on, finished, refused, overrun}
use pico_toolkit.Fault.Unwind.Total.{execute-total}
use pico_toolkit.Fault.Frames.{
  Unwound, stops, fails, overran, unwinds, conclude, settle, run_table, instructions_of, unwind_at,
  unwind_frame, Backtrace, Round, breaks, continues, visit, Trace, traced, corrupted, and_then,
  next_round, after_visit, walk, backtrace_unwind,
}

abbrev pub Returns {ℓ} : {A : Type ℓ} → Option A → Type ℓ
Returns {A} o = (a : A) × (o ≡ some a)

settle-Returns :
    (word : Memory) (psp : ℕ) (f : Frame) (o : Outcome) → Returns (settle word psp f (some o))
unfolding settle
settle-Returns word psp f (goes_on u) = (conclude word psp f u.vrs, refl)
settle-Returns word psp f (finished u) = (conclude word psp f u.vrs, refl)
settle-Returns word psp f refused = (fails, refl)
settle-Returns word psp f overrun = (overran, refl)

run_table-Returns :
    (word : Memory) (psp instructions : ℕ) (f : Frame)
    → Returns (run_table word psp f (init word instructions f))
unfolding run_table
run_table-Returns word psp instructions f = elim (Option-cases (init word instructions f)) [
  | inl e ↦ rw e (fails, refl)
  | inr (u, e) ↦
      let (o, ran) = execute-total word instructions f 1023 (omega arith) e in
      rw e (rw ran (settle-Returns word psp f o))
]

-- A result of at least `least` entries and at most `most`, unless a write left the registers.
pub data Between (least most : ℕ) : Option Trace → Type 0 where
  between :
      {bs : List Backtrace}
      → least ≤ length bs
      → length bs ≤ most
      → Between least most (some (traced bs))
  corrupt : Between least most (some corrupted)

and_then-Between :
    {most : ℕ} (b : Backtrace) {o : Option Trace}
    → Between 0 most o
    → Between 1 (suc most) (and_then b o)
and_then-Between b (between g h) = between (omega arith) (omega arith)
and_then-Between b corrupt = corrupt

Between-weaken : {most : ℕ} {o : Option Trace} → Between 1 most o → Between 0 most o
Between-weaken (between g h) = between (omega arith) h
Between-weaken corrupt = corrupt

module _ (word : Memory) (x : Index) (psp : ℕ) where
  unwind_at-Returns : (f : Frame) (i : ℕ) → Returns (unwind_at word x psp f i)
  unfolding unwind_at
  unwind_at-Returns f i = elim (Bool-cases (word (insn x i) == 1)) [
    | inl e ↦ rw e (stops, refl)
    | inr e ↦ rw e (run_table-Returns word psp (instructions_of word x i) f)
  ]

  pub unwind_frame-Returns : (f : Frame) → Returns (unwind_frame word x psp f)
  unfolding unwind_frame
  unwind_frame-Returns f =
      let (i, found) = unwind_search_index-returns word x f.pc in rw found (unwind_at-Returns f i)

  next_round-Between :
      {most : ℕ} (b : Backtrace) (f : Frame) (next : Frame → Option Trace) (r : Unwound)
      → ((g : Frame) → Between 0 most (next g))
      → Between 1 (suc most) (next_round b f next (some r))
  next_round-Between b f next stops h = between (omega arith) (omega arith)
  next_round-Between b f next fails h = and_then-Between b (h f)
  next_round-Between b f next (unwinds g) h = and_then-Between b (h g)
  next_round-Between b f next overran h = corrupt

  after_visit-Between :
      {most : ℕ} (next : Frame → Option Trace) (r : Round)
      → ((g : Frame) → Between 0 most (next g))
      → Between 1 (suc most) (after_visit word x psp next (some r))
  unfolding after_visit
  after_visit-Between next (breaks b) h = between (omega arith) (omega arith)
  after_visit-Between next (continues b f) h =
      let (r, e) = unwind_frame-Returns f in rw e (next_round-Between b f next r h)

  module _ (start : ℕ) where
    visit-Returns : (f : Frame) → Returns (visit word x start f)
    unfolding visit
    visit-Returns f = elim (Bool-cases (f.pc == 0)) [
      | inl e ↦ rw e (_, refl)
      | inr e ↦ elim (Bool-cases (f.pc == 1)) [
        | inl e' ↦ rw (e, e') (_, refl)
        | inr e' ↦ elim (Bool-cases (leb start f.pc && leb f.pc (start + 64))) [
          | inl e'' ↦ rw (e, e', e'') (_, refl)
          | inr e'' ↦
              let (i, found) = unwind_search_index-returns word x f.pc in
              rw (e, e', e'', found) (_, refl)
        ]
      ]
    ]

    walk-Between : (room : ℕ) (f : Frame) → Between 0 room (walk word x start psp room f)
    unfolding walk
    walk-Between zero f = between (omega arith) (omega arith)
    walk-Between (suc room) f =
        let (r, e) = visit-Returns f in
        rw e
          (Between-weaken (after_visit-Between (walk word x start psp room) r (walk-Between room)))

    -- A backtrace into a buffer that is not empty ends, and fills at least one entry and no more than
    -- the buffer has, unless an unwind instruction wrote behind the virtual registers.
    pub backtrace_unwind-Between :
        (size : ℕ) (f : Frame)
        → 0 < size
        → Between 1 size (backtrace_unwind word x start psp size f)
    unfolding backtrace_unwind walk
    backtrace_unwind-Between zero f h = absurd (omega arith)
    backtrace_unwind-Between (suc size) f h =
        let (r, e) = visit-Returns f in
        rw e (after_visit-Between (walk word x start psp size) r (walk-Between size))

    walk-repeats :
        (f : Frame) (b : Backtrace)
        → visit word x start f ≡ some (continues b f)
        → unwind_frame word x psp f ≡ some fails
        → (room : ℕ) → walk word x start psp room f ≡ some (traced (replicate room b))
    unfolding walk after_visit
    walk-repeats f b seen failed zero = refl
    walk-repeats f b seen failed (suc room) =
        rw (seen, failed) (ap (and_then b) (walk-repeats f b seen failed room))

    -- A frame that is entered as it is, and that `unwind_frame` cannot unwind (its -1 counts as true),
    -- is entered again until the buffer is full: every entry is the same.
    pub backtrace_unwind-repeats :
        (f : Frame) (b : Backtrace) (size : ℕ)
        → visit word x start f ≡ some (continues b f)
        → unwind_frame word x psp f ≡ some fails
        → 0 < size
        → backtrace_unwind word x start psp size f ≡ some (traced (replicate size b))
    unfolding backtrace_unwind
    backtrace_unwind-repeats f b zero seen failed h = absurd (omega arith)
    backtrace_unwind-repeats f b (suc size) seen failed h = walk-repeats f b seen failed (suc size)
