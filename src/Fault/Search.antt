-- ===== src/Fault/Search.antt =====
-- The binary search of the unwind index against a scan from its end.
use pico_toolkit.Base.{
  ℕ, zero, suc, ◌+◌, ◌-◌, ◌/◌, ◌%◌, ◌^◌, ◌≤◌, ◌<◌, ◌≡◌, ◌⊎◌, inl, inr, some, refl, arith, leb, ltb,
  if◌then◌else◌, Bool-cases, subst, ap, sym, ◌∙◌, ltb→lt,
}
use native.Mathlib.Decide.{dec_lt}
use pico_toolkit.Fault.{Memory, Index, prel31_to_addr, entry_addr, search_loop, unwind_search_index}

-- The sign of the offset makes no difference to the address.
pub prel31_to_addr_lem :
    (word : Memory) (addr : ℕ) → prel31_to_addr word addr ≡ (addr + word addr) % 2 ^ 31
unfolding prel31_to_addr
prel31_to_addr_lem word addr = ground arith

module _ (word : Memory) (x : Index) where
  -- The functions of the table ascend.
  abbrev pub Ascends : Type 0
  Ascends = (i j : ℕ) → i ≤ j → j < x.count → entry_addr word x i ≤ entry_addr word x j

  -- The last of the first `n` entries that does not start behind `ip`, or the first.
  pub last_entry : ℕ → ℕ → ℕ
  last_entry ip zero = 0
  last_entry ip (suc n) =
      let rest = last_entry ip n in if leb (entry_addr word x n) ip then n else rest

  module _ (ip : ℕ) where
    abbrev Reached : ℕ → Type 0
    Reached lo = (lo ≡ 0) ⊎ (entry_addr word x lo ≤ ip)

    abbrev Passed : ℕ → ℕ → Type 0
    Passed hi n = (i : ℕ) → hi ≤ i → i < n → ip < entry_addr word x i

    last_entry_at : (n : ℕ) → Reached n → last_entry ip (suc n) ≡ n
    unfolding last_entry
    last_entry_at zero r = ground arith
    last_entry_at (suc n) (inl e) = absurd (omega (arith, e))
    last_entry_at (suc n) (inr h) = ground arith

    last_entry_below : (n : ℕ) → ip < entry_addr word x n → last_entry ip (suc n) ≡ last_entry ip n
    unfolding last_entry
    last_entry_below n h = ground arith

    last_entry_lem : (n lo : ℕ) → Reached lo → lo < n → Passed (suc lo) n → last_entry ip n ≡ lo
    last_entry_lem zero lo r h p = absurd (omega arith)
    last_entry_lem (suc n) lo r h p = elim (dec_lt lo n) [
      | yes l ↦
          last_entry_below n (p n (omega arith) (omega arith))
          ∙ last_entry_lem n lo r l (λ i a b. p i a (omega arith))
      | no l ↦
          let e : lo ≡ n = omega arith in
          subst (λ k. last_entry ip (suc k) ≡ lo) e (last_entry_at lo r)
    ]

    search_loop-last_entry :
        (fuel lo hi : ℕ)
        → Ascends
        → hi - lo < fuel
        → lo < hi
        → hi ≤ x.count
        → Reached lo
        → Passed hi x.count
        → search_loop word x ip fuel lo hi ≡ some (last_entry ip x.count)
    unfolding search_loop
    search_loop-last_entry zero lo hi asc f l c r p = absurd (omega arith)
    search_loop-last_entry (suc fuel) lo hi asc f l c r p =
        let middle : ℕ = lo + (hi - lo + 1) / 2 in
        elim (Bool-cases (ltb (lo + 1) hi)) [
          | inl more ↦
              let two : lo + 1 < hi = ltb→lt _ _ more in
              elim (Bool-cases (ltb ip (entry_addr word x middle))) [
                | inl below ↦
                    rw (more, below)
                      (search_loop-last_entry fuel lo middle asc (omega arith) (omega arith)
                        (omega arith) r
                        (λ i a b. omega (arith, asc middle i a b, ltb→lt _ _ below)))
                | inr above ↦
                    rw (more, above)
                      (search_loop-last_entry fuel middle hi asc (omega arith) (omega arith) c
                        (inr (ground arith)) p)
              ]
          | inr stop ↦ rw stop (
              ap some
                (sym (last_entry_lem x.count lo r (omega arith) (λ i a b. p i (ground arith) b))))
        ]

no_entries :
    (word : Memory) (x : Index) (ip n : ℕ)
    → n ≡ 0
    → search_loop word x ip (suc n) 0 n ≡ some (last_entry word x ip n)
unfolding search_loop last_entry
no_entries word x ip zero e = refl
no_entries word x ip (suc n) e = absurd (omega arith)

-- On an index whose functions ascend the binary search of the unwind index ends, and finds what a
-- scan from the end finds: the last entry that does not start behind the address, or the first.
pub unwind_search_index-last_entry :
    (word : Memory) (x : Index) (ip : ℕ)
    → Ascends word x
    → unwind_search_index word x ip ≡ some (last_entry word x ip x.count)
unfolding unwind_search_index
unwind_search_index-last_entry word x ip asc = elim (dec_lt 0 x.count) [
  | yes some_entry ↦
      search_loop-last_entry word x ip (suc x.count) 0 x.count asc (omega arith) some_entry
        (omega arith) (inl refl) (λ i a b. absurd (omega arith))
  | no empty ↦ no_entries word x ip x.count (omega arith)
]

-- Whatever the order of the index, the search ends.
pub search_loop-returns :
    (word : Memory) (x : Index) (ip fuel lo hi : ℕ)
    → hi - lo < fuel
    → (i : ℕ) × (search_loop word x ip fuel lo hi ≡ some i)
unfolding search_loop
search_loop-returns word x ip zero lo hi h = absurd (omega arith)
search_loop-returns word x ip (suc fuel) lo hi h = elim (Bool-cases (ltb (lo + 1) hi)) [
  | inl more ↦
      let two : lo + 1 < hi = ltb→lt _ _ more in
      let middle : ℕ = lo + (hi - lo + 1) / 2 in
      elim (Bool-cases (ltb ip (entry_addr word x middle))) [
        | inl below ↦ rw (more, below) (search_loop-returns word x ip fuel lo middle (omega arith))
        | inr above ↦ rw (more, above) (search_loop-returns word x ip fuel middle hi (omega arith))
      ]
  | inr stop ↦ (lo, rw stop)
]

pub unwind_search_index-returns :
    (word : Memory) (x : Index) (ip : ℕ) → (i : ℕ) × (unwind_search_index word x ip ≡ some i)
unfolding unwind_search_index
unwind_search_index-returns word x ip =
    search_loop-returns word x ip (suc x.count) 0 x.count (omega arith)
