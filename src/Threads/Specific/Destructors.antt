-- ===== src/Threads/Specific/Destructors.antt =====
-- Which destructors the exit of a thread calls, with what, and when it stops; they may do anything to the
-- storage of the thread.
use pico_toolkit.Base.{
  ℕ, zero, suc, ◌+◌, ◌≤◌, ◌≡◌, ◌≢◌, ◌⊎◌, inl, inr, refl, ap, ◌∙◌, subst, Bool, true, false, not,
  ◌&&◌, Option, none, some, List, [], ◌∷◌, ◌++◌, length, arith, ◌==◌, if◌then◌else◌, update,
  Bool-cases,
}
use pico_toolkit.Threads.Specific.{
  Slot, Values, Exit, Destroy, destroy_at, destroy_if, is_live, round, rounds, exit_values,
}

-- The destructor of a key in use.
abbrev pub destructor_of : List Slot → ℕ → Option ℕ
destructor_of [] k = none
destructor_of (s ∷ ss) zero = if s.used then s.destructor else none
destructor_of (s ∷ ss) (suc k) = destructor_of ss k

-- What calls of destructors make of the values: each is of the destructor of a key in use with the value
-- of the key, which is not null then, and nulled before.
pub data Runs (destroy : Destroy) (slots : List Slot) (values : Values) : Exit → Type 0 where
  begins : Runs destroy slots values (record { values = values; calls = [] })
  calls :
      (k d : ℕ) {x : Exit}
      → destructor_of slots k ≡ some d
      → x.values k ≢ 0
      → Runs destroy slots values x
      → Runs destroy slots values (record {
        values = destroy (record { by = d; value = x.values k }) (update x.values k 0);
        calls = x.calls ++ record { by = d; value = x.values k } ∷ [];
      })

-- Every key in use that has a destructor is null.
abbrev pub Nulled : List Slot → Values → Type 0
Nulled slots values = (k d : ℕ) → destructor_of slots k ≡ some d → values k ≡ 0

length-snoc : {A : Type 0} (xs : List A) (x : A) → length (xs ++ x ∷ []) ≡ length xs + 1
length-snoc [] x = refl
length-snoc (y ∷ xs) x = omega (arith, length-snoc xs x)

module _ (destroy : Destroy) (slots : List Slot) (values : Values) where
  -- From `r` to `r'` over the slots `ss`, which begin at the key `j`.
  record Progress (j : ℕ) (ss : List Slot) (r r' : ℕ × Exit) : Type 0 where
    runs : Runs destroy slots values r.1 → Runs destroy slots values r'.1
    counts : length r'.1.calls + r.0 ≡ length r.1.calls + r'.0
    grows : r.0 ≤ r'.0
    still :
        r'.0 ≡ r.0 → (r' ≡ r) × ((k d : ℕ) → destructor_of ss k ≡ some d → r.1.values (j + k) ≡ 0)

  Progress-same :
      (j : ℕ) (ss : List Slot) (r : ℕ × Exit)
      → ((k d : ℕ) → destructor_of ss k ≡ some d → r.1.values (j + k) ≡ 0)
      → Progress j ss r r
  Progress-same j ss r h = record {
    runs = λ u. u;
    counts = refl;
    grows = omega arith;
    still = λ e. (refl, h);
  }

  Progress-cons :
      (j : ℕ) (s : Slot) (ss : List Slot) (r r1 r' : ℕ × Exit)
      → Progress j (s ∷ []) r r1
      → Progress (j + 1) ss r1 r'
      → Progress j (s ∷ ss) r r'
  Progress-cons j s ss r r1 r' p q = record {
    runs = λ u. q.runs (p.runs u);
    counts = omega (arith, p.counts, q.counts);
    grows = omega (arith, p.grows, q.grows);
    still = λ e.
        let (same, null) = p.still (omega (arith, e, p.grows, q.grows)) in
        let (same', nulls) = q.still (omega (arith, e, p.grows, q.grows)) in
        (same' ∙ same, quiet null same nulls);
  }
    where
      quiet :
          ((k d : ℕ) → destructor_of (s ∷ []) k ≡ some d → r.1.values (j + k) ≡ 0)
          → r1 ≡ r
          → ((k d : ℕ) → destructor_of ss k ≡ some d → r1.1.values (j + 1 + k) ≡ 0)
          → (k d : ℕ) → destructor_of (s ∷ ss) k ≡ some d
          → r.1.values (j + k) ≡ 0
      quiet null same nulls zero d h = null 0 d h
      quiet null same nulls (suc k) d h =
          subst (λ i. r.1.values i ≡ 0) (omega arith)
            (subst (λ x. x.1.values (j + 1 + k) ≡ 0) same (nulls k d h))

  one_slot :
      (j : ℕ) (s : Slot) (vs : Values)
      → ((d : ℕ) → destructor_of (s ∷ []) 0 ≡ some d → vs j ≡ 0)
      → (k d : ℕ) → destructor_of (s ∷ []) k ≡ some d
      → vs (j + k) ≡ 0
  one_slot j s vs h zero d e = subst (λ i. vs i ≡ 0) (omega arith) (h d e)
  one_slot j s vs h (suc k) d e = ground (arith, e)

  destroy_at-Progress :
      (j d : ℕ) (s : Slot) (r : ℕ × Exit)
      → destructor_of slots j ≡ some d
      → (r.1.values j == 0) ≡ false
      → Progress j (s ∷ []) r (r.0 + 1, destroy_at destroy d j r.1)
  unfolding destroy_at
  destroy_at-Progress j d s r at live = record {
    runs = λ u. calls j d at (λ e. ground (arith, live, e)) u;
    counts = omega (arith, length-snoc r.1.calls (record { by = d; value = r.1.values j }));
    grows = omega arith;
    still = λ e. absurd (omega (arith, e));
  }

  destroy_if-Progress :
      (j : ℕ) (d : Option ℕ) (used : Bool) (r : ℕ × Exit)
      → destructor_of slots j ≡ (if used then d else none)
      → Progress j
          (record { used = used; destructor = d } ∷ [])
          r
          (destroy_if destroy d (used && not (r.1.values j == 0)) j r)
  unfolding destroy_if
  destroy_if-Progress j none used r at =
      Progress-same j _ r (
        one_slot j (record { used = used; destructor = none }) r.1.values
          (λ d e. ground (arith, e)))
  destroy_if-Progress j (some d) false r at = Progress-same j _ r (
      one_slot j (record { used = false; destructor = some d }) r.1.values
        (λ e h. ground (arith, h)))
  destroy_if-Progress j (some d) true r at = elim (Bool-cases (r.1.values j == 0)) [
    | inl null ↦ rw null (
        Progress-same j _ r (
          one_slot j (record { used = true; destructor = some d }) r.1.values
            (λ e h. ground (arith, null))))
    | inr live ↦ rw live (destroy_at-Progress j d _ r at live)
  ]

  round-Progress :
      (j : ℕ) (ss : List Slot) (r : ℕ × Exit)
      → ((k : ℕ) → destructor_of slots (j + k) ≡ destructor_of ss k)
      → Progress j ss r (round destroy j ss r)
  unfolding round
  round-Progress j [] r at = Progress-same j [] r (λ k d e. ground (arith, e))
  round-Progress j (s ∷ ss) r at =
      let r1 = destroy_if destroy s.destructor (is_live s (r.1.values j)) j r in
      Progress-cons j s ss r r1 _
        (destroy_if-Progress j s.destructor s.used r
          (ap (destructor_of slots) (omega arith) ∙ at 0))
        (round-Progress (j + 1) ss r1 (λ k. ap (destructor_of slots) (omega arith) ∙ at (suc k)))

  -- What rounds from `x` on come to: all is null, or each called a destructor.
  abbrev Stopped : ℕ → Exit → Exit → Type 0
  Stopped n x x' = Nulled slots x'.values ⊎ (n + length x.calls ≤ length x'.calls)

  rounds-Runs :
      (n : ℕ) (x : Exit)
      → Runs destroy slots values x
      → Runs destroy slots values (rounds n destroy slots x)
        × Stopped n x (rounds n destroy slots x)
  unfolding rounds
  rounds-Runs zero x u = (u, inr (omega arith))
  rounds-Runs (suc n) x u =
      let r' = round destroy 0 slots (0, x) in
      let p = round-Progress 0 slots (0, x) (λ k. ap (destructor_of slots) (omega arith)) in
      elim (Bool-cases (r'.0 == 0)) [
        | inl none_called ↦
            let (same, nulls) = p.still (ground (arith, none_called)) in
            rw none_called (p.runs u, inl (finished r' same nulls))
        | inr called ↦
            let (run, stopped) = rounds-Runs n r'.1 (p.runs u) in
            rw called (run, later r' p called _ stopped)
      ]
    where
      finished :
          (r' : ℕ × Exit)
          → r' ≡ (0, x)
          → ((k d : ℕ) → destructor_of slots k ≡ some d → x.values (0 + k) ≡ 0)
          → Nulled slots r'.1.values
      finished r' same nulls k d h =
          ap (λ y. y.1.values k) same ∙ ap x.values (omega arith) ∙ nulls k d h

      later :
          (r' : ℕ × Exit)
          → Progress 0 slots (0, x) r'
          → (r'.0 == 0) ≡ false
          → (x' : Exit) → Stopped n r'.1 x'
          → Stopped (suc n) x x'
      later r' p called x' (inl nulls) = inl nulls
      later r' p called x' (inr many) = inr (ground (arith, many, p.counts, called))

-- At the exit of a thread the destructors may change the storage at will. Each call is of the destructor
-- of a key in use, with the value of the key at that time, which is not null and is nulled before the
-- call; the values at the end are what these calls leave. Then every key in use that has a destructor is
-- null, or at least five calls, the number of rounds, were made.
pub exit_values-Runs :
    (destroy : Destroy) (slots : List Slot) (values : Values)
    → Runs destroy slots values (exit_values destroy slots values)
      × (Nulled slots (exit_values destroy slots values).values
          ⊎ (5 ≤ length (exit_values destroy slots values).calls))
unfolding exit_values
exit_values-Runs destroy slots values =
    let (u, stopped) =
      rounds-Runs destroy slots values 5 (record { values = values; calls = [] }) begins in
    (u, stopped)
