-- ===== src/Threads/Specific/Keys.antt =====
-- Which key a new one is, and what the exit of a thread leaves in its thread-specific storage.
use pico_toolkit.Base.{
  ℕ, zero, suc, ◌+◌, ◌<◌, ◌≡◌, refl, Bool, true, false, Option, none, some, List, [], ◌∷◌, arith,
  if◌then◌else◌, get_elem?, set,
}
use pico_toolkit.Threads.Specific.{Slot, create_from, create}

abbrev pub used_at : List Slot → ℕ → Bool
used_at [] n = false
used_at (s ∷ ss) zero = s.used
used_at (s ∷ ss) (suc n) = used_at ss n

abbrev pub AllUsed : List Slot → Type 0
AllUsed [] = Unit
AllUsed (s ∷ ss) = (s.used ≡ true) × AllUsed ss

-- A result with positions counted from `i`: the first unused slot is taken, or all are used.
pub data Created (i : ℕ) (d : Option ℕ) (slots : List Slot) : Option ℕ × List Slot → Type 0 where
  takes :
      (n : ℕ) (s : Slot) {k : ℕ}
      → k ≡ i + n
      → get_elem? slots n ≡ some s
      → s.used ≡ false
      → ((j : ℕ) → j < n → used_at slots j ≡ true)
      → Created i d slots (some k, set slots n (record { used = true; destructor = d }))
  full : AllUsed slots → Created i d slots (none, slots)

later :
    {i : ℕ} {d : Option ℕ} {s : Slot} {ss : List Slot} {r : Option ℕ × List Slot}
    → s.used ≡ true
    → Created (i + 1) d ss r
    → Created i d (s ∷ ss) (r.0, s ∷ r.1)
later {s = s} {ss = ss} u (takes n s' e at free below) =
    takes (suc n) s' (omega arith) at free (λ j l. earlier j l)
  where
    earlier : (j : ℕ) → j < suc n → used_at (s ∷ ss) j ≡ true
    earlier zero l = u
    earlier (suc j) l = below j (omega arith)
later u (full a) = full (u, a)

place :
    (i : ℕ) (d : Option ℕ) (s : Slot) (ss : List Slot) (r : Option ℕ × List Slot) (b : Bool)
    → s.used ≡ b
    → Created (i + 1) d ss r
    → Created i d
        (s ∷ ss)
        (if b then (r.0, s ∷ r.1) else (some i, record { used = true; destructor = d } ∷ ss))
place i d s ss r true u c = later u c
place i d s ss r false u c = takes 0 s (omega arith) refl u (λ j l. absurd (omega arith))

create_from-Created :
    (i : ℕ) (d : Option ℕ) (slots : List Slot) → Created i d slots (create_from i d slots)
unfolding create_from
create_from-Created i d [] = full tt
create_from-Created i d (s ∷ ss) =
    place i d s ss (create_from (i + 1) d ss) s.used refl (create_from-Created (i + 1) d ss)

-- A new key is the first that is not in use, its slot gets the destructor and no other slot changes;
-- there is none exactly when all keys are in use, and then nothing changes.
pub create-Created : (d : Option ℕ) (slots : List Slot) → Created 0 d slots (create d slots)
unfolding create
create-Created d slots = create_from-Created 0 d slots
