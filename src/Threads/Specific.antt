-- ===== src/Threads/Specific.antt =====
-- pico-threads/threads.c: thread-specific storage (tss_*), and the destructors that thrd_exit runs.
-- `none` is an access behind the map of keys, which the bound of the code lets through.
pub mod Keys
pub mod Destructors
use pico_toolkit.Base.{
  ℕ, zero, suc, ◌+◌, ◌-◌, Bool, true, false, not, ◌&&◌, Option, none, some, List, [], ◌∷◌, ◌++◌,
  ◌==◌, ltb, if◌then◌else◌, update, get_elem?, set,
}
use pico_toolkit.Threads.{Answer, success, error}

-- `struct tss`; a destructor is known by a number, and `none` is the null pointer.
pub record Slot : Type 0 where
  pub used : Bool
  pub destructor : Option ℕ

-- `__THRD_KEYS_MAX`
abbrev pub keys_max : ℕ
keys_max = 8

-- The loop of `tss_create` from position `i` on: the first free slot.
unfoldable pub create_from : ℕ → Option ℕ → List Slot → Option ℕ × List Slot
create_from i destructor [] = (none, [])
create_from i destructor (s ∷ ss) =
    let (key, rest) = create_from (i + 1) destructor ss in
    if s.used
    then (key, s ∷ rest)
    else (some i, record { used = true; destructor = destructor } ∷ ss)

unfoldable pub create : Option ℕ → List Slot → Option ℕ × List Slot
unfolding create_from
create destructor slots = create_from 0 destructor slots

abbrev pub at_slot {ℓ} : {A : Type ℓ} → Option Slot → (Slot → A) → Option A
at_slot none go = none
at_slot (some s) go = some (go s)

unfoldable pub delete : ℕ → List Slot → Option (List Slot)
delete key slots =
    let cleared =
      at_slot (get_elem? slots key)
        (λ s. set slots key (record { used = false; destructor = none })) in
    if ltb keys_max key then some slots else cleared

-- The values of the calling thread; the null pointer is 0.
abbrev pub Values : Type 0
Values = ℕ → ℕ

unfoldable pub get : ℕ → List Slot → Values → Option ℕ
get key slots values =
    let read = at_slot (get_elem? slots key) (λ s. if s.used then values key else 0) in
    if ltb keys_max key then some 0 else read

unfoldable pub put : ℕ → ℕ → List Slot → Values → Option (Answer × Values)
put key v slots values =
    let write =
      at_slot (get_elem? slots key)
        (λ s. if s.used then (success, update values key v) else (error, values)) in
    if ltb keys_max key then some (error, values) else write

-- A call of a destructor.
pub record Destroyed : Type 0 where
  pub by : ℕ
  pub value : ℕ

-- The values, and the calls so far.
pub record Exit : Type 0 where
  pub values : Values
  pub calls : List Destroyed

-- What a destructor does to the values of the thread is an argument.
abbrev pub Destroy : Type 0
Destroy = Destroyed → Values → Values

unfoldable pub destroy_at : Destroy → ℕ → ℕ → Exit → Exit
destroy_at destroy d j x =
    let c : Destroyed = record { by = d; value = x.values j } in
    record { values = destroy c (update x.values j 0); calls = x.calls ++ c ∷ [] }

abbrev pub is_live : Slot → ℕ → Bool
is_live s v = s.used && not (v == 0)

abbrev pub destroy_if : Destroy → Option ℕ → Bool → ℕ → ℕ × Exit → ℕ × Exit
unfolding destroy_at
destroy_if destroy none live j r = r
destroy_if destroy (some d) false j r = r
destroy_if destroy (some d) true j (more, x) = (more + 1, destroy_at destroy d j x)

-- One round over the keys from `j` on: `more` counts the destructors that were called.
unfoldable pub round : Destroy → ℕ → List Slot → ℕ × Exit → ℕ × Exit
unfolding destroy_if
round destroy j [] r = r
round destroy j (s ∷ ss) r =
    round destroy (j + 1) ss (destroy_if destroy s.destructor (is_live s (r.1.values j)) j r)

-- At most `TSS_DTOR_ITERATIONS` rounds, until none is called.
unfoldable pub rounds : ℕ → Destroy → List Slot → Exit → Exit
unfolding round
rounds zero destroy slots x = x
rounds (suc n) destroy slots x =
    let (more, x1) = round destroy 0 slots (0, x) in
    let rest = rounds n destroy slots x1 in if more == 0 then x1 else rest

unfoldable pub exit_values : Destroy → List Slot → Values → Exit
unfolding rounds
exit_values destroy slots values = rounds 5 destroy slots (record { values = values; calls = [] })
