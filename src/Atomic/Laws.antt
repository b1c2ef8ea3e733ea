-- ===== src/Atomic/Laws.antt =====
-- pico-atomic.c: each function is one read and one write of its cell, and gives the lock and the interrupt mask back.
use pico_toolkit.Base.{
  ℕ, ◌+◌, ◌-◌, ◌%◌, ◌^◌, ◌<◌, ◌≡◌, refl, ap₂, ap, ◌∙◌, fun_ext, true, false, none, some, ◌==◌,
  if◌then◌else◌, update, arith, inl, inr, Bool-cases, ==_self,
}
use pico_toolkit.Atomic.{
  Mem, lock_idx, other_core, lock, unlock, fetch_modify, add_wrap, sub_wrap, fetch_add_4,
  fetch_sub_4, compare_exchange, load_8, store_8,
}

-- A core that may take the lock of a cell: it is free, and the interrupt mask is 0 or 1.
pub record Ready (core mem : ℕ) (m : Mem) : Type 0 where
  pub core_small : core < 2
  pub free : (c : ℕ) → m.bit (lock_idx mem) c ≡ false
  pub mask_small : m.primask core < 2

-- The memory with another value in a cell.
abbrev pub store : ℕ → ℕ → Mem → Mem
store mem value m = record m { cell = update m.cell mem value }

abbrev locked : ℕ → ℕ → Mem → Mem
locked core mem m = record m {
  bit = update m.bit (lock_idx mem) (update (m.bit (lock_idx mem)) core true);
  primask = update m.primask core 1;
}

lock-Ready :
    (core mem : ℕ) (m : Mem)
    → Ready core mem m
    → lock core mem m ≡ some (m.primask core, locked core mem m)
unfolding lock
lock-Ready core mem m w =
    let off : m.bit (lock_idx mem) (other_core core) ≡ false = w.free (other_core core) in
    let other : (core == other_core core) ≡ false = ground (arith, w.core_small) in
    rw (==_self (lock_idx mem), other, off) refl

same_memory : (m r : Mem) → r.bit ≡ m.bit → r.primask ≡ m.primask → r ≡ record m { cell = r.cell }
same_memory m r e f = ap₂ (λ b p. record { cell = r.cell; bit = b; primask = p }) e f

unlock-locked :
    (core mem value : ℕ) (m : Mem)
    → Ready core mem m
    → unlock core mem (m.primask core) (store mem value (locked core mem m)) ≡ store mem value m
unfolding unlock
unlock-locked core mem value m w =
    same_memory m _ (fun_ext (λ i. fun_ext (λ c. ground (arith, w.free c))))
      (fun_ext (λ c. ground arith))

unlock-unchanged :
    (core mem : ℕ) (m : Mem)
    → Ready core mem m
    → unlock core mem (m.primask core) (locked core mem m) ≡ m
unfolding unlock
unlock-unchanged core mem m w =
    same_memory m _ (fun_ext (λ i. fun_ext (λ c. ground (arith, w.free c))))
      (fun_ext (λ c. ground arith))

-- With the lock free, a core number below 2 and an interrupt mask of 0 or 1 that its variable can
-- hold, a read and write returns the old value and stores the new one, and nothing else changes.
pub fetch_modify-Ready :
    (width : ℕ) (f : ℕ → ℕ) (core mem : ℕ) (m : Mem)
    → m.primask core % 2 ^ width ≡ m.primask core
    → Ready core mem m
    → fetch_modify width f core mem m ≡ some (m.cell mem, store mem (f (m.cell mem)) m)
unfolding fetch_modify
fetch_modify-Ready width f core mem m mask w =
    rw (lock-Ready core mem m w, mask, unlock-locked core mem (f (m.cell mem)) m w) refl

-- While the other core's bit of the lock is set, a read and write of a cell does not complete.
pub fetch_modify-spins :
    (width : ℕ) (f : ℕ → ℕ) (core mem : ℕ) (m : Mem)
    → core < 2
    → m.bit (lock_idx mem) (other_core core) ≡ true
    → fetch_modify width f core mem m ≡ none
unfolding fetch_modify lock
fetch_modify-spins width f core mem m small held =
    let other : (core == other_core core) ≡ false = ground arith in
    rw (==_self (lock_idx mem), other, held) refl

store-Ready : (core mem value : ℕ) (m : Mem) → Ready core mem m → Ready core mem (store mem value m)
store-Ready core mem value m w = record {
  core_small = w.core_small;
  free = w.free;
  mask_small = w.mask_small;
}

mask_32 : {core mem : ℕ} {m : Mem} → Ready core mem m → m.primask core % 2 ^ 32 ≡ m.primask core
mask_32 w = ground (arith, w.mask_small)

store-store : (mem a b : ℕ) (m : Mem) → store mem b (store mem a m) ≡ store mem b m
store-store mem a b m = ap (λ c. record m { cell = c }) (fun_ext (λ j. ground arith))

store_self : (mem : ℕ) (m : Mem) → store mem (m.cell mem) m ≡ m
store_self mem m = ap (λ c. record m { cell = c }) (fun_ext (λ j. ground arith))

add_sub_wrap : (x v : ℕ) → x < 2 ^ 32 → v < 2 ^ 32 → ((x + v) % 2 ^ 32 + 2 ^ 32 - v) % 2 ^ 32 ≡ x
add_sub_wrap x v a b = omega arith

-- With the lock free, a core adds to a cell of 32 bits and subtracts the same again: the
-- subtraction returns the sum, wrapped, and the memory is as before.
pub fetch_sub_4-fetch_add_4 :
    (core mem val : ℕ) (m : Mem)
    → Ready core mem m
    → m.cell mem < 2 ^ 32
    → val < 2 ^ 32
    → let r : Mem = store mem ((m.cell mem + val) % 2 ^ 32) m in
      (fetch_add_4 core mem val m ≡ some (m.cell mem, r))
      × (fetch_sub_4 core mem val r ≡ some ((m.cell mem + val) % 2 ^ 32, m))
unfolding fetch_add_4 fetch_sub_4
fetch_sub_4-fetch_add_4 core mem val m w small vs =
    let r : Mem = store mem ((m.cell mem + val) % 2 ^ 32) m in
    let here : r.cell mem ≡ (m.cell mem + val) % 2 ^ 32 = ground arith in
    let back : store mem (sub_wrap 32 val (r.cell mem)) r ≡ m =
      rw
        (
          here,
          store-store mem ((m.cell mem + val) % 2 ^ 32)
              (sub_wrap 32 val ((m.cell mem + val) % 2 ^ 32)) m,
          add_sub_wrap (m.cell mem) val small vs,
        )
        (store_self mem m) in
    (
      fetch_modify-Ready 32 (add_wrap 32 val) core mem m (mask_32 w) w,
      (fetch_modify-Ready 32 (sub_wrap 32 val) core mem r (mask_32 w) (store-Ready core mem _ m w)
          ∙ ap₂ (λ a b. some (a, b)) here back),
    )

-- With the lock free, a compare-exchange stores the new value if the cell holds the expected one,
-- and else leaves the memory; it says what the cell held.
pub compare_exchange-Ready :
    (core mem expected desired : ℕ) (m : Mem)
    → Ready core mem m
    → compare_exchange core mem expected desired m
      ≡ some (
        m.cell mem == expected,
        m.cell mem,
        if m.cell mem == expected then store mem desired m else m,
      )
unfolding compare_exchange
compare_exchange-Ready core mem expected desired m w = elim (Bool-cases (m.cell mem == expected)) [
  | inl e ↦ rw (lock-Ready core mem m w, e, unlock-locked core mem desired m w) refl
  | inr e ↦
      rw (lock-Ready core mem m w, e)
        (ap (λ r. some (false, m.cell mem, r)) (unlock-unchanged core mem m w))
]

-- With the lock free, what a store of 64 bits leaves is read back modulo 2^32: the upper half is
-- lost.
pub load_8-store_8 :
    (core mem val : ℕ) (m : Mem)
    → Ready core mem m
    → (store_8 core mem val m ≡ some (store mem val m))
      × (load_8 core mem (store mem val m) ≡ some (val % 2 ^ 32, store mem val m))
unfolding store_8 load_8
load_8-store_8 core mem val m w =
    let here : (store mem val m).cell mem ≡ val = ground arith in
    (
      rw (fetch_modify-Ready 32 (λ old. val) core mem m (mask_32 w) w) refl,
      rw
          (fetch_modify-Ready 32 (λ old. old) core mem (store mem val m) (mask_32 w)
            (store-Ready core mem val m w))
          (ap₂ (λ a b. some (a % 2 ^ 32, b)) here (store_self mem (store mem val m))),
    )
