-- ===== src/Fault/Unwind/Total.antt =====
-- The interpreter of unwind instructions ends: each turn of its loop reads a byte.
use pico_toolkit.Base.{
  ℕ, zero, suc, ◌+◌, ◌*◌, ◌/◌, ◌%◌, ◌^◌, ◌≤◌, ◌<◌, ◌≡◌, refl, Bool, true, false, not, ◌&&◌, ◌||◌,
  Option, none, some, arith, ◌==◌, if◌then◌else◌, Bool-cases, inl, inr,
}
use native.Mathlib.Nat.{le_refl}
use pico_toolkit.Fault.{Memory}
use pico_toolkit.Fault.Unwind.{
  Frame, Ucb, Registers, init, Outcome, goes_on, finished, refused, overrun, next_byte, refill,
  masked, pop_high, pop_low, finish, pop_argument, far_sp, skip_doubles, skip_doubles_from_8,
  execute_one, after, execute, uint32_max,
}

-- A turn that goes on leaves at most `n` bytes.
data Within (n : ℕ) : Outcome → Type 0 where
  within : {u : Ucb} → u.remaining ≤ n → Within n (goes_on u)
  at_end : {u : Ucb} → Within n (finished u)
  at_refusal : Within n refused
  at_overrun : Within n overrun

Within-if :
    {n : ℕ} (b : Bool) {o p : Outcome} → Within n o → Within n p → Within n (if b then o else p)
Within-if true g h = g
Within-if false g h = h

refill-Within :
    {n : ℕ} (u : Ucb) (r : Option (ℕ × Registers)) → u.remaining ≤ n → Within n (refill u r)
refill-Within u none h = at_overrun
refill-Within u (some (vsp, vrs)) h = within h

module _ (word : Memory) where
  next_byte-remaining : (u : Ucb) → (next_byte word u).1.remaining ≤ u.remaining
  unfolding next_byte
  next_byte-remaining u = ground arith

  next_byte-lt :
      (u : Ucb)
      → ((next_byte word u).0 == uint32_max) ≡ false
      → (next_byte word u).1.remaining < u.remaining
  unfolding next_byte
  next_byte-lt u h = ground arith

  masked-Within :
      {n : ℕ} (reg mask : ℕ) (u : Ucb) → u.remaining ≤ n → Within n (masked word reg mask u)
  unfolding masked
  masked-Within reg mask u h = refill-Within u _ h

  pop_high-Within : (i : ℕ) (u : Ucb) → Within u.remaining (pop_high word i u)
  unfolding pop_high
  pop_high-Within i u =
      let byte : ℕ = (next_byte word u).0 in
      let instruction : ℕ = if byte == uint32_max then uint32_max else i * 256 + byte in
      Within-if (instruction == 0x8000) at_end
        (masked-Within 4 (instruction % 2 ^ 12) (next_byte word u).1 (next_byte-remaining u))

  pop_low-Within : (i : ℕ) (u : Ucb) → Within u.remaining (pop_low word i u)
  unfolding pop_low
  pop_low-Within i u = Within-if (i / 8 % 2 == 0) (within (le_refl _)) (within (le_refl _))

  finish-Within : (u : Ucb) → Within u.remaining (finish u)
  unfolding finish
  finish-Within u = Within-if (u.vrs 15 == 0) at_end at_end

  pop_argument-Within : (u : Ucb) → Within u.remaining (pop_argument word u)
  unfolding pop_argument
  pop_argument-Within u =
      masked-Within 0 (next_byte word u).0 (next_byte word u).1 (next_byte-remaining u)

  far_sp-Within : (u : Ucb) → Within u.remaining (far_sp word u)
  unfolding far_sp
  far_sp-Within u = within (next_byte-remaining u)

  skip_doubles-Within : (i : ℕ) (u : Ucb) → Within u.remaining (skip_doubles word i u)
  unfolding skip_doubles
  skip_doubles-Within i u = within (next_byte-remaining u)

  skip_doubles_from_8-Within : (i : ℕ) (u : Ucb) → Within u.remaining (skip_doubles_from_8 i u)
  unfolding skip_doubles_from_8
  skip_doubles_from_8-Within i u = within (le_refl _)

  execute_one-Within : (i : ℕ) (u : Ucb) → Within u.remaining (execute_one word i u)
  unfolding execute_one
  execute_one-Within i u =
      let kept : u.remaining ≤ u.remaining = le_refl _ in
      Within-if (i / 64 == 0) (within kept) (
        Within-if (i / 64 == 1) (within kept) (
          Within-if (i / 16 == 0x8) (pop_high-Within i u) (
            Within-if ((i / 16 == 0x9) && not (i == 0x9d) && not (i == 0x9f)) (within kept) (
              Within-if (i / 16 == 0xa) (pop_low-Within i u) (
                Within-if (i == 0xb0) (finish-Within u) (
                  Within-if (i == 0xb1) (pop_argument-Within u) (
                    Within-if (i == 0xb2) (far_sp-Within u) (
                      Within-if ((i == 0xb3) || (i == 0xc8) || (i == 0xc9))
                        (skip_doubles-Within i u)
                        (Within-if ((i / 8 == 0x17) || (i / 8 == 0x1a))
                          (skip_doubles_from_8-Within i u) at_refusal)))))))))

  after-returns :
      (fuel : ℕ)
      → ((u : Ucb) → u.remaining < fuel → (p : Outcome) × (execute word fuel u ≡ some p))
      → {m : ℕ} {o : Outcome} → m < fuel
      → Within m o
      → (p : Outcome) × (after (execute word fuel) o ≡ some p)
  after-returns fuel returns h (within {u} w) = returns u (omega arith)
  after-returns fuel returns h (at_end {u}) = (finished u, refl)
  after-returns fuel returns h at_refusal = (refused, refl)
  after-returns fuel returns h at_overrun = (overrun, refl)

  execute-returns :
      (fuel : ℕ) (u : Ucb) → u.remaining < fuel → (o : Outcome) × (execute word fuel u ≡ some o)
  unfolding execute
  execute-returns zero u h = absurd (omega arith)
  execute-returns (suc fuel) u h = elim (Bool-cases ((next_byte word u).0 == uint32_max)) [
    | inl stop ↦ (finished (next_byte word u).1, rw stop)
    | inr more ↦ rw more (
        after-returns fuel (execute-returns fuel) (omega (arith, next_byte-lt u more))
          (execute_one-Within (next_byte word u).0 (next_byte word u).1))
  ]

  init-remaining :
      (instructions : ℕ) (f : Frame) {u : Ucb}
      → init word instructions f ≡ some u
      → u.remaining < 1023
  unfolding init
  init-remaining instructions f e = ground arith

pub execute-total :
    (word : Memory) (instructions : ℕ) (f : Frame) (fuel : ℕ) {u : Ucb}
    → 1023 ≤ fuel
    → init word instructions f ≡ some u
    → (o : Outcome) × (execute word fuel u ≡ some o)
execute-total word instructions f fuel {u} h e =
    execute-returns word fuel u (omega (arith, init-remaining word instructions f e))
