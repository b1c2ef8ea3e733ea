-- ===== src/Base/Bits/Single.antt =====
-- The single bits of a word, and the tests by a mask in terms of them.
use Prim.Native.Nat.{ℕ, zero, suc, ◌+◌, ◌*◌, ◌/◌, ◌%◌, ◌≤◌, min, bit_and, digits, bit_and-bitwise}
use mathlib.Core.Path.{◌≡◌, refl, sym, ap, ◌∙◌}
use mathlib.Core.Logic.{◌≢◌, ◌⊎◌, inl, inr}
use mathlib.Core.Bool.{Bool, true, false, ◌&&◌}
use native.Mathlib.Omega.{arith}
use pico_toolkit.Base.Tests.{◌==◌}
use pico_toolkit.Base.Bits.{has_any, has_all}

-- Bit `i` is set.
abbrev pub bit : ℕ → ℕ → Bool
bit x zero = x % 2 == 1
bit x (suc i) = bit (x / 2) i

-- The operation on the digits, for which the native one stands.
abbrev and_on : ℕ → ℕ → ℕ → ℕ
and_on n a b = digits (λ d. zero) min n a b

and_on-enough : (n m a b : ℕ) → a ≤ n → a ≤ m → and_on n a b ≡ and_on m a b
and_on-enough zero zero a b p q = refl
and_on-enough zero (suc m) zero b p q = refl
and_on-enough zero (suc m) (suc a) b p q = absurd (omega arith)
and_on-enough (suc n) zero zero b p q = refl
and_on-enough (suc n) zero (suc a) b p q = absurd (omega arith)
and_on-enough (suc n) (suc m) zero b p q = refl
and_on-enough (suc n) (suc m) (suc a) b p q =
    omega (arith, and_on-enough n m (suc a / 2) (b / 2) (omega arith) (omega arith))

bit_and-none : (b : ℕ) → bit_and 0 b ≡ 0
bit_and-none b = bit_and-bitwise 0 b

bit_and-low : (a b : ℕ) → bit_and a b ≡ bit_and (a / 2) (b / 2) * 2 + min (a % 2) (b % 2)
bit_and-low zero b = omega (arith, bit_and-none b, bit_and-none (b / 2))
bit_and-low (suc a) b = omega (
  arith,
  bit_and-bitwise (suc a) b,
  bit_and-bitwise (suc a / 2) (b / 2),
  and_on-enough a (suc a / 2) (suc a / 2) (b / 2) (omega arith) (omega arith),
)

bit_and-half : (a b : ℕ) → bit_and a b / 2 ≡ bit_and (a / 2) (b / 2)
bit_and-half a b = omega (arith, bit_and-low a b)

bit_and-odd : (a b : ℕ) → bit_and a b % 2 ≡ min (a % 2) (b % 2)
bit_and-odd a b = omega (arith, bit_and-low a b)

low_bits : (x y z : ℕ) → z ≡ min (x % 2) (y % 2) → (z == 1) ≡ (x % 2 == 1) && (y % 2 == 1)
low_bits x y z e = ground (arith, e)

pub bit-bit_and : (a b i : ℕ) → bit (bit_and a b) i ≡ bit a i && bit b i
bit-bit_and a b zero = low_bits a b (bit_and a b % 2) (bit_and-odd a b)
bit-bit_and a b (suc i) = ap (λ x. bit x i) (bit_and-half a b) ∙ bit-bit_and (a / 2) (b / 2) i

-- A number that is not 0 has a bit.
some_bit : (n x : ℕ) → x ≤ n → x ≢ 0 → (i : ℕ) × (bit x i ≡ true)
some_bit zero x l ne = absurd (ne (omega arith))
some_bit (suc n) x l ne = elim (odd_or_half x) [
  | inl odd ↦ (0, odd)
  | inr even ↦
      let (i, h) = some_bit n (x / 2) (omega arith) (λ e. ne (omega (arith, even, e))) in (suc i, h)
]
  where
    odd_or_half : (y : ℕ) → ((y % 2 == 1) ≡ true) ⊎ (y % 2 ≡ 0)
    odd_or_half y = ground arith

both : (a b : Bool) → a && b ≡ true → (a ≡ true) × (b ≡ true)
both true b h = (refl, h)
both false b h = ground (arith, h)

-- All flags of a mask are set, and one is.
abbrev pub AllSet : ℕ → ℕ → Type 0
AllSet flags mask = (i : ℕ) → bit mask i ≡ true → bit flags i ≡ true

abbrev pub AnySet : ℕ → ℕ → Type 0
AnySet flags mask = (i : ℕ) × ((bit mask i ≡ true) × (bit flags i ≡ true))

pub has_all-AllSet : (flags mask : ℕ) → has_all flags mask ≡ true → AllSet flags mask
unfolding has_all
has_all-AllSet flags mask h i m =
    let same : bit_and flags mask ≡ mask = ground (arith, h) in
    (both (bit flags i) (bit mask i)
      (sym (bit-bit_and flags mask i) ∙ ap (λ x. bit x i) same ∙ m)).0

pub has_any-AnySet : (flags mask : ℕ) → has_any flags mask ≡ true → AnySet flags mask
unfolding has_any
has_any-AnySet flags mask h =
    let ne : bit_and flags mask ≢ 0 = λ e. ground (arith, h, e) in
    let (i, set) = some_bit (bit_and flags mask) (bit_and flags mask) (omega arith) ne in
    let (f, m) = both (bit flags i) (bit mask i) (sym (bit-bit_and flags mask i) ∙ set) in
    (i, (m, f))
