-- ===== src/Rtos/Deque/Tests.antt =====
-- The theorems on deques at work on a deque of four positions, where a mask of three wraps.
use Prim.Native.Nat.{digits, min, bit_and-bitwise}
use pico_toolkit.Base.{
  ℕ, zero, suc, ◌/◌, ◌%◌, ◌≤◌, ◌≡◌, refl, ◌∙◌, false, some, [], ◌∷◌, arith, ◌==◌, if◌then◌else◌,
  has_any,
}
use pico_toolkit.Rtos.{ok, context_is_valid, is_resource_valid}
use pico_toolkit.Rtos.Deque.{
  Call, guard, deque_marker, Deque, modulo, deque_is_full, deque_is_empty, put_back, get_front,
  status, flags, reset_flag,
}
use pico_toolkit.Rtos.Deque.Contents.{Sound, contents, put_back-contents, get_front-contents}

mask_0 : (fuel a : ℕ) → digits (λ b. zero) min fuel a 0 ≡ 0
mask_0 zero a = refl
mask_0 (suc n) zero = refl
mask_0 (suc n) (suc a) = omega (arith, mask_0 n (suc a / 2))

mask_1 : (fuel a : ℕ) → a ≤ fuel → digits (λ b. zero) min fuel a 1 ≡ a % 2
mask_1 zero zero h = refl
mask_1 zero (suc a) h = absurd (omega arith)
mask_1 (suc n) zero h = refl
mask_1 (suc n) (suc a) h = omega (arith, mask_0 n (suc a / 2))

mask_3 : (fuel a : ℕ) → a ≤ fuel → digits (λ b. zero) min fuel a 3 ≡ a % 4
mask_3 zero zero h = refl
mask_3 zero (suc a) h = absurd (omega arith)
mask_3 (suc n) zero h = refl
mask_3 (suc n) (suc a) h = omega (arith, mask_1 n (suc a / 2) (omega arith))

modulo_4 : (x : ℕ) → modulo x 4 ≡ x % 4
unfolding modulo
modulo_4 x = bit_and-bitwise x 3 ∙ mask_3 x x (omega arith)

-- Two elements, 7 at position 3 and 8 at position 0.
abbrev two : Deque
two = record {
  marker = deque_marker;
  element_count = 4;
  front = 3;
  back = 1;
  buffer = λ p. if p == 3 then 7 else 8;
  events = 0;
  waiters = 0;
}

two-Sound : Sound two
unfolding modulo
two-Sound = record {
  front_small = omega arith;
  back_small = omega arith;
  count_small = omega arith;
  mask_small = λ x h. omega (arith, modulo_4 x);
  mask_top = refl;
}

abbrev in_thread : Call
in_thread = record {
  context = record { ipsr = 0; is_realtime = false };
  timeout = 5;
  dq_id = 100;
  kick = 3;
}

passes : guard in_thread two ≡ ok
unfolding guard context_is_valid is_resource_valid
passes = refl

calm : has_any two.events reset_flag ≡ false
unfolding has_any
calm = refl

room : deque_is_full two ≡ false
unfolding deque_is_full modulo
room = refl

some_data : deque_is_empty two ≡ false
unfolding deque_is_empty
some_data = refl

put_back-contents_example :
    (r : Deque) × (put_back (some 9) in_thread [] two
      ≡ some ((if has_any 3 0x80000000 then flags 3 else status ok), r))
    × (contents r ≡ 7 ∷ 8 ∷ 9 ∷ [])
    × Sound r
put_back-contents_example = put_back-contents 9 in_thread [] two-Sound passes calm room

get_front-contents_example :
    (x : ℕ) × (r : Deque) × (get_front false in_thread [] two
      ≡ some ((if has_any 3 0x80000000 then flags 3 else status ok), some x, r))
    × (7 ∷ 8 ∷ [] ≡ x ∷ contents r)
    × Sound r
get_front-contents_example = get_front-contents in_thread [] two-Sound passes calm some_data
