-- ===== src/Rtos/Pool/Tests.antt =====
-- The theorems on pools at work on one of three blocks.
use pico_toolkit.Base.{◌≡◌, refl, true, false, some, [], ◌∷◌, arith, ◌==◌, if◌then◌else◌}
use pico_toolkit.Rtos.{ok, context_is_valid, is_resource_valid}
use pico_toolkit.Rtos.Pool.{Pool, Call, push, link_blocks, guard, alloc, free, in_range}
use pico_toolkit.Rtos.Pool.Blocks.{Free, link_blocks-Free, alloc-free}

abbrev raw : Pool
raw = record {
  marker = 0x42033024;
  block_size = 8;
  capacity = 3;
  pool_data = 1000;
  free_list = 0;
  word = λ a. 0;
}

link_blocks-Free_example : Free (link_blocks 3 raw) (1016 ∷ 1008 ∷ 1000 ∷ [])
link_blocks-Free_example = link_blocks-Free 3 raw (omega arith) (omega arith) (omega arith)

-- The block at 1008 is in use.
abbrev two_free : Pool
two_free = record raw { free_list = 1016; word = λ a. if a == 1016 then 1000 else 0 }

two_free-Free : Free two_free (1016 ∷ 1000 ∷ [])
two_free-Free = record {
  chain = (refl, (λ e. omega (arith, e)), (refl, (λ e. omega (arith, e)), refl));
  once = ground arith;
}

abbrev in_thread : Call
in_thread = record { context = record { ipsr = 0; is_realtime = false }; mp_id = 100 }

frees : guard 0 in_thread two_free ≡ ok
unfolding guard context_is_valid is_resource_valid
frees = refl

allocates : guard 5 in_thread (push 1008 two_free) ≡ ok
unfolding guard context_is_valid is_resource_valid
allocates = refl

inside : in_range 1008 two_free ≡ true
unfolding in_range
inside = refl

alloc-free_example :
    ((free ok (λ b p. p) in_thread 1008 two_free).0 ≡ ok)
    × Free (free ok (λ b p. p) in_thread 1008 two_free).1 (1008 ∷ 1016 ∷ 1000 ∷ [])
    × ((alloc ok 5 in_thread (free ok (λ b p. p) in_thread 1008 two_free).1).0 ≡ some 1008)
alloc-free_example =
    alloc-free (λ b p. p) 1008 5 in_thread frees allocates inside (λ e. omega (arith, e)) refl
      two_free-Free
