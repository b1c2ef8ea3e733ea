-- ===== src/Rtos/Pool.antt =====
-- pico-cmsis-rtos2/cmsis-rtos2-pool.c: the free list of blocks, in which the first word of each free
-- block points to the next, and alloc and free. The semaphore that counts the blocks answers with the
-- statuses that are given as arguments.
pub mod Blocks
mod Tests
use pico_toolkit.Base.{
  ℕ, zero, suc, ◌+◌, ◌*◌, ◌%◌, ◌^◌, Bool, true, false, not, ◌||◌, Option, none, some, ◌==◌, ltb,
  if◌then◌else◌, update,
}
use pico_toolkit.Rtos.{
  Status, ok, error_parameter, Context, context_is_valid, is_resource_valid, if_ok,
}

-- `struct rtos_memory_pool`; `word` is the first word of each block, and 0 the null pointer.
pub record Pool : Type 0 where
  pub marker : ℕ
  pub block_size : ℕ
  pub capacity : ℕ
  pub pool_data : ℕ
  pub free_list : ℕ
  pub word : ℕ → ℕ

abbrev pub push : ℕ → Pool → Pool
push block p = record p { word = update p.word block p.free_list; free_list = block }

-- `pool_data + (i * block_size)`, on 32 bits.
abbrev pub block_at : Pool → ℕ → ℕ
block_at p i = (p.pool_data + i * p.block_size % 2 ^ 32) % 2 ^ 32

-- The loop of `osMemoryPoolNew` over the first `count` blocks.
unfoldable pub link_blocks : ℕ → Pool → Pool
link_blocks zero p = record p { free_list = 0 }
link_blocks (suc i) p = let q = link_blocks i p in push (block_at p i) q

-- The critical section of `osMemoryPoolAlloc`.
unfoldable pub pop : Pool → ℕ × Pool
pop p = (p.free_list, record p { free_list = p.word p.free_list })

-- Where a call is made, and the identifier of the pool.
pub record Call : Type 0 where
  pub context : Context
  pub mp_id : ℕ

abbrev pool_marker : ℕ
pool_marker = 0x42033024

unfoldable pub guard : ℕ → Call → Pool → Status
guard timeout call p =
    if_ok (context_is_valid true timeout call.context) (λ s. s)
      (is_resource_valid call.mp_id p.marker pool_marker)

-- `token` is the status of the acquire.
unfoldable pub alloc : Status → ℕ → Call → Pool → Option ℕ × Pool
unfolding pop
alloc token timeout call p =
    let (block, q) = pop p in
    if_ok (guard timeout call p) (λ s. (none, p)) (if_ok token (λ s. (none, p)) (some block, q))

-- The end of the pool is let through.
unfoldable pub in_range : ℕ → Pool → Bool
in_range block p =
    let end = (p.pool_data + p.block_size * p.capacity % 2 ^ 32) % 2 ^ 32 in
    not (ltb block p.pool_data || ltb end block)

-- `token` is the status of the release. When it fails, the block, whose first two words the code takes
-- for a list node, is unlinked from its neighbours, which `unlink` stands for.
unfoldable pub free : Status → (ℕ → Pool → Pool) → Call → ℕ → Pool → Status × Pool
unfolding in_range
free token unlink call block p =
    let q = push block p in
    if_ok (guard 0 call p) (λ s. (s, p))
      (if in_range block p
        then if_ok token (λ s. (s, unlink block q)) (ok, q)
        else (error_parameter, p))

unfoldable pub is_block_valid : Call → ℕ → Pool → Option Status
unfolding in_range
is_block_valid call block p =
    if_ok (guard 0 call p) (λ s. none) (some (if in_range block p then ok else error_parameter))
