-- ===== src/Rtos/Pool/Blocks.antt =====
-- The free list of a pool: which blocks it links.
use pico_toolkit.Base.{
  ◌⊎◌, inl, inr, Bool-cases, subst, ℕ, zero, suc, ◌+◌, ◌*◌, ◌^◌, ◌≤◌, ◌<◌, ◌≡◌, ◌≢◌, refl, sym, ap,
  true, false, some, List, [], ◌∷◌, arith, update, mem, Distinct,
}
use pico_toolkit.Rtos.{ok}
use pico_toolkit.Rtos.Pool.{Pool, Call, push, block_at, link_blocks, guard, alloc, free, in_range}

-- From an address through the blocks to the null pointer.
abbrev pub Chain : (ℕ → ℕ) → ℕ → List ℕ → Type 0
Chain word p [] = p ≡ 0
Chain word p (x ∷ xs) = (p ≡ x) × (x ≢ 0) × Chain word (word x) xs

-- The free list of the pool links these blocks, each once.
pub record Free (p : Pool) (blocks : List ℕ) : Type 0 where
  pub chain : Chain p.word p.free_list blocks
  pub once : Distinct blocks

pub Chain-update :
    (word : ℕ → ℕ) (p b v : ℕ) (xs : List ℕ)
    → mem b xs ≡ false
    → Chain word p xs
    → Chain (update word b v) p xs
Chain-update word p b v [] n c = c
Chain-update word p b v (x ∷ xs) n (e, nz, c) =
    let same : update word b v x ≡ word x = ground arith in
    (e, nz, rw same (Chain-update word (word x) b v xs (ground arith) c))

-- A block that is freed is the first free one.
pub push-Free :
    {p : Pool} {blocks : List ℕ} (block : ℕ)
    → block ≢ 0
    → mem block blocks ≡ false
    → Free p blocks
    → Free (push block p) (block ∷ blocks)
push-Free {p} {blocks} block nz new f =
    let here : update p.word block p.free_list block ≡ p.free_list = ground arith in
    record {
      chain = (
        refl,
        nz,
        rw here (Chain-update p.word p.free_list block p.free_list blocks new f.chain),
      );
      once = (new, f.once);
    }

-- The blocks of a pool, the last first.
abbrev pub blocks_of : Pool → ℕ → List ℕ
blocks_of p zero = []
blocks_of p (suc i) = (p.pool_data + i * p.block_size) ∷ blocks_of p i

blocks-below :
    (p : Pool) (n x : ℕ)
    → 0 < p.block_size
    → mem x (blocks_of p n) ≡ true
    → x < p.pool_data + n * p.block_size
blocks-below p zero x pos m = absurd (ground (arith, m))
blocks-below p (suc n) x pos m = ground (arith, blocks-below p n x pos)

link_blocks-same :
    (n : ℕ) (p : Pool)
    → ((link_blocks n p).pool_data ≡ p.pool_data) × ((link_blocks n p).block_size ≡ p.block_size)
unfolding link_blocks
link_blocks-same zero p = (refl, refl)
link_blocks-same (suc n) p = link_blocks-same n p

-- Without a wrap-around the blocks are where they look to be.
block_at-small :
    (p : Pool) (n i : ℕ)
    → p.pool_data + n * p.block_size ≤ 2 ^ 32
    → 0 < p.block_size
    → i < n
    → block_at p i ≡ p.pool_data + i * p.block_size
block_at-small p n i fits pos l =
    let below : i * p.block_size + p.block_size ≤ n * p.block_size = grind arith in
    ground (arith, below)

-- A new pool of blocks that are not empty, in memory that is not null and lies below 2^32 to its end,
-- has all its blocks free, each once.
pub link_blocks-Free :
    (n : ℕ) (p : Pool)
    → 0 < p.pool_data
    → 0 < p.block_size
    → p.pool_data + n * p.block_size ≤ 2 ^ 32
    → Free (link_blocks n p) (blocks_of p n)
unfolding link_blocks
link_blocks-Free zero p a b fits = record { chain = refl; once = tt }
link_blocks-Free (suc n) p a b fits = rw (block_at-small p (suc n) n fits b (omega arith)) (
    push-Free _ (λ e. omega (arith, e, a)) (fresh (Bool-cases _))
      (link_blocks-Free n p a b (omega (arith, fits))))
  where
    last : ℕ
    last = p.pool_data + n * p.block_size

    fresh :
        (mem last (blocks_of p n) ≡ true) ⊎ (mem last (blocks_of p n) ≡ false)
        → mem last (blocks_of p n) ≡ false
    fresh (inl m) = absurd (omega (arith, blocks-below p n last b m))
    fresh (inr m) = m

-- An alloc with a token takes the first free block.
pub alloc-Free :
    {p : Pool} {blocks : List ℕ} (block timeout : ℕ) (call : Call)
    → guard timeout call p ≡ ok
    → Free p (block ∷ blocks)
    → ((alloc ok timeout call p).0 ≡ some block) × Free (alloc ok timeout call p).1 blocks
unfolding alloc
alloc-Free {p} {blocks} block timeout call passes f = rw passes (
  ap some f.chain.0,
  record {
    chain = subst (λ x. Chain p.word (p.word x) blocks) (sym f.chain.0) f.chain.2;
    once = f.once.1;
  },
)

-- With valid calls and tokens, freeing a block in range that was not free adds it to the free blocks,
-- and the next alloc returns it.
pub alloc-free :
    {p : Pool} {blocks : List ℕ} (unlink : ℕ → Pool → Pool) (block timeout : ℕ) (call : Call)
    → guard 0 call p ≡ ok
    → guard timeout call (push block p) ≡ ok
    → in_range block p ≡ true
    → block ≢ 0
    → mem block blocks ≡ false
    → Free p blocks
    → ((free ok unlink call block p).0 ≡ ok)
      × Free (free ok unlink call block p).1 (block ∷ blocks)
      × ((alloc ok timeout call (free ok unlink call block p).1).0 ≡ some block)
unfolding free
alloc-free {p} {blocks} unlink block timeout call passes again range nz new f =
    let freed = push-Free block nz new f in
    rw (passes, range) (refl, freed, (alloc-Free block timeout call again freed).0)
