-- ===== src/Rtos/MessageQueue/Contents.antt =====
-- The messages that a queue holds, and what put and get do to them.
use pico_toolkit.Base.{
  ℕ, ◌%◌, ◌<◌, ◌≡◌, ◌≢◌, refl, true, false, ◌||◌, some, List, [], ◌∷◌, arith, ◌==◌, ltb, Bool-cases,
  inl, inr, mem, map, Distinct, update, update_self, update_ne, ap, ap₂, sym, subst, ◌∙◌,
}
use pico_toolkit.Rtos.{Status, ok}
use pico_toolkit.Rtos.Pool
use pico_toolkit.Rtos.Pool.{Pool}
use pico_toolkit.Rtos.Pool.Blocks.{Free, Chain-update, push-Free}
use pico_toolkit.Rtos.MessageQueue.{
  MessageQueue, Call, pool_call, guard, insert, post, put, Message, message_at, get,
}
use pico_toolkit.Rtos.MessageQueue.Order.{insert_message, Descends, insert_message-Descends}

-- The messages in the order in which they will be received.
abbrev pub contents : MessageQueue → List Message
contents q = map (message_at q) q.messages

-- The pool has the blocks `blocks` free; the messages are in other blocks of the pool, each in its own,
-- with priorities of 8 bits that descend.
pub record Valid (q : MessageQueue) (blocks : List ℕ) : Type 0 where
  pub free : Free q.pool blocks
  pub apart : (b : ℕ) → mem b q.messages ≡ true → mem b blocks ≡ false
  pub once : Distinct q.messages
  pub in_pool : (b : ℕ) → (mem b q.messages || mem b blocks) ≡ true → Pool.in_range b q.pool ≡ true
  pub real : (b : ℕ) → mem b q.messages ≡ true → b ≢ 0
  pub byte : (b : ℕ) → mem b q.messages ≡ true → q.pool.word b < 256
  pub descends : Descends (contents q)

pub mem-insert :
    (priority : ℕ → ℕ) (a b : ℕ) (xs : List ℕ)
    → mem a (insert priority b xs) ≡ ((a == b) || mem a xs)
unfolding insert
mem-insert priority a b [] = refl
mem-insert priority a b (x ∷ xs) = ground (arith, mem-insert priority a b xs)

insert-Distinct :
    (priority : ℕ → ℕ) (b : ℕ) (xs : List ℕ)
    → mem b xs ≡ false
    → Distinct xs
    → Distinct (insert priority b xs)
unfolding insert
insert-Distinct priority b [] n d = (refl, tt)
insert-Distinct priority b (x ∷ xs) n d =
    ground (arith, mem-insert priority x b xs, insert-Distinct priority b xs (ground arith) d.1)

-- Two queues with the same messages in some blocks.
map_same :
    (q r : MessageQueue) (xs : List ℕ)
    → ((x : ℕ) → mem x xs ≡ true → message_at r x ≡ message_at q x)
    → map (message_at r) xs ≡ map (message_at q) xs
map_same q r [] h = refl
map_same q r (x ∷ xs) h =
    ap₂ ◌∷◌ (h x (ground arith)) (map_same q r xs (λ y m. h y (ground (arith, m))))

insert-insert_message :
    (q r : MessageQueue) (b : ℕ) (xs : List ℕ)
    → ((x : ℕ) → mem x xs ≡ true → message_at r x ≡ message_at q x)
    → map (message_at r) (insert r.pool.word b xs)
      ≡ insert_message (message_at r b) (map (message_at q) xs)
unfolding insert insert_message
insert-insert_message q r b [] h = refl
insert-insert_message q r b (x ∷ xs) h =
    let here : message_at r x ≡ message_at q x = h x (ground arith) in
    let same : r.pool.word x ≡ q.pool.word x = ap Message.priority here in
    let rest : map (message_at r) xs ≡ map (message_at q) xs =
      map_same q r xs (λ y m. h y (ground (arith, m))) in
    let later : map (message_at r) (insert r.pool.word b xs)
        ≡ insert_message (message_at r b) (map (message_at q) xs) =
      insert-insert_message q r b xs (λ y m. h y (ground (arith, m))) in
    elim (Bool-cases (ltb (r.pool.word x) (r.pool.word b))) [
      | inl e ↦
          let e' : ltb (q.pool.word x) (r.pool.word b) ≡ true = (rw (← same) e) in
          rw (e, e') (ap₂ (λ y ys. message_at r b ∷ y ∷ ys) here rest)
      | inr e ↦
          let e' : ltb (q.pool.word x) (r.pool.word b) ≡ false = (rw (← same) e) in
          rw (e, e') (ap₂ ◌∷◌ here later)
    ]

-- The queue after a message has been put into the first free block.
abbrev posted : ℕ → ℕ → List ℕ → MessageQueue → MessageQueue
posted b priority bytes q =
    post b priority bytes (record q { pool = record q.pool { free_list = q.pool.word b } })

module _ (q : MessageQueue) (b : ℕ) (blocks : List ℕ) (priority : ℕ) (bytes : List ℕ)
    (v : Valid q (b ∷ blocks)) where
  others_same :
      (x : ℕ) → mem x q.messages ≡ true → message_at (posted b priority bytes q) x ≡ message_at q x
  unfolding post
  others_same x m =
      let ne : b ≢ x = λ e. ground (arith, v.apart x m, e) in
      ap₂ (λ (p : ℕ) (ys : List ℕ). record { priority = p; bytes = ys })
        (update_ne q.pool.word b x priority ne) (update_ne q.payload b x bytes ne)

  posted-contents :
      contents (posted b priority bytes q)
      ≡ insert_message (record { priority = priority; bytes = bytes }) (contents q)
  unfolding post
  posted-contents =
      insert-insert_message q (posted b priority bytes q) b q.messages others_same
      ∙ ap₂
          (λ (p : ℕ) (ys : List ℕ).
            insert_message (record { priority = p; bytes = ys }) (contents q))
          (update_self q.pool.word b priority) (update_self q.payload b bytes)

  posted-Valid : priority < 256 → Valid (posted b priority bytes q) blocks
  unfolding post Pool.in_range
  posted-Valid small =
      let word : ℕ → ℕ = update q.pool.word b priority in
      let new : mem b blocks ≡ false = v.free.once.0 in
      let has : (x : ℕ) → mem x (insert word b q.messages) ≡ ((x == b) || mem x q.messages) =
        λ x. mem-insert word x b q.messages in
      record {
        free = record {
          chain = Chain-update q.pool.word (q.pool.word b) b priority blocks new v.free.chain.2;
          once = v.free.once.1;
        };
        apart = λ x m. ground (arith, has x, v.apart x, new, m);
        once = insert-Distinct word b q.messages (ground (arith, v.apart b)) v.once;
        in_pool = λ x m. v.in_pool x (ground (arith, has x, m));
        real = λ x m e. ground (arith, has x, m, v.real x, v.free.chain.1, e);
        byte = λ x m. ground (arith, has x, m, v.byte x, small);
        descends = subst Descends (sym posted-contents) (
            insert_message-Descends (record { priority = priority; bytes = bytes }) (contents q)
              v.descends);
      }

put-posted :
    (returned : Status) (unlink : ℕ → Pool → Pool) (call : Call) (timeout : ℕ) (bytes : List ℕ)
    (priority : ℕ) (q : MessageQueue) (b : ℕ)
    → guard true timeout call q ≡ ok
    → Pool.guard timeout (pool_call call) q.pool ≡ ok
    → call.block ≡ ok
    → call.token ≡ ok
    → q.pool.free_list ≡ b
    → put returned unlink call timeout (some bytes) priority q ≡ (ok, posted b priority bytes q)
unfolding put Pool.alloc post
put-posted returned unlink call timeout bytes priority q b g pg block token first =
    rw (g, block, pg, token, first)

-- With valid calls and tokens, a put into a valid queue whose pool has a free block succeeds: the
-- message comes before the first of lower priority, and the queue stays valid, with the block used.
pub put-Valid :
    (returned : Status) (unlink : ℕ → Pool → Pool) (call : Call) (timeout : ℕ) (bytes : List ℕ)
    (priority : ℕ) (q : MessageQueue) (b : ℕ) (blocks : List ℕ)
    → guard true timeout call q ≡ ok
    → Pool.guard timeout (pool_call call) q.pool ≡ ok
    → call.block ≡ ok
    → call.token ≡ ok
    → priority < 256
    → Valid q (b ∷ blocks)
    → let r : Status × MessageQueue = put returned unlink call timeout (some bytes) priority q in
      (r.0 ≡ ok)
      × (contents r.1 ≡ insert_message (record { priority = priority; bytes = bytes }) (contents q))
      × Valid r.1 blocks
put-Valid returned unlink call timeout bytes priority q b blocks g pg block token small v =
    let done : put returned unlink call timeout (some bytes) priority q
        ≡ (ok, posted b priority bytes q) =
      put-posted returned unlink call timeout bytes priority q b g pg block token v.free.chain.0 in
    rw done (
      refl,
      posted-contents q b blocks priority bytes v,
      posted-Valid q b blocks priority bytes v small,
    )

-- The queue after its first message has gone back to the pool.
abbrev taken : ℕ → List ℕ → MessageQueue → MessageQueue
taken b bs q = record q { messages = bs; pool = Pool.push b q.pool }

module _ (q : MessageQueue) (b : ℕ) (bs blocks : List ℕ) (first : q.messages ≡ b ∷ bs)
    (v : Valid q blocks) where
  has_first : (x : ℕ) → mem x q.messages ≡ ((x == b) || mem x bs)
  has_first x = ap (mem x) first

  apart_first : mem b bs ≡ false
  apart_first = (subst Distinct first v.once).0

  left_same : (x : ℕ) → mem x bs ≡ true → message_at (taken b bs q) x ≡ message_at q x
  left_same x m =
      let ne : b ≢ x = λ e. ground (arith, apart_first, m, e) in
      ap (λ (p : ℕ). record (message_at q x) { priority = p })
        (update_ne q.pool.word b x q.pool.free_list ne)

  taken-contents : contents (taken b bs q) ≡ map (message_at q) bs
  taken-contents = map_same q (taken b bs q) bs left_same

  taken-Valid : Valid (taken b bs q) (b ∷ blocks)
  unfolding Pool.in_range
  taken-Valid = record {
    free =
        push-Free b (v.real b (ground (arith, has_first b)))
          (v.apart b (ground (arith, has_first b))) v.free;
    apart = λ x m. ground (arith, has_first x, v.apart x, apart_first, m);
    once = (subst Distinct first v.once).1;
    in_pool = λ x m. v.in_pool x (ground (arith, has_first x, m));
    real = λ x m. v.real x (ground (arith, has_first x, m));
    byte = λ x m. ground (arith, has_first x, v.byte x, apart_first, m);
    descends =
        subst Descends (sym taken-contents)
          (subst (λ ms. Descends (map (message_at q) ms)) first v.descends).1;
  }

  -- With valid calls and tokens, a get from a valid queue that is not empty succeeds: it returns the
  -- first message, the others stay in their order, and the queue stays valid, with the block free.
  pub get-Valid :
      (unlink : ℕ → Pool → Pool) (call : Call) (timeout : ℕ)
      → guard true timeout call q ≡ ok
      → Pool.guard 0 (pool_call call) q.pool ≡ ok
      → call.block ≡ ok
      → call.token ≡ ok
      → (q' : MessageQueue) × (get unlink call timeout q ≡ (ok, some (message_at q b), q'))
        × (contents q' ≡ map (message_at q) bs)
        × Valid q' (b ∷ blocks)
  unfolding get Pool.free
  get-Valid unlink call timeout g pg block token =
      let range : Pool.in_range b q.pool ≡ true = v.in_pool b (ground (arith, has_first b)) in
      let small : q.pool.word b % 256 ≡ q.pool.word b =
        omega (arith, v.byte b (ground (arith, has_first b))) in
      (taken b bs q, rw (g, token, first, pg, block, range, small), taken-contents, taken-Valid)
