-- ===== src/Rtos/MessageQueue.antt =====
-- pico-cmsis-rtos2/cmsis-rtos2-message-queue.c: messages in blocks of a memory pool, by priority. The
-- first word of a block is the priority of its message while the block is in the queue, and the
-- link of the free list while it is not. What the semaphores answer is an argument.
pub mod Order
pub mod Contents
mod Tests
use pico_toolkit.Base.{
  ℕ, zero, suc, ◌+◌, ◌-◌, ◌*◌, ◌/◌, ◌%◌, Bool, true, false, not, ◌&&◌, ◌||◌, Option, none, some,
  List, [], ◌∷◌, ◌==◌, ltb, if◌then◌else◌, update, erase, map,
}
use pico_toolkit.Rtos.{
  Status, ok, error, error_timeout, error_resource, error_parameter, Context, context_is_valid,
  is_resource_valid, if_ok,
}
use pico_toolkit.Rtos.Pool
use pico_toolkit.Rtos.Pool.{Pool}

-- `struct rtos_message_queue`; `messages` are blocks of the pool, and `payload` what they hold behind
-- the priority.
pub record MessageQueue : Type 0 where
  pub marker : ℕ
  pub msg_size : ℕ
  pub msg_count : ℕ
  pub messages : List ℕ
  pub pool : Pool
  pub payload : ℕ → List ℕ

-- A call, and the answers of the semaphores on its way: of the pool (`block`) and of the queue.
pub record Call : Type 0 where
  pub context : Context
  pub mq_id : ℕ
  pub pool_id : ℕ
  pub block : Status
  pub token : Status

abbrev pub pool_call : Call → Pool.Call
pool_call call = record { context = call.context; mp_id = call.pool_id }

abbrev pub queue_marker : ℕ
queue_marker = 0x42077024

unfoldable pub guard : Bool → ℕ → Call → MessageQueue → Status
guard allowed timeout call q =
    if_ok (context_is_valid allowed timeout call.context) (λ s. s)
      (is_resource_valid call.mq_id q.marker queue_marker)

abbrev pub no_luck : ℕ → Status
no_luck timeout = if timeout == 0 then error_resource else error_timeout

-- The loop that looks for the place: before the first message of lower priority.
unfoldable pub insert : (ℕ → ℕ) → ℕ → List ℕ → List ℕ
insert priority b [] = b ∷ []
insert priority b (x ∷ xs) =
    let rest = insert priority b xs in
    if ltb (priority x) (priority b) then b ∷ x ∷ xs else x ∷ rest

-- `message->priority = …`, the copy of the message, and its insertion.
unfoldable pub post : ℕ → ℕ → List ℕ → MessageQueue → MessageQueue
unfolding insert
post b priority bytes q =
    let word = update q.pool.word b priority in
    record q {
      pool = record q.pool { word = word };
      payload = update q.payload b bytes;
      messages = insert word b q.messages;
    }

-- What frees a block of the pool; `unlink` is as in the pool.
abbrev pub give_back : Status → (ℕ → Pool → Pool) → Call → ℕ → MessageQueue → Status × MessageQueue
give_back returned unlink call b q =
    let (s, p) = Pool.free returned unlink (pool_call call) b q.pool in (s, record q { pool = p })

-- `osMessageQueuePut`; `returned` is the answer of the pool's semaphore if the block goes back.
abbrev place :
    Status
    → (ℕ → Pool → Pool)
    → Call
    → ℕ
    → ℕ
    → List ℕ
    → MessageQueue
    → Option ℕ
    → Pool
    → Status × MessageQueue
unfolding post
place returned unlink call timeout priority bytes q none p =
    (no_luck timeout, record q { pool = p })
place returned unlink call timeout priority bytes q (some b) p =
    let q1 = post b priority bytes (record q { pool = p }) in
    let q2 = record q1 { messages = erase b q1.messages } in
    if_ok call.token (λ s. (s, (give_back returned unlink call b q2).1)) (ok, q1)

unfoldable pub put :
    Status
    → (ℕ → Pool → Pool)
    → Call
    → ℕ
    → Option (List ℕ)
    → ℕ
    → MessageQueue
    → Status × MessageQueue
unfolding guard place
put returned unlink call timeout none priority q = (error_parameter, q)
put returned unlink call timeout (some bytes) priority q =
    let (block, p) = Pool.alloc call.block timeout (pool_call call) q.pool in
    if_ok (guard true timeout call q) (λ s. (s, q))
      (place returned unlink call timeout priority bytes q block p)

-- A received message.
pub record Message : Type 0 where
  pub priority : ℕ
  pub bytes : List ℕ

abbrev pub message_at : MessageQueue → ℕ → Message
message_at q b = record { priority = q.pool.word b; bytes = q.payload b }

-- `osMessageQueueGet`; `call.block` is the answer of the pool's semaphore to the free. The priority is
-- handed back on 8 bits.
abbrev take :
    (ℕ → Pool → Pool) → Call → MessageQueue → List ℕ → Status × Option Message × MessageQueue
take unlink call q [] = (error, none, q)
take unlink call q (b ∷ bs) =
    let m : Message = record { priority = q.pool.word b % 256; bytes = q.payload b } in
    let (s, q1) = give_back call.block unlink call b (record q { messages = bs }) in (s, some m, q1)

unfoldable pub get :
    (ℕ → Pool → Pool) → Call → ℕ → MessageQueue → Status × Option Message × MessageQueue
unfolding guard
get unlink call timeout q =
    if_ok (guard true timeout call q) (λ s. (s, none, q))
      (if_ok call.token (λ s. (no_luck timeout, none, q)) (take unlink call q q.messages))

-- The loop of `osMessageQueueReset`, for the count of tokens; every acquire finds its token.
abbrev after_take :
    Status × Option Message × MessageQueue
    → (MessageQueue → Status × MessageQueue)
    → Status × MessageQueue
after_take (s, m, q) next = if_ok s (λ e. (e, q)) (next q)

unfoldable pub reset_loop : (ℕ → Pool → Pool) → Call → ℕ → MessageQueue → Status × MessageQueue
reset_loop unlink call zero q = (ok, q)
reset_loop unlink call (suc tokens) q =
    let next = reset_loop unlink call tokens in after_take (take unlink call q q.messages) next

unfoldable pub reset : (ℕ → Pool → Pool) → Call → ℕ → MessageQueue → Status × MessageQueue
unfolding guard reset_loop
reset unlink call tokens q =
    if_ok (guard false 0 call q) (λ s. (s, q)) (reset_loop unlink call tokens q)

unfoldable pub get_capacity : Call → MessageQueue → ℕ
unfolding guard
get_capacity call q = if_ok (guard true 0 call q) (λ s. 0) q.msg_count

unfoldable pub get_msg_size : Call → MessageQueue → ℕ
unfolding guard
get_msg_size call q = if_ok (guard true 0 call q) (λ s. 0) q.msg_size
