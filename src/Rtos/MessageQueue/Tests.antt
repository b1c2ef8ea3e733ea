-- ===== src/Rtos/MessageQueue/Tests.antt =====
-- A queue with one message of priority 5 in the block at 100, and the block at 116 free.
use pico_toolkit.Base.{◌≡◌, refl, true, false, some, [], ◌∷◌, arith, ◌==◌, if◌then◌else◌}
use pico_toolkit.Rtos.{Status, ok, context_is_valid, is_resource_valid}
use pico_toolkit.Rtos.Pool
use pico_toolkit.Rtos.Pool.{Pool}
use pico_toolkit.Rtos.MessageQueue.{
  MessageQueue, Call, pool_call, guard, put, Message, message_at, get,
}
use pico_toolkit.Rtos.MessageQueue.Order.{insert_message}
use pico_toolkit.Rtos.MessageQueue.Contents.{contents, Valid, put-Valid, get-Valid}

abbrev pool : Pool
pool = record {
  marker = 0x42033024;
  block_size = 16;
  capacity = 2;
  pool_data = 100;
  free_list = 116;
  word = λ a. if a == 100 then 5 else 0;
}

abbrev queue : MessageQueue
queue = record {
  marker = 0x42077024;
  msg_size = 4;
  msg_count = 2;
  messages = 100 ∷ [];
  pool = pool;
  payload = λ a. 1 ∷ 2 ∷ [];
}

abbrev here : Call
here = record {
  context = record { ipsr = 0; is_realtime = false };
  mq_id = 40;
  pool_id = 60;
  block = ok;
  token = ok;
}

queue-Valid : Valid queue (116 ∷ [])
unfolding Pool.in_range
queue-Valid = record {
  free = record { chain = (refl, (λ e. omega (arith, e)), refl); once = (refl, tt) };
  apart = λ b m. ground (arith, m);
  once = (refl, tt);
  in_pool = λ b m. ground (arith, m);
  real = λ b m e. ground (arith, m, e);
  byte = λ b m. ground (arith, m);
  descends = (tt, tt);
}

passes : guard true 0 here queue ≡ ok
unfolding guard context_is_valid is_resource_valid
passes = refl

pool_passes : Pool.guard 0 (pool_call here) pool ≡ ok
unfolding Pool.guard context_is_valid is_resource_valid
pool_passes = refl

put-Valid_example :
    let r : Status × MessageQueue = put ok (λ b p. p) here 0 (some (7 ∷ 8 ∷ [])) 9 queue in
    (r.0 ≡ ok)
    × (contents r.1 ≡ insert_message (record { priority = 9; bytes = 7 ∷ 8 ∷ [] }) (contents queue))
    × Valid r.1 []
put-Valid_example =
    put-Valid ok (λ b p. p) here 0 (7 ∷ 8 ∷ []) 9 queue 116 [] passes pool_passes refl refl
      (omega arith) queue-Valid

get-Valid_example :
    (q' : MessageQueue) × (get (λ b p. p) here 0 queue ≡ (ok, some (message_at queue 100), q'))
    × (contents q' ≡ [])
    × Valid q' (100 ∷ 116 ∷ [])
get-Valid_example =
    get-Valid queue 100 [] (116 ∷ []) refl queue-Valid (λ b p. p) here 0 passes pool_passes refl
      refl

abbrev urgent : Message
urgent = record { priority = 5; bytes = [] }
