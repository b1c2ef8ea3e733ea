-- ===== src/Rtos/Deque.antt =====
-- pico-cmsis-rtos2/cmsis-rtos2-deque.c: the ring buffer of elements, its two ends, and the waits for
-- room and for data. An element is one value, and the buffer a function of the position.
pub mod Contents
mod Tests
use Prim.Native.Nat.{bit_and, bit_or}
use pico_toolkit.Base.{
  ℕ, zero, suc, ◌+◌, ◌-◌, ◌%◌, ◌^◌, Bool, true, false, not, ◌||◌, Option, none, some, List, [], ◌∷◌,
  ◌==◌, if◌then◌else◌, update, has_any,
}
use pico_toolkit.Rtos.{
  Status, ok, error_resource, error_parameter, Context, context_is_valid, is_resource_valid, if_ok,
}

-- `struct rtos_deque` at the address of its identifier; `events` is the word of its event flags.
pub record Deque : Type 0 where
  pub marker : ℕ
  pub element_count : ℕ
  pub front : ℕ
  pub back : ℕ
  pub buffer : ℕ → ℕ
  pub events : ℕ
  pub waiters : ℕ

-- On 32 bits, where `x - 1` of 0 is the largest value.
unfoldable pub modulo : ℕ → ℕ → ℕ
modulo x y = bit_and x ((y + 2 ^ 32 - 1) % 2 ^ 32)

unfoldable pub deque_inc : Deque → ℕ → ℕ
unfolding modulo
deque_inc d value = modulo ((value + 1) % 2 ^ 32) d.element_count

-- As it is written, with a plus.
unfoldable pub deque_dec : Deque → ℕ → ℕ
unfolding modulo
deque_dec d value = modulo ((value + 1) % 2 ^ 32) d.element_count

unfoldable pub deque_is_empty : Deque → Bool
deque_is_empty d = d.front == d.back

unfoldable pub deque_is_full : Deque → Bool
unfolding modulo
deque_is_full d = modulo ((d.back + 1) % 2 ^ 32) d.element_count == d.front

-- What the critical sections do, once there is room or data.
unfoldable pub place_front : ℕ → Deque → Deque
unfolding deque_dec
place_front element d =
    let front = deque_dec d ((d.front + 2 ^ 32 - 1) % 2 ^ 32) in
    record d { front = front; buffer = update d.buffer front element }

unfoldable pub place_back : ℕ → Deque → Deque
unfolding deque_inc
place_back element d = record d {
  buffer = update d.buffer d.back element;
  back = deque_inc d d.back;
}

unfoldable pub take_front : Deque → ℕ × Deque
unfolding deque_inc
take_front d = (d.buffer d.front, record d { front = deque_inc d d.front })

unfoldable pub take_back : Deque → ℕ × Deque
unfolding deque_dec
take_back d = let back = deque_dec d d.back in (d.buffer back, record d { back = back })

abbrev pub space_available : ℕ
space_available = 0x01

abbrev pub data_available : ℕ
data_available = 0x02

abbrev pub reset_flag : ℕ
reset_flag = 0x04

-- `osFlagsError`
abbrev pub flags_error : ℕ
flags_error = 0x80000000

-- A status, or flags with the error bit that are returned as one.
pub data Reply : Type 0 where
  status : Status → Reply
  flags : ℕ → Reply

-- One wait for an event: what other threads do to the deque meanwhile, and what the wait returns.
-- The flags are cleared after it, which returns them as they were.
pub record Wait : Type 0 where
  pub others : Deque → Deque
  pub result : ℕ

abbrev pub leaves : Deque → Deque
leaves d = record d { waiters = d.waiters - 1 }

abbrev pub clear_event : ℕ → Deque → Deque
clear_event flag d = record d { events = bit_and d.events (0xffffffff - flag) }

-- The loop of the four functions, for a test that keeps the thread waiting and an event: `none` while
-- it waits, else an error or the deque, locked.
unfoldable pub wait_while : (Deque → Bool) → ℕ → List Wait → Deque → Option (Option Reply × Deque)
wait_while blocked flag [] d = if blocked d then none else some (none, d)
wait_while blocked flag (w ∷ ws) d0 =
    let d1 = w.others d0 in
    let rest = wait_while blocked flag ws (clear_event flag d1) in
    if not (blocked d0)
    then some (none, d0)
    else if has_any w.result flags_error
    then some (some (flags w.result), leaves d1)
    else if has_any d1.events reset_flag
    then some (some (status error_resource), leaves (clear_event flag d1))
    else rest

abbrev pub set_event : ℕ → Deque → Deque
set_event flag d = record d { events = bit_or d.events flag }

-- The answer of a call, for what `osEventFlagsSet` returns at its end: an error of it is returned,
-- although the element has been placed or taken.
unfoldable pub answer_of : ℕ → Reply
answer_of kick = if has_any kick flags_error then flags kick else status ok

-- The result, the element for a get, and the deque.
unfoldable pub after_put :
    ℕ → (Deque → Deque) → Option (Option Reply × Deque) → Option (Reply × Deque)
unfolding answer_of
after_put kick place none = none
after_put kick place (some (some r, d)) = some (r, d)
after_put kick place (some (none, d)) =
    some (answer_of kick, set_event data_available (leaves (place d)))

unfoldable pub after_get :
    ℕ → (Deque → ℕ × Deque) → Option (Option Reply × Deque) → Option (Reply × Option ℕ × Deque)
unfolding answer_of
after_get kick take none = none
after_get kick take (some (some r, d)) = some (r, none, d)
after_get kick take (some (none, d)) =
    let (element, d1) = take d in
    some (answer_of kick, some element, set_event space_available (leaves d1))

abbrev pub enters : Deque → Deque
enters d = record d { waiters = d.waiters + 1 }

-- The event flags of a valid deque are read without an error.
abbrev put_with : ℕ → (Deque → Deque) → List Wait → Deque → Option (Reply × Deque)
unfolding wait_while after_put
put_with kick place ws d =
    let rest = after_put kick place (wait_while deque_is_full space_available ws (enters d)) in
    if has_any d.events reset_flag then some (status error_resource, d) else rest

abbrev get_with : ℕ → (Deque → ℕ × Deque) → List Wait → Deque → Option (Reply × Option ℕ × Deque)
unfolding wait_while after_get
get_with kick take ws d =
    let rest = after_get kick take (wait_while deque_is_empty data_available ws (enters d)) in
    if has_any d.events reset_flag then some (status error_resource, none, d) else rest

-- What a call passes besides the element: where it is made, the time-out, the identifier, and
-- what the `osEventFlagsSet` at its end returns.
pub record Call : Type 0 where
  pub context : Context
  pub timeout : ℕ
  pub dq_id : ℕ
  pub kick : ℕ

abbrev pub deque_marker : ℕ
deque_marker = 0x42088024

-- The guards of the four functions.
unfoldable pub guard : Call → Deque → Status
guard call d =
    let valid = is_resource_valid call.dq_id d.marker deque_marker in
    if_ok (context_is_valid true call.timeout call.context) (λ e. e) valid

abbrev put_guarded :
    Option ℕ → Status → (ℕ → Option (Reply × Deque)) → Deque → Option (Reply × Deque)
put_guarded none valid go d = some (status error_parameter, d)
put_guarded (some element) valid go d = if_ok valid (λ e. some (status e, d)) (go element)

-- A null element is `none`.
unfoldable pub put_front : Option ℕ → Call → List Wait → Deque → Option (Reply × Deque)
unfolding put_with place_front
put_front element call ws d =
    put_guarded element (guard call d) (λ x. put_with call.kick (place_front x) ws d) d

unfoldable pub put_back : Option ℕ → Call → List Wait → Deque → Option (Reply × Deque)
unfolding put_with place_back
put_back element call ws d =
    put_guarded element (guard call d) (λ x. put_with call.kick (place_back x) ws d) d

abbrev get_guarded :
    Bool → Status → Option (Reply × Option ℕ × Deque) → Deque → Option (Reply × Option ℕ × Deque)
get_guarded is_null valid go d =
    if is_null
    then some (status error_parameter, none, d)
    else if_ok valid (λ e. some (status e, none, d)) go

-- `is_null` says whether there is no place to put the element.
unfoldable pub get_front : Bool → Call → List Wait → Deque → Option (Reply × Option ℕ × Deque)
unfolding get_with take_front
get_front is_null call ws d =
    get_guarded is_null (guard call d) (get_with call.kick take_front ws d) d

unfoldable pub get_back : Bool → Call → List Wait → Deque → Option (Reply × Option ℕ × Deque)
unfolding get_with take_back
get_back is_null call ws d =
    get_guarded is_null (guard call d) (get_with call.kick take_back ws d) d

-- The count and the space of a deque with its marker.
unfoldable pub get_count : Deque → ℕ
unfolding modulo
get_count d = modulo ((d.back + 2 ^ 32 - d.front) % 2 ^ 32) d.element_count

unfoldable pub get_space : Deque → ℕ
unfolding modulo
get_space d = modulo ((d.front + 2 ^ 32 - (d.back + 1) % 2 ^ 32) % 2 ^ 32) d.element_count

-- The deque once its waiters have left: the end of `osDequeReset`.
unfoldable pub reset : Deque → Deque
reset d = record d { front = 0; back = 0; events = bit_and d.events (0xffffffff - 7) }
