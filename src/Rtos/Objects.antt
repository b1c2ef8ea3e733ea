-- ===== src/Rtos/Objects.antt =====
-- pico-cmsis-rtos2: the creation and deletion of semaphores, event flags and mutexes, and the kernel's
-- lists of resources (cmsis-rtos2-kernel.c). Names are left out.
pub mod Lifetime
mod Tests
use pico_toolkit.Base.{
  ℕ, zero, suc, ◌+◌, Bool, true, false, not, ◌||◌, Option, none, some, List, [], ◌∷◌, ◌++◌, ◌==◌,
  ltb, if◌then◌else◌, update, erase,
}
use pico_toolkit.Rtos.{
  Status, ok, error, error_resource, error_parameter, Context, context_is_valid, is_resource_valid,
  if_ok,
}

-- What an object holds besides its head: the maximum and the value of a semaphore, flags and waiters, or
-- the count of a mutex with `osMutexPrioInherit`.
pub data Content : Type 0 where
  semaphore : ℕ → ℕ → Content
  event_flags : ℕ → ℕ → Content
  mutex : ℕ → Bool → Content

-- The head of an object, with the bits `osDynamicAlloc` and `osMutexRobust` of its attributes.
pub record Object : Type 0 where
  pub marker : ℕ
  pub is_dynamic : Bool
  pub is_robust : Bool
  pub content : Content

-- `osResourceId_t`
pub data Resource : Type 0 where
  semaphores mutexes robust_mutexes event_flagses : Resource

-- The objects, the lists of resources of the kernel, and the blocks released so far.
pub record Objects : Type 0 where
  pub object : ℕ → Object
  pub listed : Resource → List ℕ
  pub released : List ℕ

-- The attributes of a creation, with their bits `osDynamicAlloc`, `osMutexRobust` and
-- `osMutexPrioInherit`; no memory of the caller is 0.
pub record Attr : Type 0 where
  pub cb_mem : ℕ
  pub cb_size : ℕ
  pub dynamic : Bool
  pub robust : Bool
  pub prio_inherit : Bool

-- The bit `osDynamicAlloc` of the new object: that of the attributes, or set when the memory is not the
-- caller's.
abbrev pub is_allocated : Attr → Bool
is_allocated a = a.dynamic || (a.cb_mem == 0)

abbrev pub same : Resource → Resource → Bool
same semaphores semaphores = true
same mutexes mutexes = true
same robust_mutexes robust_mutexes = true
same event_flagses event_flagses = true
same _ _ = false

abbrev pub with_list : Resource → List ℕ → Objects → Objects
with_list r ts s = record s { listed = λ q. if same r q then ts else s.listed q }

-- `osKernelResourceAdd` and `osKernelResourceRemove`, of the node of an object.
unfoldable pub resource_add : Context → Resource → ℕ → Objects → Status × Objects
resource_add c r t s =
    if_ok (context_is_valid false 0 c) (λ e. (e, s)) (ok, with_list r (s.listed r ++ t ∷ []) s)

unfoldable pub resource_remove : Context → Resource → ℕ → Objects → Status × Objects
resource_remove c r t s =
    if_ok (context_is_valid false 0 c) (λ e. (e, s)) (ok, with_list r (erase t (s.listed r)) s)

-- The memory of a new object of some size: that of the caller, or a block of the allocator.
unfoldable pub memory_for : ℕ → Attr → Option ℕ → Option ℕ
memory_for size a block =
    let given = if ltb a.cb_size size then none else some a.cb_mem in
    if a.cb_mem == 0 then block else given

-- The end of a creation: the object is initialised and listed, or given back.
unfoldable pub enlist : Context → Resource → Object → Option ℕ → Objects → Option ℕ × Objects
unfolding resource_add
enlist c r o none s = (none, s)
enlist c r o (some t) s = added (resource_add c r t (record s { object = update s.object t o }))
  where
    added : Status × Objects → Option ℕ × Objects
    added (st, s1) =
        let gone = if o.is_dynamic then record s1 { released = t ∷ s1.released } else s1 in
        if_ok st (λ e. (none, gone)) (some t, s1)

abbrev pub semaphore_marker : ℕ
semaphore_marker = 0x42044024

abbrev pub mutex_marker : ℕ
mutex_marker = 0x42022024

abbrev pub event_flags_marker : ℕ
event_flags_marker = 0x42055024

-- `osSemaphoreNew`; `block` is what the allocator gives if it is asked.
unfoldable pub semaphore_new : Context → ℕ → ℕ → ℕ → Attr → Option ℕ → Objects → Option ℕ × Objects
unfolding memory_for enlist
semaphore_new c size max_count initial_count a block s =
    let o : Object = record {
      marker = semaphore_marker;
      is_dynamic = is_allocated a;
      is_robust = false;
      content = semaphore max_count initial_count;
    } in
    if_ok (context_is_valid false 0 c) (λ e. (none, s))
      (enlist c semaphores o (memory_for size a block) s)

unfoldable pub event_flags_new : Context → ℕ → Attr → Option ℕ → Objects → Option ℕ × Objects
unfolding memory_for enlist
event_flags_new c size a block s =
    let o : Object = record {
      marker = event_flags_marker;
      is_dynamic = is_allocated a;
      is_robust = false;
      content = event_flags 0 0;
    } in
    if_ok (context_is_valid false 0 c) (λ e. (none, s))
      (enlist c event_flagses o (memory_for size a block) s)

abbrev pub mutexes_of : Bool → Resource
mutexes_of robust = if robust then robust_mutexes else mutexes

unfoldable pub mutex_new : Context → ℕ → Attr → Option ℕ → Objects → Option ℕ × Objects
unfolding memory_for enlist
mutex_new c size a block s =
    let o : Object = record {
      marker = mutex_marker;
      is_dynamic = is_allocated a;
      is_robust = a.robust;
      content = mutex 0 a.prio_inherit;
    } in
    if_ok (context_is_valid false 0 c) (λ e. (none, s))
      (enlist c (mutexes_of a.robust) o (memory_for size a block) s)

-- The end of a deletion.
unfoldable pub delist : Context → Resource → ℕ → Objects → Status × Objects
unfolding resource_remove
delist c r t s = removed (resource_remove c r t s)
  where
    removed : Status × Objects → Status × Objects
    removed (st, s1) =
        let gone =
          if (s1.object t).is_dynamic then record s1 { released = t ∷ s1.released } else s1 in
        if_ok st (λ e. (e, s1)) (ok, gone)

abbrev pub unmarked : ℕ → Objects → Objects
unmarked t s = record s { object = update s.object t (record (s.object t) { marker = 0 }) }

-- `osSemaphoreDelete`
unfoldable pub semaphore_delete : Context → ℕ → Objects → Status × Objects
semaphore_delete c t s =
    if_ok (context_is_valid false 0 c) (λ e. (e, s))
      (if_ok (is_resource_valid t (s.object t).marker semaphore_marker) (λ e. (e, s))
        (delist c semaphores t (unmarked t s)))

-- `osMutexDelete`
unfoldable pub mutex_delete : Context → ℕ → Objects → Status × Objects
mutex_delete c t s =
    if_ok (context_is_valid false 0 c) (λ e. (e, s))
      (if_ok (is_resource_valid t (s.object t).marker mutex_marker) (λ e. (e, s))
        (delist c (mutexes_of (s.object t).is_robust) t (unmarked t s)))

-- `osEventFlagsDelete`, which leaves the marker.
unfoldable pub event_flags_delete : Context → ℕ → Objects → Status × Objects
event_flags_delete c t s =
    let gone = delist c event_flagses t s in
    if_ok (context_is_valid false 0 c) (λ e. (e, s))
      (if_ok (is_resource_valid t (s.object t).marker event_flags_marker) (λ e. (e, s))
        (by_content (s.object t).content gone))
  where
    by_content : Content → Status × Objects → Status × Objects
    by_content (event_flags flags waiters) go = if waiters == 0 then go else (error_resource, s)
    by_content _ go = go
