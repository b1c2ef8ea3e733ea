-- ===== src/Rtos/Objects/Tests.antt =====
-- Creations and deletions at small inputs.
use pico_toolkit.Base.{ℕ, ◌≡◌, refl, true, false, some, List, [], ◌∷◌}
use pico_toolkit.Rtos.{Status, ok, error_resource, Context, context_is_valid, is_resource_valid}
use pico_toolkit.Rtos.Objects.{
  Object, semaphore, event_flags, Objects, Attr, robust_mutexes, event_flagses, memory_for,
  mutex_new, event_flags_delete,
}
use pico_toolkit.Rtos.Objects.Lifetime.{Restored, a_mutex, new, delete, delete-new}

abbrev here : Context
here = record { ipsr = 0; is_realtime = false }

-- Flags at 100, for which a thread waits.
abbrev waited_for : Objects
waited_for = record {
  object = λ t. record {
    marker = 0x42055024;
    is_dynamic = false;
    is_robust = false;
    content = event_flags 0 1;
  };
  listed = λ r. if_flags r;
  released = [];
}
  where
    if_flags : pico_toolkit.Rtos.Objects.Resource → List ℕ
    if_flags event_flagses = 100 ∷ []
    if_flags _ = []

-- A robust mutex in allocated memory.
abbrev robust : Attr
robust = record { cb_mem = 0; cb_size = 0; dynamic = false; robust = true; prio_inherit = true }

not_deleted : (event_flags_delete here 100 waited_for).0 ≡ error_resource
unfolding event_flags_delete context_is_valid is_resource_valid
not_deleted = refl

delete-new_example :
    ((new a_mutex here 64 robust (some 300) waited_for).0 ≡ some 300)
    × ((delete a_mutex here 300 (new a_mutex here 64 robust (some 300) waited_for).1).0 ≡ ok)
    × Restored robust 300 waited_for
        (delete a_mutex here 300 (new a_mutex here 64 robust (some 300) waited_for).1).1
unfolding context_is_valid memory_for
delete-new_example = delete-new a_mutex here 64 robust (some 300) 300 waited_for refl refl refl refl
