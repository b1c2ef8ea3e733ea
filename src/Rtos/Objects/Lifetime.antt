-- ===== src/Rtos/Objects/Lifetime.antt =====
-- What is left of an object that is created and deleted.
use pico_toolkit.Base.{
  ℕ, ◌≡◌, refl, sym, ap, ◌∙◌, Bool, true, false, Option, some, List, [], ◌∷◌, ◌++◌, ◌==◌,
  if◌then◌else◌, update, update_self, mem, erase, arith, subst,
}
use pico_toolkit.Rtos.{Status, ok, Context, context_is_valid, is_resource_valid}
use pico_toolkit.Rtos.Objects.{
  semaphore, event_flags, mutex, Object, Resource, semaphores, mutexes, robust_mutexes,
  event_flagses, Objects, Attr, is_allocated, same, with_list, resource_add, resource_remove,
  memory_for, enlist, semaphore_marker, mutex_marker, event_flags_marker, semaphore_new,
  event_flags_new, mutexes_of, mutex_new, delist, unmarked, semaphore_delete, mutex_delete,
  event_flags_delete,
}

erase_last : (t : ℕ) (ts : List ℕ) → mem t ts ≡ false → erase t (ts ++ t ∷ []) ≡ ts
erase_last t [] m = ground arith
erase_last t (x ∷ xs) m = ground (arith, m, erase_last t xs)

abbrev added_to : Resource → ℕ → (Resource → List ℕ) → Resource → List ℕ
added_to r t f q = if same r q then f r ++ t ∷ [] else f q

abbrev taken_from : Resource → ℕ → (Resource → List ℕ) → Resource → List ℕ
taken_from r t f q = if same r q then erase t (f r) else f q

taken-added :
    (r q : Resource) (t : ℕ) (f : Resource → List ℕ)
    → mem t (f r) ≡ false
    → taken_from r t (added_to r t f) q ≡ f q
taken-added semaphores semaphores t f m = erase_last t (f semaphores) m
taken-added mutexes mutexes t f m = erase_last t (f mutexes) m
taken-added robust_mutexes robust_mutexes t f m = erase_last t (f robust_mutexes) m
taken-added event_flagses event_flagses t f m = erase_last t (f event_flagses) m
taken-added semaphores q t f m = refl
taken-added mutexes q t f m = refl
taken-added robust_mutexes q t f m = refl
taken-added event_flagses q t f m = refl

-- The creations, with what they are told.
pub data Kind : Type 0 where
  a_semaphore : ℕ → ℕ → Kind
  some_flags : Kind
  a_mutex : Kind

abbrev pub new : Kind → Context → ℕ → Attr → Option ℕ → Objects → Option ℕ × Objects
new (a_semaphore max_count initial_count) c size a block s =
    semaphore_new c size max_count initial_count a block s
new some_flags c size a block s = event_flags_new c size a block s
new a_mutex c size a block s = mutex_new c size a block s

abbrev pub delete : Kind → Context → ℕ → Objects → Status × Objects
delete (a_semaphore max_count initial_count) c t s = semaphore_delete c t s
delete some_flags c t s = event_flags_delete c t s
delete a_mutex c t s = mutex_delete c t s

abbrev pub lists_of : Kind → Attr → Resource
lists_of (a_semaphore max_count initial_count) a = semaphores
lists_of some_flags a = event_flagses
lists_of a_mutex a = mutexes_of a.robust

-- The object that is made.
abbrev made : Kind → Attr → Object
made (a_semaphore max_count initial_count) a = record {
  marker = semaphore_marker;
  is_dynamic = is_allocated a;
  is_robust = false;
  content = semaphore max_count initial_count;
}
made some_flags a = record {
  marker = event_flags_marker;
  is_dynamic = is_allocated a;
  is_robust = false;
  content = event_flags 0 0;
}
made a_mutex a = record {
  marker = mutex_marker;
  is_dynamic = is_allocated a;
  is_robust = a.robust;
  content = mutex 0 a.prio_inherit;
}

-- The objects with one more.
abbrev with_new : Kind → Attr → ℕ → Objects → Objects
with_new k a t s =
    let r = lists_of k a in
    with_list r (s.listed r ++ t ∷ []) (record s { object = update s.object t (made k a) })

enlist_lem :
    (c : Context) (r : Resource) (o : Object) (t : ℕ) (s : Objects)
    → context_is_valid false 0 c ≡ ok
    → enlist c r o (some t) s
      ≡ (some t, with_list r (s.listed r ++ t ∷ []) (record s { object = update s.object t o }))
unfolding enlist resource_add
enlist_lem c r o t s i = rw i refl

new_lem :
    (k : Kind) (c : Context) (size : ℕ) (a : Attr) (block : Option ℕ) (t : ℕ) (s : Objects)
    → context_is_valid false 0 c ≡ ok
    → memory_for size a block ≡ some t
    → new k c size a block s ≡ (some t, with_new k a t s)
unfolding semaphore_new event_flags_new mutex_new
new_lem (a_semaphore m n) c size a block t s i e =
    rw (i, e) (enlist_lem c semaphores (made (a_semaphore m n) a) t s i)
new_lem some_flags c size a block t s i e =
    rw (i, e) (enlist_lem c event_flagses (made some_flags a) t s i)
new_lem a_mutex c size a block t s i e =
    rw (i, e) (enlist_lem c (mutexes_of a.robust) (made a_mutex a) t s i)

-- What is left after a deletion from a list, of an object that was allocated or not.
abbrev without : Resource → ℕ → Bool → Objects → Objects
without r t is_dynamic s = record (with_list r (erase t (s.listed r)) s) {
  released = if is_dynamic then t ∷ s.released else s.released;
}

delist_lem :
    (c : Context) (r : Resource) (t : ℕ) (d : Bool) (s : Objects)
    → context_is_valid false 0 c ≡ ok
    → (s.object t).is_dynamic ≡ d
    → delist c r t s ≡ (ok, without r t d s)
unfolding delist resource_remove
delist_lem c r t true s i e = rw (i, e) refl
delist_lem c r t false s i e = rw (i, e) refl

marked :
    (t marker : ℕ) (s : Objects) (o : Object)
    → (t == 0) ≡ false
    → s.object t ≡ o
    → o.marker ≡ marker
    → is_resource_valid t (s.object t).marker marker ≡ ok
unfolding is_resource_valid
marked t marker s o nz e m = ground (arith, nz, ap (λ x. x.marker) e, m)

unmarked-dynamic :
    (t : ℕ) (s : Objects) (o : Object)
    → s.object t ≡ o
    → ((unmarked t s).object t).is_dynamic ≡ o.is_dynamic
unmarked-dynamic t s o e =
    ap (λ x. x.is_dynamic) (update_self s.object t (record (s.object t) { marker = 0 }))
    ∙ ap (λ x. x.is_dynamic) e

abbrev before_delist : Kind → ℕ → Objects → Objects
before_delist some_flags t s = s
before_delist _ t s = unmarked t s

delete_lem :
    (k : Kind) (c : Context) (a : Attr) (t : ℕ) (s : Objects)
    → context_is_valid false 0 c ≡ ok
    → (t == 0) ≡ false
    → s.object t ≡ made k a
    → delete k c t s ≡ (ok, without (lists_of k a) t (is_allocated a) (before_delist k t s))
unfolding semaphore_delete event_flags_delete mutex_delete
delete_lem (a_semaphore m n) c a t s i nz e =
    rw (i, marked t semaphore_marker s _ nz e refl)
      (delist_lem c semaphores t (is_allocated a) (unmarked t s) i (unmarked-dynamic t s _ e))
delete_lem some_flags c a t s i nz e =
    rw (i, marked t event_flags_marker s _ nz e refl, e)
      (delist_lem c event_flagses t (is_allocated a) s i (ap (λ x. x.is_dynamic) e))
delete_lem a_mutex c a t s i nz e =
    rw (i, marked t mutex_marker s _ nz e refl)
      (ap (λ r. delist c (mutexes_of r) t (unmarked t s)) (ap (λ x. x.is_robust) e)
        ∙ delist_lem c (mutexes_of a.robust) t (is_allocated a) (unmarked t s) i
            (unmarked-dynamic t s _ e))

-- As before, but for a block that was allocated, or given as such, and is free again.
pub record Restored (a : Attr) (t : ℕ) (s s2 : Objects) : Type 0 where
  pub lists : (q : Resource) → s2.listed q ≡ s.listed q
  pub freed : s2.released ≡ (if is_allocated a then t ∷ s.released else s.released)

without-Restored :
    (k : Kind) (a : Attr) (t : ℕ) (s : Objects)
    → mem t (s.listed (lists_of k a)) ≡ false
    → Restored a t s
        (without (lists_of k a) t (is_allocated a) (before_delist k t (with_new k a t s)))
without-Restored (a_semaphore m n) a t s fresh = record {
  lists = λ q. taken-added semaphores q t s.listed fresh;
  freed = refl;
}
without-Restored some_flags a t s fresh = record {
  lists = λ q. taken-added event_flagses q t s.listed fresh;
  freed = refl;
}
without-Restored a_mutex a t s fresh = record {
  lists = λ q. taken-added (mutexes_of a.robust) q t s.listed fresh;
  freed = refl;
}

-- For semaphores, event flags and mutexes, with a valid call, memory for the object that is not null,
-- and no object in that place that is listed: the creation returns the object, its deletion succeeds,
-- and then the kernel's lists are as before and the memory is released exactly if it was allocated, or its
-- attributes say so.
pub delete-new :
    (k : Kind) (c : Context) (size : ℕ) (a : Attr) (block : Option ℕ) (t : ℕ) (s : Objects)
    → context_is_valid false 0 c ≡ ok
    → (t == 0) ≡ false
    → memory_for size a block ≡ some t
    → mem t (s.listed (lists_of k a)) ≡ false
    → ((new k c size a block s).0 ≡ some t)
      × ((delete k c t (new k c size a block s).1).0 ≡ ok)
      × Restored a t s (delete k c t (new k c size a block s).1).1
delete-new k c size a block t s i nz e fresh =
    let made_it = ap (λ r. r.1) (new_lem k c size a block t s i e) in
    let gone =
      ap (delete k c t) made_it
      ∙ delete_lem k c a t (with_new k a t s) i nz (update_self s.object t (made k a)) in
    (
      ap (λ r. r.0) (new_lem k c size a block t s i e),
      ap (λ r. r.0) gone,
      subst (λ r. Restored a t s r.1) (sym gone) (without-Restored k a t s fresh),
    )
