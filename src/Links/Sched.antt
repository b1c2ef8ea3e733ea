-- ===== src/Links/Sched.antt =====
-- pico-scheduler/scheduler.c, the scheduler's own copy of the intrusive list (`struct sched_list`).
-- Its `push` is at the back, where the one of linked-list.h is at the front.
use pico_toolkit.Base.{
  ℕ, ◌≡◌, refl, sym, subst, fun_ext, ◌≢◌, Bool, false, not, Option, none, some, List, [], ◌∷◌, ◌++◌,
  arith, ◌==◌, if◌then◌else◌, mem, ==_self, ==_ne,
}
use pico_toolkit.Links.{Heap, set_next, set_prev, list_insert_before, list_add, list_remove}
use pico_toolkit.Links.Ring.{Ring, IsSelf, Seg-last-mem}
use pico_toolkit.Links.Insert.{list_insert_before-Ring, list_add-Ring}
use pico_toolkit.Links.Remove.{first?, tail, is_nil, list_remove-Ring}

pub sched_list_init : ℕ → Heap → Heap
sched_list_init list h = set_prev list list (set_next list list h)

pub sched_list_empty : ℕ → Heap → Bool
sched_list_empty list h = h.next list == list

pub sched_list_insert : ℕ → ℕ → ℕ → Heap → Heap
sched_list_insert node first second h0 =
    let h1 = set_prev second node h0 in
    let h2 = set_next node second h1 in let h3 = set_prev node first h2 in set_next first node h3

pub sched_list_insert_after : ℕ → ℕ → Heap → Heap
sched_list_insert_after entry node h0 =
    let h1 = set_next node (h0.next entry) h0 in
    let h2 = set_prev node entry h1 in
    let h3 = set_prev (h2.next entry) node h2 in set_next entry node h3

pub sched_list_insert_before : ℕ → ℕ → Heap → Heap
sched_list_insert_before entry node h0 =
    let h1 = set_next node entry h0 in
    let h2 = set_prev node (h1.prev entry) h1 in
    let h3 = set_next (h2.prev entry) node h2 in set_prev entry node h3

pub sched_list_add : ℕ → ℕ → Heap → Heap
sched_list_add list node h0 =
    let h1 = set_next node list h0 in
    let h2 = set_prev node (h1.prev list) h1 in
    let h3 = set_next (h2.prev list) node h2 in set_prev list node h3

pub sched_list_remove : ℕ → Heap → Heap
sched_list_remove node h0 =
    let h1 = set_prev (h0.next node) (h0.prev node) h0 in
    let h2 = set_next (h1.prev node) (h1.next node) h1 in
    let h3 = set_next node node h2 in set_prev node node h3

pub sched_list_push : ℕ → ℕ → Heap → Heap
unfolding sched_list_insert
sched_list_push list node h = sched_list_insert node (h.prev list) list h

pub sched_list_pop : ℕ → Heap → Option ℕ × Heap
sched_list_pop list h =
    let node = h.next list in
    if node == list then (none, h) else (some node, sched_list_remove node h)

pub sched_list_is_linked : ℕ → Heap → Bool
sched_list_is_linked node h = not (h.next node == node)

-- On a node outside the list, `sched_list_push` makes the same assignments as `list_add`, in
-- another order.
sched_list_push-list_add :
    (h : Heap) (l n : ℕ) → n ≢ l → n ≢ h.prev l → sched_list_push l n h ≡ list_add l n h
unfolding sched_list_push list_add
sched_list_push-list_add h l n nl np = λ i. record {
  next =
      fun_ext {f = (sched_list_push l n h).next} {g = (list_add l n h).next} (λ j. ground arith) i;
  prev =
      fun_ext {f = (sched_list_push l n h).prev} {g = (list_add l n h).prev} (λ j. ground arith) i;
}

-- `sched_list_remove` takes an entry out of its list, and leaves it linked to itself.
pub sched_list_remove-Ring :
    {h : Heap} {l : ℕ} (xs : List ℕ) (n : ℕ) (ys : List ℕ)
    → Ring h l (xs ++ n ∷ ys)
    → Ring (sched_list_remove n h) l (xs ++ ys)
      × IsSelf (sched_list_remove n h) n
      × (sched_list_is_linked n (sched_list_remove n h) ≡ false)
unfolding sched_list_remove list_remove sched_list_is_linked
sched_list_remove-Ring xs n ys r =
    let (r', o) = list_remove-Ring xs n ys r in (r', o, ground (arith, o.next_self))

-- `sched_list_insert_before` puts a new node directly before an entry.
pub sched_list_insert_before-Ring :
    {h : Heap} {l : ℕ} (xs : List ℕ) (e : ℕ) (ys : List ℕ) (n : ℕ)
    → Ring h l (xs ++ e ∷ ys)
    → mem n (l ∷ xs ++ e ∷ ys) ≡ false
    → Ring (sched_list_insert_before e n h) l (xs ++ n ∷ e ∷ ys)
unfolding sched_list_insert_before list_insert_before
sched_list_insert_before-Ring xs e ys n r out = list_insert_before-Ring xs e ys n r out

-- `sched_list_push` puts a new node at the back of the list.
pub sched_list_push-Ring :
    {h : Heap} {l : ℕ} {xs : List ℕ} (n : ℕ)
    → Ring h l xs
    → mem n (l ∷ xs) ≡ false
    → Ring (sched_list_push l n h) l (xs ++ n ∷ [])
sched_list_push-Ring {h} {l} {xs} n r out =
    subst (λ g. Ring g l (xs ++ n ∷ []))
      (sym (
        sched_list_push-list_add h l n (ground arith)
          (λ e. ground (arith, Seg-last-mem h l xs l r.seg))))
      (list_add-Ring n r out)

-- `sched_list_empty` decides whether the sequence is empty.
pub sched_list_empty-Ring :
    {h : Heap} {l : ℕ} (xs : List ℕ) → Ring h l xs → sched_list_empty l h ≡ is_nil xs
unfolding sched_list_empty
sched_list_empty-Ring [] r = ground arith
sched_list_empty-Ring (x ∷ xs) r = ground arith

-- `sched_list_pop` returns the first entry, `none` on an empty list only, and leaves the rest.
pub sched_list_pop-Ring :
    {h : Heap} {l : ℕ} (xs : List ℕ)
    → Ring h l xs
    → ((sched_list_pop l h).0 ≡ first? xs) × Ring (sched_list_pop l h).1 l (tail xs)
unfolding sched_list_pop
sched_list_pop-Ring {h} {l} [] r = rw (r.seg.0, ==_self l) (refl, r)
sched_list_pop-Ring {h} {l} (x ∷ xs) r =
    rw (r.seg.0, ==_ne x l (ground arith)) (refl, (sched_list_remove-Ring [] x xs r).0)
