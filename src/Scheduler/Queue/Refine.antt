-- ===== src/Scheduler/Queue/Refine.antt =====
-- The pointer code of the run queues does to the sequence of tasks what the operations on
-- sequences say.
use pico_toolkit.Base.{
  ℕ, zero, suc, ◌<◌, ◌≡◌, refl, sym, ap, subst, ◌∙◌, Bool, true, false, inl, inr, Option, none,
  some, List, [], ◌∷◌, ◌++◌, arith, ◌==◌, ltb, if◌then◌else◌, mem, length, erase, erase_of_not_mem,
  Distinct, Bool-cases, Option-cases,
}
use pico_toolkit.Links.{Heap}
use pico_toolkit.Links.Ring.{Seg, Ring, Distinct-middle}
use pico_toolkit.Links.Remove.{first?, tail}
use pico_toolkit.Links.Sched.{
  sched_list_pop, sched_list_insert_before-Ring, sched_list_push-Ring, sched_list_empty-Ring,
  sched_list_pop-Ring, sched_list_remove-Ring,
}
use pico_toolkit.Scheduler.Queue.{
  uint32_max, enqueue, first_eligible, highest_priority, find_insert_point, sched_queue_push,
  sched_queue_empty, sched_queue_highest_priority, find_eligible, sched_queue_pop,
}

-- Where the first task that passes a test stands.
pub record Found (can_run : ℕ → Bool) (xs : List ℕ) (y : ℕ) : Type 0 where
  pub before : List ℕ
  pub after : List ℕ
  pub split : xs ≡ before ++ y ∷ after
  pub passes : can_run y ≡ true
  pub none_before : first_eligible can_run before ≡ none

pub first_eligible-Found :
    (can_run : ℕ → Bool) (xs : List ℕ) (y : ℕ)
    → first_eligible can_run xs ≡ some y
    → Found can_run xs y
unfolding first_eligible
first_eligible-Found can_run [] y e = absurd (cc)
first_eligible-Found can_run (x ∷ xs) y e = elim (Bool-cases (can_run x)) [
  | inl p ↦ record {
    before = [];
    after = xs;
    split = ground arith;
    passes = ground arith;
    none_before = refl;
  }
  | inr p ↦
      let f = first_eligible-Found can_run xs y (ground arith) in
      record {
        before = x ∷ f.before;
        after = f.after;
        split = ap (λ zs. x ∷ zs) f.split;
        passes = f.passes;
        none_before = ground (arith, f.none_before);
      }
]

-- `enqueue` puts the task before the first one that is less urgent, if there is one.
enqueue_before :
    (prio : ℕ → ℕ) (t : ℕ) (xs : List ℕ) (y : ℕ) (ys : List ℕ)
    → first_eligible (λ x. ltb (prio t) (prio x)) xs ≡ none
    → ltb (prio t) (prio y) ≡ true
    → enqueue prio t (xs ++ y ∷ ys) ≡ xs ++ t ∷ y ∷ ys
unfolding first_eligible enqueue
enqueue_before prio t [] y ys e p = ground arith
enqueue_before prio t (x ∷ xs) y ys e p = ground (arith, enqueue_before prio t xs y ys)

enqueue_last :
    (prio : ℕ → ℕ) (t : ℕ) (xs : List ℕ)
    → first_eligible (λ x. ltb (prio t) (prio x)) xs ≡ none
    → enqueue prio t xs ≡ xs ++ t ∷ []
unfolding first_eligible enqueue
enqueue_last prio t [] e = refl
enqueue_last prio t (x ∷ xs) e = ground (arith, enqueue_last prio t xs)

-- The two searches walk the sequence.
find_insert_point-Seg :
    (prio : ℕ → ℕ) (fuel : ℕ) (h : Heap) (a : ℕ) (xs : List ℕ) (l task : ℕ)
    → Seg h a xs l
    → mem l xs ≡ false
    → length xs < fuel
    → find_insert_point prio fuel l (h.next a) task h
      ≡ some (first_eligible (λ x. ltb (prio task) (prio x)) xs)
unfolding find_insert_point first_eligible
find_insert_point-Seg prio zero h a xs l task s m f = absurd (omega arith)
find_insert_point-Seg prio (suc fuel) h a [] l task s m f = ground arith
find_insert_point-Seg prio (suc fuel) h a (x ∷ xs) l task s m f =
    ground (arith, find_insert_point-Seg prio fuel h x xs l task s.2)

find_eligible-Seg :
    (can_run : ℕ → ℕ → Bool) (fuel : ℕ) (h : Heap) (a : ℕ) (xs : List ℕ) (l core : ℕ)
    → Seg h a xs l
    → mem l xs ≡ false
    → length xs < fuel
    → find_eligible can_run fuel l (h.next a) core h ≡ some (first_eligible (can_run core) xs)
unfolding find_eligible first_eligible
find_eligible-Seg can_run zero h a xs l core s m f = absurd (omega arith)
find_eligible-Seg can_run (suc fuel) h a [] l core s m f = ground arith
find_eligible-Seg can_run (suc fuel) h a (x ∷ xs) l core s m f =
    ground (arith, find_eligible-Seg can_run fuel h x xs l core s.2)

-- What a call that has enough fuel leaves of a queue.
abbrev pub Leaves : Option Heap → ℕ → List ℕ → Type 0
Leaves r queue xs = (g : Heap) × (r ≡ some g) × Ring g queue xs

-- `sched_queue_push` puts a task that is in no queue where `enqueue` says, on any fuel above the
-- length of the queue.
pub sched_queue_push-enqueue :
    (prio : ℕ → ℕ) (fuel : ℕ) {h : Heap} {queue : ℕ} (xs : List ℕ) (task : ℕ)
    → Ring h queue xs
    → mem task (queue ∷ xs) ≡ false
    → length xs < fuel
    → Leaves (sched_queue_push prio fuel queue task h) queue (enqueue prio task xs)
unfolding sched_queue_push
sched_queue_push-enqueue prio fuel {h} {queue} xs task r out f =
    let found = find_insert_point-Seg prio fuel h queue xs queue task r.seg r.apart.0 f in
    elim (Option-cases (first_eligible (λ x. ltb (prio task) (prio x)) xs)) [
      | inl e ↦ (
        _,
        rw (found, e, sched_queue_push) refl,
        subst (Ring _ queue) (sym (enqueue_last prio task xs e)) (sched_list_push-Ring task r out),
      )
      | inr (y, e) ↦
          let w = first_eligible-Found (λ x. ltb (prio task) (prio x)) xs y e in
          (
            _,
            rw (found, e, sched_queue_push) refl,
            subst (Ring _ queue)
                (sym (
                  ap (enqueue prio task) w.split
                  ∙ enqueue_before prio task w.before y w.after w.none_before w.passes))
                (sched_list_insert_before-Ring w.before y w.after task
                  (subst (Ring h queue) w.split r)
                  (subst (λ zs. mem task (queue ∷ zs) ≡ false) w.split out)),
          )
    ]

-- The pointer-level query gives the priority of the first task of the queue, and the number of priorities for an empty queue.
pub highest_priority-Ring :
    (prio : ℕ → ℕ) {h : Heap} {queue : ℕ} (xs : List ℕ)
    → Ring h queue xs
    → sched_queue_highest_priority prio queue h ≡ highest_priority prio xs
unfolding sched_queue_highest_priority sched_queue_empty highest_priority
highest_priority-Ring prio [] r = rw (sched_list_empty-Ring [] r) refl
highest_priority-Ring prio (x ∷ xs) r = rw (sched_list_empty-Ring (x ∷ xs) r, r.seg.0) refl

erase_middle :
    (y : ℕ) (xs ys : List ℕ)
    → mem y xs ≡ false
    → mem y ys ≡ false
    → erase y (xs ++ y ∷ ys) ≡ xs ++ ys
erase_middle y [] ys p q = ground (arith, erase_of_not_mem y ys q)
erase_middle y (x ∷ xs) ys p q = ground (arith, erase_middle y xs ys)

abbrev pub erase? : Option ℕ → List ℕ → List ℕ
erase? none xs = xs
erase? (some y) xs = erase y xs

-- What a call of `sched_queue_pop` that has enough fuel returns and leaves.
abbrev pub Pops : Option (Option ℕ × Heap) → ℕ → Option ℕ → List ℕ → Type 0
Pops r queue y xs = (g : Heap) × (r ≡ some (y, g)) × Ring g queue xs

erase?-first : (xs : List ℕ) → Distinct xs → tail xs ≡ erase? (first? xs) xs
erase?-first [] d = refl
erase?-first (x ∷ xs) d = ground (arith, erase_of_not_mem x xs d.0)

pop_first :
    (can_run : ℕ → ℕ → Bool) (fuel : ℕ) {h : Heap} {queue : ℕ} (xs : List ℕ) (core : ℕ)
    → Ring h queue xs
    → (core == uint32_max) ≡ true
    → Pops (sched_queue_pop can_run fuel queue core h) queue (first? xs) (erase? (first? xs) xs)
unfolding sched_queue_pop
pop_first can_run fuel {h} {queue} xs core r e =
    let (p, q) = sched_list_pop-Ring xs r in
    (
      _,
      rw e (ap (λ o. some (o, (sched_list_pop queue h).1)) p),
      subst (Ring _ queue) (erase?-first xs r.apart.1) q,
    )

pop_eligible :
    (can_run : ℕ → ℕ → Bool) (fuel : ℕ) {h : Heap} {queue : ℕ} (xs : List ℕ) (core : ℕ)
    → Ring h queue xs
    → length xs < fuel
    → (core == uint32_max) ≡ false
    → let y = first_eligible (can_run core) xs in
      Pops (sched_queue_pop can_run fuel queue core h) queue y (erase? y xs)
unfolding sched_queue_pop
pop_eligible can_run fuel {h} {queue} xs core r f ne =
    let found = find_eligible-Seg can_run fuel h queue xs queue core r.seg r.apart.0 f in
    elim (Option-cases (first_eligible (can_run core) xs)) [
      | inl e ↦ rw (e, ne, found, e, sched_queue_pop) (_, refl, r)
      | inr (y, e) ↦
          let w = first_eligible-Found (can_run core) xs y e in
          let d = Distinct-middle y w.before w.after (subst Distinct w.split r.apart.1) in
          (
            _,
            rw (e, ne, found, e, sched_queue_pop) refl,
            subst (Ring _ queue)
                (sym (erase_middle y w.before w.after d.0 d.1)
                  ∙ sym (ap (erase y) w.split)
                  ∙ ap (λ o. erase? o xs) (sym e))
                (sched_list_remove-Ring w.before y w.after (subst (Ring h queue) w.split r)).0,
          )
    ]

-- `sched_queue_pop` on the nodes of a queue returns and takes out the first task that can run on
-- the core, or the very first one if no core is given, on any fuel above the length of the queue.
pub sched_queue_pop-first_eligible :
    (can_run : ℕ → ℕ → Bool) (fuel : ℕ) {h : Heap} {queue : ℕ} (xs : List ℕ) (core : ℕ)
    → Ring h queue xs
    → length xs < fuel
    → let y = if core == uint32_max then first? xs else first_eligible (can_run core) xs in
      Pops (sched_queue_pop can_run fuel queue core h) queue y (erase? y xs)
unfolding sched_queue_pop
sched_queue_pop-first_eligible can_run fuel {h} {queue} xs core r f =
    elim (Bool-cases (core == uint32_max)) [
      | inl e ↦ subst Goal (sym e) (pop_first can_run fuel xs core r e)
      | inr e ↦ subst Goal (sym e) (pop_eligible can_run fuel xs core r f e)
    ]
  where
    Goal : Bool → Type 0
    Goal b =
        let y = if b then first? xs else first_eligible (can_run core) xs in
        Pops (sched_queue_pop can_run fuel queue core h) queue y (erase? y xs)
