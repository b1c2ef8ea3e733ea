-- ===== src/Scheduler/Queue/Order.antt =====
-- The order of a run queue: most urgent first, and first come first served among equals.
use pico_toolkit.Base.{
  ℕ, ◌≤◌, ◌<◌, ◌≡◌, refl, Bool, true, false, ◌||◌, none, some, List, [], ◌∷◌, ◌++◌, arith, ◌==◌,
  if◌then◌else◌, mem, Distinct, erase, Bool-cases, length, ◌+◌, inl, inr,
}
use pico_toolkit.Scheduler.Queue.{enqueue, first_eligible}

-- Every task of the queue is at most as urgent as `k`.
abbrev pub AtLeast : (ℕ → ℕ) → ℕ → List ℕ → Type 0
AtLeast prio k [] = Unit
AtLeast prio k (x ∷ xs) = (k ≤ prio x) × AtLeast prio k xs

abbrev pub Sorted : (ℕ → ℕ) → List ℕ → Type 0
Sorted prio [] = Unit
Sorted prio (x ∷ xs) = AtLeast prio (prio x) xs × Sorted prio xs

-- The tasks of priority `k`, in the order of the queue.
abbrev pub at_priority : (ℕ → ℕ) → ℕ → List ℕ → List ℕ
at_priority prio k [] = []
at_priority prio k (x ∷ xs) =
    let rest = at_priority prio k xs in if prio x == k then x ∷ rest else rest

pub mem-enqueue :
    (prio : ℕ → ℕ) (a t : ℕ) (xs : List ℕ) → mem a (enqueue prio t xs) ≡ ((a == t) || mem a xs)
unfolding enqueue
mem-enqueue prio a t [] = refl
mem-enqueue prio a t (x ∷ xs) = ground (arith, mem-enqueue prio a t xs)

pub length-enqueue :
    (prio : ℕ → ℕ) (t : ℕ) (xs : List ℕ) → length (enqueue prio t xs) ≡ length xs + 1
unfolding enqueue
length-enqueue prio t [] = refl
length-enqueue prio t (x ∷ xs) = ground (arith, length-enqueue prio t xs)

pub enqueue-Distinct :
    (prio : ℕ → ℕ) (t : ℕ) (xs : List ℕ)
    → mem t xs ≡ false
    → Distinct xs
    → Distinct (enqueue prio t xs)
unfolding enqueue
enqueue-Distinct prio t [] m d = (refl, tt)
enqueue-Distinct prio t (x ∷ xs) m d =
    ground (arith, mem-enqueue prio x t xs, enqueue-Distinct prio t xs (ground arith) d.1)

pub AtLeast-weaken :
    (prio : ℕ → ℕ) (k j : ℕ) (xs : List ℕ) → k ≤ j → AtLeast prio j xs → AtLeast prio k xs
AtLeast-weaken prio k j [] h a = tt
AtLeast-weaken prio k j (x ∷ xs) h a = (omega arith, AtLeast-weaken prio k j xs h a.1)

AtLeast-enqueue :
    (prio : ℕ → ℕ) (k t : ℕ) (xs : List ℕ)
    → k ≤ prio t
    → AtLeast prio k xs
    → AtLeast prio k (enqueue prio t xs)
unfolding enqueue
AtLeast-enqueue prio k t [] h a = (h, tt)
AtLeast-enqueue prio k t (x ∷ xs) h a = ground (arith, AtLeast-enqueue prio k t xs)

-- `enqueue` keeps a queue sorted by priority.
pub enqueue-Sorted :
    (prio : ℕ → ℕ) (t : ℕ) (xs : List ℕ) → Sorted prio xs → Sorted prio (enqueue prio t xs)
unfolding enqueue
enqueue-Sorted prio t [] s = (tt, tt)
enqueue-Sorted prio t (x ∷ xs) s = ground (
  arith,
  AtLeast-enqueue prio (prio x) t xs,
  enqueue-Sorted prio t xs s.1,
  AtLeast-weaken prio (prio t) (prio x) xs,
)

pub AtLeast-erase :
    (prio : ℕ → ℕ) (k t : ℕ) (xs : List ℕ) → AtLeast prio k xs → AtLeast prio k (erase t xs)
AtLeast-erase prio k t [] a = tt
AtLeast-erase prio k t (x ∷ xs) a = ground (arith, AtLeast-erase prio k t xs)

pub erase-Sorted : (prio : ℕ → ℕ) (t : ℕ) (xs : List ℕ) → Sorted prio xs → Sorted prio (erase t xs)
erase-Sorted prio t [] s = tt
erase-Sorted prio t (x ∷ xs) s =
    ground (arith, AtLeast-erase prio (prio x) t xs, erase-Sorted prio t xs s.1)

-- The order looks only at the priorities of the tasks in the queue.
AtLeast-congr :
    (f g : ℕ → ℕ) (k : ℕ) (xs : List ℕ)
    → ((j : ℕ) → mem j xs ≡ true → f j ≡ g j)
    → AtLeast f k xs
    → AtLeast g k xs
AtLeast-congr f g k [] e a = tt
AtLeast-congr f g k (x ∷ xs) e a =
    (ground (arith, e x), AtLeast-congr f g k xs (λ j m. e j (ground arith)) a.1)

pub Sorted-congr :
    (f g : ℕ → ℕ) (xs : List ℕ)
    → ((j : ℕ) → mem j xs ≡ true → f j ≡ g j)
    → Sorted f xs
    → Sorted g xs
Sorted-congr f g [] e s = tt
Sorted-congr f g (x ∷ xs) e s = (
  rw (← e x (ground arith)) (AtLeast-congr f g (f x) xs (λ j m. e j (ground arith)) s.0),
  Sorted-congr f g xs (λ j m. e j (ground arith)) s.1,
)

at_priority_none :
    (prio : ℕ → ℕ) (k j : ℕ) (xs : List ℕ) → AtLeast prio k xs → j < k → at_priority prio j xs ≡ []
at_priority_none prio k j [] a h = refl
at_priority_none prio k j (x ∷ xs) a h = ground (arith, at_priority_none prio k j xs a.1 h)

-- In a queue in order, among the tasks of one priority a new task is the last, and all others
-- keep their order.
pub at_priority-enqueue :
    (prio : ℕ → ℕ) (k t : ℕ) (xs : List ℕ)
    → Sorted prio xs
    → at_priority prio k (enqueue prio t xs)
      ≡ (if prio t == k then at_priority prio k xs ++ t ∷ [] else at_priority prio k xs)
unfolding enqueue
at_priority-enqueue prio k t [] s = refl
at_priority-enqueue prio k t (x ∷ xs) s =
    ground (arith, at_priority-enqueue prio k t xs s.1, at_priority_none prio (prio x) k xs)

AtLeast-mem :
    (prio : ℕ → ℕ) (k j : ℕ) (xs : List ℕ) → AtLeast prio k xs → mem j xs ≡ true → k ≤ prio j
AtLeast-mem prio k j [] a m = absurd (ground arith)
AtLeast-mem prio k j (x ∷ xs) a m = ground (arith, AtLeast-mem prio k j xs)

-- The first eligible task of a sorted queue is in the queue, can run, and is as urgent as any other that can.
pub first_eligible-urgent :
    (prio : ℕ → ℕ) (can_run : ℕ → Bool) (xs : List ℕ) (y : ℕ)
    → Sorted prio xs
    → first_eligible can_run xs ≡ some y
    → (mem y xs ≡ true)
      × (can_run y ≡ true)
      × ((j : ℕ) → mem j xs ≡ true → can_run j ≡ true → prio y ≤ prio j)
unfolding first_eligible
first_eligible-urgent prio can_run [] y s e = absurd (ground arith)
first_eligible-urgent prio can_run (x ∷ xs) y s e = elim (Bool-cases (can_run x)) [
  | inl p ↦ (ground arith, ground arith, λ j m c. ground (arith, AtLeast-mem prio (prio x) j xs))
  | inr p ↦
      let ih = first_eligible-urgent prio can_run xs y s.1 (ground arith) in
      (ground arith, ih.1, λ j m c. ground (arith, ih.2 j))
]

-- No task is found only if none can run.
pub first_eligible-none :
    (can_run : ℕ → Bool) (xs : List ℕ)
    → first_eligible can_run xs ≡ none
    → (j : ℕ) → mem j xs ≡ true
    → can_run j ≡ false
unfolding first_eligible
first_eligible-none can_run [] e j m = absurd (ground arith)
first_eligible-none can_run (x ∷ xs) e j m =
    ground (arith, first_eligible-none can_run xs (ground arith) j)

pub first_eligible-mem :
    (test : ℕ → Bool) (xs : List ℕ) (t : ℕ) → first_eligible test xs ≡ some t → mem t xs ≡ true
unfolding first_eligible
first_eligible-mem test [] t e = absurd (ground arith)
first_eligible-mem test (x ∷ xs) t e = ground (arith, first_eligible-mem test xs t)
