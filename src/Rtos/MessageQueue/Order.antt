-- ===== src/Rtos/MessageQueue/Order.antt =====
-- Messages in the order in which a queue hands them out.
use pico_toolkit.Base.{
  ℕ, ◌≤◌, ◌<◌, ◌≡◌, refl, List, [], ◌∷◌, ◌++◌, arith, ◌==◌, ltb, if◌then◌else◌, Bool-cases, inl,
  inr,
}
use pico_toolkit.Rtos.MessageQueue.{Message}

-- A message goes before the first of lower priority.
unfoldable pub insert_message : Message → List Message → List Message
insert_message m [] = m ∷ []
insert_message m (x ∷ xs) =
    let rest = insert_message m xs in if ltb x.priority m.priority then m ∷ x ∷ xs else x ∷ rest

abbrev pub AtMost : ℕ → List Message → Type 0
AtMost p [] = Unit
AtMost p (x ∷ xs) = (x.priority ≤ p) × AtMost p xs

-- No message has a higher priority than one before it.
abbrev pub Descends : List Message → Type 0
Descends [] = Unit
Descends (x ∷ xs) = AtMost x.priority xs × Descends xs

-- The messages of one priority, in their order.
abbrev pub of_priority : ℕ → List Message → List Message
of_priority p [] = []
of_priority p (x ∷ xs) = let rest = of_priority p xs in if x.priority == p then x ∷ rest else rest

AtMost-weaken : (p r : ℕ) (xs : List Message) → p ≤ r → AtMost p xs → AtMost r xs
AtMost-weaken p r [] h a = tt
AtMost-weaken p r (x ∷ xs) h a = (omega arith, AtMost-weaken p r xs h a.1)

AtMost-insert_message :
    (p : ℕ) (m : Message) (xs : List Message)
    → m.priority ≤ p
    → AtMost p xs
    → AtMost p (insert_message m xs)
unfolding insert_message
AtMost-insert_message p m [] h a = (h, tt)
AtMost-insert_message p m (x ∷ xs) h a = ground (arith, AtMost-insert_message p m xs h a.1)

pub insert_message-Descends :
    (m : Message) (xs : List Message) → Descends xs → Descends (insert_message m xs)
unfolding insert_message
insert_message-Descends m [] d = (tt, tt)
insert_message-Descends m (x ∷ xs) d = elim (Bool-cases (ltb x.priority m.priority)) [
  | inl e ↦ rw e ((ground arith, AtMost-weaken x.priority m.priority xs (ground arith) d.0), d)
  | inr e ↦
      rw e
        (AtMost-insert_message x.priority m xs (ground arith) d.0, insert_message-Descends m xs d.1)
]

of_priority_above : (p r : ℕ) (xs : List Message) → AtMost r xs → r < p → of_priority p xs ≡ []
of_priority_above p r [] a h = refl
of_priority_above p r (x ∷ xs) a h = ground (arith, of_priority_above p r xs a.1)

-- A message comes behind those of its priority, and the others keep their order.
pub of_priority-insert_message :
    (p : ℕ) (m : Message) (xs : List Message)
    → Descends xs
    → of_priority p (insert_message m xs)
      ≡ (if m.priority == p then of_priority p xs ++ m ∷ [] else of_priority p xs)
unfolding insert_message
of_priority-insert_message p m [] d = ground arith
of_priority-insert_message p m (x ∷ xs) d =
    ground (arith, of_priority-insert_message p m xs d.1, of_priority_above p x.priority xs d.0)
