-- ===== src/Links/Ring.antt =====
-- What a list head stands for: the nodes that its `next` pointers lead through, with the `prev`
-- pointers leading back through the same nodes.
use pico_toolkit.Base.{
  ℕ, ◌≡◌, refl, ◌∙◌, true, false, ◌||◌, List, [], ◌∷◌, ◌++◌, arith, ◌==◌, mem, Distinct, mem-append,
}
use pico_toolkit.Links.{Heap}

-- From `a` through the nodes `xs` to `b`, both ways.
abbrev pub Seg : Heap → ℕ → List ℕ → ℕ → Type 0
Seg h a [] b = (h.next a ≡ b) × (h.prev b ≡ a)
Seg h a (x ∷ xs) b = (h.next a ≡ x) × (h.prev x ≡ a) × Seg h x xs b

-- The circular list with head `l` that links the nodes `xs`, front first.
pub record Ring (h : Heap) (l : ℕ) (xs : List ℕ) : Type 0 where
  pub seg : Seg h l xs l
  pub apart : Distinct (l ∷ xs)

-- A node that is in no list.
pub record IsSelf (h : Heap) (n : ℕ) : Type 0 where
  pub next_self : h.next n ≡ n
  pub prev_self : h.prev n ≡ n

-- Nothing outside the nodes `ns` differs.
pub record SameOutside (ns : List ℕ) (h g : Heap) : Type 0 where
  pub next_same : (j : ℕ) → mem j ns ≡ false → g.next j ≡ h.next j
  pub prev_same : (j : ℕ) → mem j ns ≡ false → g.prev j ≡ h.prev j

-- A segment is a fact about the `next` pointers of all but its end, and the `prev` pointers of all
-- but its start.
pub Seg-frame :
    (h g : Heap) (a : ℕ) (xs : List ℕ) (b : ℕ)
    → ((j : ℕ) → mem j (a ∷ xs) ≡ true → g.next j ≡ h.next j)
    → ((j : ℕ) → ((j == b) || mem j xs) ≡ true → g.prev j ≡ h.prev j)
    → Seg h a xs b
    → Seg g a xs b
Seg-frame h g a [] b p q s = (p a (ground arith) ∙ s.0, q b (ground arith) ∙ s.1)
Seg-frame h g a (x ∷ xs) b p q s = (
  p a (ground arith) ∙ s.0,
  q x (ground arith) ∙ s.1,
  Seg-frame h g x xs b (λ j m. p j (ground arith)) (λ j m. q j (ground arith)) s.2,
)

-- A list keeps its nodes under a change elsewhere.
pub Ring-frame :
    {h g : Heap} {l : ℕ} {xs : List ℕ} (ns : List ℕ)
    → SameOutside ns h g
    → ((j : ℕ) → mem j (l ∷ xs) ≡ true → mem j ns ≡ false)
    → Ring h l xs
    → Ring g l xs
Ring-frame {h} {g} {l} {xs} ns same out r = record {
  seg =
      Seg-frame h g l xs l (λ j m. same.next_same j (out j m))
        (λ j m. same.prev_same j (out j (ground arith))) r.seg;
  apart = r.apart;
}

pub Seg-split :
    (h : Heap) (a : ℕ) (xs : List ℕ) (e : ℕ) (ys : List ℕ) (b : ℕ)
    → Seg h a (xs ++ e ∷ ys) b
    → Seg h a xs e × Seg h e ys b
Seg-split h a [] e ys b s = ((s.0, s.1), s.2)
Seg-split h a (x ∷ xs) e ys b s = let (p, q) = Seg-split h x xs e ys b s.2 in ((s.0, s.1, p), q)

pub Seg-join :
    (h : Heap) (a : ℕ) (xs : List ℕ) (e : ℕ) (ys : List ℕ) (b : ℕ)
    → Seg h a xs e
    → Seg h e ys b
    → Seg h a (xs ++ e ∷ ys) b
Seg-join h a [] e ys b p q = (p.0, p.1, q)
Seg-join h a (x ∷ xs) e ys b p q = (p.0, p.1, Seg-join h x xs e ys b p.2 q)

-- The node before the end of a segment is its start or one of its nodes, and leads to the end.
pub Seg-last-mem :
    (h : Heap) (a : ℕ) (xs : List ℕ) (b : ℕ) → Seg h a xs b → mem (h.prev b) (a ∷ xs) ≡ true
Seg-last-mem h a [] b s = ground arith
Seg-last-mem h a (x ∷ xs) b s = ground (arith, Seg-last-mem h x xs b s.2)

pub Seg-last-next : (h : Heap) (a : ℕ) (xs : List ℕ) (b : ℕ) → Seg h a xs b → h.next (h.prev b) ≡ b
Seg-last-next h a [] b s = ground arith
Seg-last-next h a (x ∷ xs) b s = Seg-last-next h x xs b s.2

-- The node after the start is the end or one of the nodes, and leads back to the start.
pub Seg-first-mem :
    (h : Heap) (a : ℕ) (xs : List ℕ) (b : ℕ)
    → Seg h a xs b
    → ((h.next a == b) || mem (h.next a) xs) ≡ true
Seg-first-mem h a [] b s = ground arith
Seg-first-mem h a (x ∷ xs) b s = ground arith

pub Seg-first-prev : (h : Heap) (a : ℕ) (xs : List ℕ) (b : ℕ) → Seg h a xs b → h.prev (h.next a) ≡ a
Seg-first-prev h a [] b s = ground arith
Seg-first-prev h a (x ∷ xs) b s = ground arith

-- Distinctness of a list with a node in its middle.
pub Distinct-append : (xs ys : List ℕ) → Distinct (xs ++ ys) → Distinct xs × Distinct ys
Distinct-append [] ys d = (tt, d)
Distinct-append (x ∷ xs) ys d =
    let (p, q) = Distinct-append xs ys d.1 in ((ground (arith, mem-append x xs ys), p), q)

pub Distinct-apart :
    (j : ℕ) (xs ys : List ℕ) → Distinct (xs ++ ys) → mem j xs ≡ true → mem j ys ≡ false
Distinct-apart j [] ys d m = absurd (ground arith)
Distinct-apart j (x ∷ xs) ys d m = ground (arith, mem-append x xs ys, Distinct-apart j xs ys d.1)

pub Distinct-insert :
    (n : ℕ) (xs ys : List ℕ)
    → mem n (xs ++ ys) ≡ false
    → Distinct (xs ++ ys)
    → Distinct (xs ++ n ∷ ys)
Distinct-insert n [] ys m d = (m, d)
Distinct-insert n (x ∷ xs) ys m d = (
  ground (arith, mem-append x xs ys, mem-append x xs (n ∷ ys)),
  Distinct-insert n xs ys (ground arith) d.1,
)

pub Distinct-drop : (n : ℕ) (xs ys : List ℕ) → Distinct (xs ++ n ∷ ys) → Distinct (xs ++ ys)
Distinct-drop n [] ys d = d.1
Distinct-drop n (x ∷ xs) ys d =
    (ground (arith, mem-append x xs ys, mem-append x xs (n ∷ ys)), Distinct-drop n xs ys d.1)

pub Distinct-middle :
    (e : ℕ) (xs ys : List ℕ) → Distinct (xs ++ e ∷ ys) → (mem e xs ≡ false) × (mem e ys ≡ false)
Distinct-middle e [] ys d = (refl, d.0)
Distinct-middle e (x ∷ xs) ys d =
    let (p, q) = Distinct-middle e xs ys d.1 in (ground (arith, mem-append x xs (e ∷ ys)), q)
