-- ===== src/Links/Remove.antt =====
-- `list_remove`, `list_pop` and the queries of linked-list.h, on the sequence of nodes.
use pico_toolkit.Base.{
  ℕ, ◌≡◌, refl, sym, ap, fun_ext, Bool, true, false, Option, none, some, List, [], ◌∷◌, ◌++◌, arith,
  ◌==◌, if◌then◌else◌, mem, Distinct, mem-append,
}
use pico_toolkit.Links.{
  Heap, list_is_empty, list_remove, list_front, list_back, list_pop, list_is_linked,
}
use pico_toolkit.Links.Ring.{
  Seg, Ring, IsSelf, SameOutside, Seg-frame, Seg-split, Seg-last-mem, Seg-first-mem,
  Distinct-middle, Distinct-drop,
}

-- `n` links to itself, its old neighbours to each other, and no other pointer has changed.
pub record Unlinked (n : ℕ) (h g : Heap) : Type 0 where
  pub next_is :
      (j : ℕ) → g.next j ≡ (if n == j then n else if h.prev n == j then h.next n else h.next j)
  pub prev_is :
      (j : ℕ) → g.prev j ≡ (if n == j then n else if h.next n == j then h.prev n else h.prev j)

pub list_remove-Unlinked : (h : Heap) (n : ℕ) → Unlinked n h (list_remove n h)
unfolding list_remove
list_remove-Unlinked h n = record { next_is = λ j. ground arith; prev_is = λ j. ground arith }

Seg-unlink :
    (h g : Heap) (a : ℕ) (xs : List ℕ) (n : ℕ) (ys : List ℕ) (b : ℕ)
    → Unlinked n h g
    → Seg h a xs n
    → Seg h n ys b
    → Distinct (a ∷ xs ++ n ∷ ys)
    → mem b (xs ++ n ∷ ys) ≡ false
    → Seg g a (xs ++ ys) b
Seg-unlink h g a [] n [] b u s t d mb = (ground (arith, u.next_is a), ground (arith, u.prev_is b))
Seg-unlink h g a [] n (y ∷ ys) b u s t d mb = (
  ground (arith, u.next_is a),
  ground (arith, u.prev_is y),
  Seg-frame h g y ys b (λ j m. ground (arith, u.next_is j)) (λ j m. ground (arith, u.prev_is j))
      t.2,
)
Seg-unlink h g a (x ∷ xs) n ys b u s t d mb = (
  ground (
    arith,
    u.next_is a,
    Seg-last-mem h x xs n s.2,
    mem-append a xs (n ∷ ys),
    mem-append (h.prev n) xs (n ∷ ys),
  ),
  ground (arith, u.prev_is x, Seg-first-mem h n ys b t, mem-append x xs (n ∷ ys)),
  Seg-unlink h g x xs n ys b u s.2 t d.1 (ground arith),
)

-- `list_remove` takes an entry out of its list, and leaves the entry linked to itself.
pub list_remove-Ring :
    {h : Heap} {l : ℕ} (xs : List ℕ) (n : ℕ) (ys : List ℕ)
    → Ring h l (xs ++ n ∷ ys)
    → Ring (list_remove n h) l (xs ++ ys) × IsSelf (list_remove n h) n
list_remove-Ring {h} {l} xs n ys r =
    let (s, t) = Seg-split h l xs n ys l r.seg in
    let u = list_remove-Unlinked h n in
    (
      record {
        seg = Seg-unlink h _ l xs n ys l u s t r.apart r.apart.0;
        apart = Distinct-drop n (l ∷ xs) ys r.apart;
      },
      record { next_self = ground (arith, u.next_is n); prev_self = ground (arith, u.prev_is n) },
    )

-- Any other list is left as it is.
pub list_remove-frame :
    {h : Heap} {l : ℕ} (xs : List ℕ) (n : ℕ) (ys : List ℕ)
    → Ring h l (xs ++ n ∷ ys)
    → SameOutside (l ∷ xs ++ n ∷ ys) h (list_remove n h)
list_remove-frame {h} {l} xs n ys r =
    let (s, t) = Seg-split h l xs n ys l r.seg in
    let u = list_remove-Unlinked h n in
    record {
      next_same = λ j m. ground (
        arith,
        u.next_is j,
        Seg-last-mem h l xs n s,
        mem-append j xs (n ∷ ys),
        mem-append (h.prev n) xs (n ∷ ys),
      );
      prev_same = λ j m. ground (
        arith,
        u.prev_is j,
        Seg-first-mem h n ys l t,
        mem-append j xs (n ∷ ys),
        mem-append (h.next n) xs (n ∷ ys),
      );
    }

-- On a node that is in no list, `list_remove` does nothing.
pub list_remove-eq_self : (h : Heap) (n : ℕ) → IsSelf h n → list_remove n h ≡ h
list_remove-eq_self h n o =
    let u = list_remove-Unlinked h n in
    λ i. record {
      next = fun_ext {f = (list_remove n h).next} {g = h.next} (λ j. ground (arith, u.next_is j)) i;
      prev = fun_ext {f = (list_remove n h).prev} {g = h.prev} (λ j. ground (arith, u.prev_is j)) i;
    }

abbrev pub is_nil : List ℕ → Bool
is_nil [] = true
is_nil (x ∷ xs) = false

abbrev pub first? : List ℕ → Option ℕ
first? [] = none
first? (x ∷ xs) = some x

abbrev pub last? : List ℕ → Option ℕ
last? [] = none
last? (x ∷ []) = some x
last? (x ∷ y ∷ ys) = last? (y ∷ ys)

abbrev pub tail : List ℕ → List ℕ
tail [] = []
tail (x ∷ xs) = xs

-- `list_is_empty` decides whether the sequence is empty.
pub list_is_empty-Ring :
    {h : Heap} {l : ℕ} (xs : List ℕ) → Ring h l xs → list_is_empty l h ≡ is_nil xs
unfolding list_is_empty
list_is_empty-Ring [] r = ground arith
list_is_empty-Ring (x ∷ xs) r = ground arith

-- `list_pop` returns the first entry, `none` on an empty list only, and leaves the rest.
pub list_pop-Ring :
    {h : Heap} {l : ℕ} (xs : List ℕ)
    → Ring h l xs
    → ((list_pop l h).0 ≡ first? xs) × Ring (list_pop l h).1 l (tail xs)
unfolding list_pop
list_pop-Ring {h} {l} [] r = rw (list_is_empty-Ring [] r) (refl, r)
list_pop-Ring {h} {l} (x ∷ xs) r =
    rw (list_is_empty-Ring (x ∷ xs) r, r.seg.0) (refl, (list_remove-Ring [] x xs r).0)

pub Seg-last? :
    (h : Heap) (a : ℕ) (x : ℕ) (xs : List ℕ) (b : ℕ)
    → Seg h a (x ∷ xs) b
    → last? (x ∷ xs) ≡ some (h.prev b)
Seg-last? h a x [] b s = ground arith
Seg-last? h a x (y ∷ ys) b s = Seg-last? h x y ys b s.2

-- `list_front` and `list_back` are the ends of the sequence.
pub list_front-back :
    {h : Heap} {l : ℕ} (xs : List ℕ)
    → Ring h l xs
    → (list_front l h ≡ first? xs) × (list_back l h ≡ last? xs)
unfolding list_front list_back
list_front-back [] r = rw (list_is_empty-Ring [] r) (refl, refl)
list_front-back {h} {l} (x ∷ xs) r =
    rw (list_is_empty-Ring (x ∷ xs) r) (ap some r.seg.0, sym (Seg-last? h l x xs l r.seg))

-- A node is linked exactly if it is an entry of its list and not alone with itself.
pub list_is_linked-Ring :
    {h : Heap} {l : ℕ} (xs : List ℕ) (n : ℕ) (ys : List ℕ)
    → Ring h l (xs ++ n ∷ ys)
    → (list_is_linked n h ≡ true) × (list_is_linked n (list_remove n h) ≡ false)
unfolding list_is_linked
list_is_linked-Ring {h} {l} xs n ys r =
    let (s, t) = Seg-split h l xs n ys l r.seg in
    let (r', o) = list_remove-Ring xs n ys r in
    (
      ground (
        arith,
        Seg-first-mem h n ys l t,
        Seg-last-mem h l xs n s,
        mem-append l xs (n ∷ ys),
        mem-append n xs (n ∷ ys),
        Distinct-middle n (l ∷ xs) ys r.apart,
      ),
      ground arith,
    )
