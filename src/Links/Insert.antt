-- ===== src/Links/Insert.antt =====
-- The insertions of linked-list.h, as insertions into the sequence of nodes.
use pico_toolkit.Base.{
  ℕ, ◌≡◌, ◌≢◌, refl, sym, subst, true, false, List, [], ◌∷◌, ◌++◌, append-nil, append_assoc, arith,
  ◌==◌, if◌then◌else◌, mem, Distinct, mem-append,
}
use pico_toolkit.Links.{Heap, list_init, list_insert_after, list_insert_before, list_add, list_push}
use pico_toolkit.Links.Ring.{
  Seg, Ring, SameOutside, Seg-frame, Seg-split, Seg-join, Seg-last-mem, Seg-first-mem,
  Distinct-apart, Distinct-append, Distinct-insert, Distinct-middle,
}

-- `n` has been put between `p` and `e`, and no other pointer has changed.
pub record Spliced (p n e : ℕ) (h g : Heap) : Type 0 where
  pub next_is : (j : ℕ) → g.next j ≡ (if p == j then n else if n == j then e else h.next j)
  pub prev_is : (j : ℕ) → g.prev j ≡ (if e == j then n else if n == j then p else h.prev j)

pub list_insert_before-Spliced :
    (h : Heap) (e n : ℕ)
    → n ≢ e
    → n ≢ h.prev e
    → Spliced (h.prev e) n e h (list_insert_before e n h)
unfolding list_insert_before
list_insert_before-Spliced h e n ne np = record {
  next_is = λ j. ground arith;
  prev_is = λ j. ground arith;
}

pub list_insert_after-Spliced :
    (h : Heap) (a n : ℕ) → n ≢ a → n ≢ h.next a → Spliced a n (h.next a) h (list_insert_after a n h)
unfolding list_insert_after
list_insert_after-Spliced h a n na ne = record {
  next_is = λ j. ground arith;
  prev_is = λ j. ground arith;
}

Spliced-SameOutside :
    {p n e : ℕ} {h g : Heap} → Spliced p n e h g → SameOutside (p ∷ n ∷ e ∷ []) h g
Spliced-SameOutside s = record {
  next_same = λ j m. ground (arith, s.next_is j);
  prev_same = λ j m. ground (arith, s.prev_is j);
}

-- At the end of a segment.
Seg-splice :
    (h g : Heap) (a : ℕ) (xs : List ℕ) (n e : ℕ)
    → Spliced (h.prev e) n e h g
    → Seg h a xs e
    → Distinct (a ∷ xs)
    → mem e xs ≡ false
    → mem n (a ∷ xs) ≡ false
    → n ≢ e
    → Seg g a (xs ++ n ∷ []) e
Seg-splice h g a [] n e sp s d me mn ne =
    ground (arith, sp.next_is a, sp.prev_is n, sp.next_is n, sp.prev_is e)
Seg-splice h g a (x ∷ xs) n e sp s d me mn ne = (
  ground (arith, sp.next_is a, Seg-last-mem h x xs e s.2),
  ground (arith, sp.prev_is x),
  Seg-splice h g x xs n e sp s.2 d.1 (ground arith) (ground arith) ne,
)

-- Before the head of the list is the end of the sequence.
Ring-splice_end :
    (h g : Heap) (l : ℕ) (xs : List ℕ) (n : ℕ)
    → Spliced (h.prev l) n l h g
    → Ring h l xs
    → mem n (l ∷ xs) ≡ false
    → Ring g l (xs ++ n ∷ [])
Ring-splice_end h g l xs n sp r mn = record {
  seg = Seg-splice h g l xs n l sp r.seg r.apart r.apart.0 mn (ground arith);
  apart = (
    ground (arith, mem-append l xs (n ∷ []), r.apart.0),
    Distinct-insert n xs [] (subst (λ zs. mem n zs ≡ false) (sym (append-nil xs)) (ground arith))
        (subst Distinct (sym (append-nil xs)) r.apart.1),
  );
}

Ring-splice_before :
    (h g : Heap) (l : ℕ) (xs : List ℕ) (e : ℕ) (ys : List ℕ) (n : ℕ)
    → Spliced (h.prev e) n e h g
    → Ring h l (xs ++ e ∷ ys)
    → mem n (l ∷ xs ++ e ∷ ys) ≡ false
    → Ring g l (xs ++ n ∷ e ∷ ys)
Ring-splice_before h g l xs e ys n sp r mn =
    let (s, t) = Seg-split h l xs e ys l r.seg in
    let (dl, de) = Distinct-append (l ∷ xs) (e ∷ ys) r.apart in
    let (me, me') = Distinct-middle e (l ∷ xs) ys r.apart in
    record {
      seg =
          subst (λ zs. Seg g l zs l) (append_assoc xs (n ∷ []) (e ∷ ys))
            (Seg-join g l (xs ++ n ∷ []) e ys l
              (Seg-splice h g l xs n e sp s dl (ground arith)
                (ground (arith, mem-append n xs (e ∷ ys)))
                (ground (arith, mem-append n xs (e ∷ ys))))
              (Seg-frame h g e ys l
                (λ j m. ground (
                  arith,
                  sp.next_is j,
                  Seg-last-mem h l xs e s,
                  Distinct-apart (h.prev e) (l ∷ xs) (e ∷ ys) r.apart,
                  mem-append n xs (e ∷ ys),
                ))
                (λ j m. ground (arith, sp.prev_is j, mem-append n xs (e ∷ ys))) t));
      apart = Distinct-insert n (l ∷ xs) (e ∷ ys) mn r.apart;
    }

-- The node that follows `a`, an entry or the head, and what the splice after `a` then gives.
Ring-splice_after :
    (h g : Heap) (l : ℕ) (xs : List ℕ) (a : ℕ) (ys : List ℕ) (n : ℕ)
    → Spliced a n (h.next a) h g
    → Ring h l (xs ++ a ∷ ys)
    → mem n (l ∷ xs ++ a ∷ ys) ≡ false
    → Ring g l (xs ++ a ∷ n ∷ ys)
Ring-splice_after h g l xs a [] n sp r mn =
    let (s, t) = Seg-split h l xs a [] l r.seg in
    subst (Ring g l) (append_assoc xs (a ∷ []) (n ∷ [])) (
      Ring-splice_end h g l (xs ++ a ∷ []) n
        (subst (λ b. Spliced b n l h g) (sym t.1) (subst (λ b. Spliced a n b h g) t.0 sp)) r mn)
Ring-splice_after h g l xs a (y ∷ ys) n sp r mn =
    let (s, t) = Seg-split h l xs a (y ∷ ys) l r.seg in
    subst (Ring g l) (append_assoc xs (a ∷ []) (n ∷ y ∷ ys)) (
      Ring-splice_before h g l (xs ++ a ∷ []) y ys n
        (subst (λ b. Spliced b n y h g) (sym t.1) (subst (λ b. Spliced a n b h g) t.0 sp))
        (subst (Ring h l) (sym (append_assoc xs (a ∷ []) (y ∷ ys))) r)
        (subst (λ zs. mem n (l ∷ zs) ≡ false) (sym (append_assoc xs (a ∷ []) (y ∷ ys))) mn))

Ring-splice_front :
    (h g : Heap) (l : ℕ) (xs : List ℕ) (n : ℕ)
    → Spliced l n (h.next l) h g
    → Ring h l xs
    → mem n (l ∷ xs) ≡ false
    → Ring g l (n ∷ xs)
Ring-splice_front h g l [] n sp r mn =
    Ring-splice_end h g l [] n
      (subst (λ b. Spliced b n l h g) (sym r.seg.1) (subst (λ b. Spliced l n b h g) r.seg.0 sp)) r
      mn
Ring-splice_front h g l (x ∷ xs) n sp r mn =
    Ring-splice_before h g l [] x xs n
      (subst (λ b. Spliced b n x h g) (sym r.seg.1) (subst (λ b. Spliced l n b h g) r.seg.0 sp)) r
      mn

-- The neighbours of a new node are nodes of the list.
Ring-prev-mem :
    (h : Heap) (l : ℕ) (xs : List ℕ) (e : ℕ) (ys : List ℕ)
    → Ring h l (xs ++ e ∷ ys)
    → mem (h.prev e) (l ∷ xs ++ e ∷ ys) ≡ true
Ring-prev-mem h l xs e ys r =
    let (s, t) = Seg-split h l xs e ys l r.seg in
    ground (arith, Seg-last-mem h l xs e s, mem-append (h.prev e) xs (e ∷ ys))

Ring-next-mem :
    (h : Heap) (l : ℕ) (xs : List ℕ) (a : ℕ) (ys : List ℕ)
    → Ring h l (xs ++ a ∷ ys)
    → mem (h.next a) (l ∷ xs ++ a ∷ ys) ≡ true
Ring-next-mem h l xs a ys r =
    let (s, t) = Seg-split h l xs a ys l r.seg in
    ground (arith, Seg-first-mem h a ys l t, mem-append (h.next a) xs (a ∷ ys))

not-mem-ne : (n a : ℕ) (xs : List ℕ) → mem n xs ≡ false → mem a xs ≡ true → n ≢ a
not-mem-ne n a xs out i e = cc

-- `list_init` makes an empty list of any node.
pub list_init-Ring : (h : Heap) (l : ℕ) → Ring (list_init l h) l []
unfolding list_init
list_init-Ring h l = record { seg = (ground arith, ground arith); apart = (refl, tt) }

-- `list_insert_before` puts a node that is not in the list directly before an entry.
pub list_insert_before-Ring :
    {h : Heap} {l : ℕ} (xs : List ℕ) (e : ℕ) (ys : List ℕ) (n : ℕ)
    → Ring h l (xs ++ e ∷ ys)
    → mem n (l ∷ xs ++ e ∷ ys) ≡ false
    → Ring (list_insert_before e n h) l (xs ++ n ∷ e ∷ ys)
list_insert_before-Ring {h} {l} xs e ys n r out =
    Ring-splice_before h _ l xs e ys n
      (list_insert_before-Spliced h e n (ground (arith, mem-append n xs (e ∷ ys)))
        (not-mem-ne n (h.prev e) (l ∷ xs ++ e ∷ ys) out (Ring-prev-mem h l xs e ys r)))
      r out

-- `list_insert_after` puts a node that is not in the list directly after an entry.
pub list_insert_after-Ring :
    {h : Heap} {l : ℕ} (xs : List ℕ) (a : ℕ) (ys : List ℕ) (n : ℕ)
    → Ring h l (xs ++ a ∷ ys)
    → mem n (l ∷ xs ++ a ∷ ys) ≡ false
    → Ring (list_insert_after a n h) l (xs ++ a ∷ n ∷ ys)
list_insert_after-Ring {h} {l} xs a ys n r out =
    Ring-splice_after h _ l xs a ys n
      (list_insert_after-Spliced h a n (ground (arith, mem-append n xs (a ∷ ys)))
        (not-mem-ne n (h.next a) (l ∷ xs ++ a ∷ ys) out (Ring-next-mem h l xs a ys r)))
      r out

-- `list_add` appends a new node to the list.
pub list_add-Ring :
    {h : Heap} {l : ℕ} {xs : List ℕ} (n : ℕ)
    → Ring h l xs
    → mem n (l ∷ xs) ≡ false
    → Ring (list_add l n h) l (xs ++ n ∷ [])
unfolding list_add list_insert_before
list_add-Ring {h} {l} {xs} n r out =
    Ring-splice_end h _ l xs n
      (list_insert_before-Spliced h l n (ground arith)
        (not-mem-ne n (h.prev l) (l ∷ xs) out (Seg-last-mem h l xs l r.seg)))
      r out

-- `list_push` puts a new node in front of the list.
pub list_push-Ring :
    {h : Heap} {l : ℕ} {xs : List ℕ} (n : ℕ)
    → Ring h l xs
    → mem n (l ∷ xs) ≡ false
    → Ring (list_push l n h) l (n ∷ xs)
unfolding list_push list_insert_after
list_push-Ring {h} {l} {xs} n r out =
    Ring-splice_front h _ l xs n
      (list_insert_after-Spliced h l n (ground arith)
        (not-mem-ne n (h.next l) (l ∷ xs) out (Seg-first-mem h l xs l r.seg)))
      r out
