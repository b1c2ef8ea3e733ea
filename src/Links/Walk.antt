-- ===== src/Links/Walk.antt =====
-- The loop of `list_size`: it visits each entry once and then meets the head again.
use pico_toolkit.Base.{
  ℕ, zero, suc, ◌+◌, ◌<◌, ◌≡◌, false, some, List, [], ◌∷◌, ◌++◌, arith, mem, length, mem-append,
}
use pico_toolkit.Links.{Heap, list_size_from, list_size, list_next, list_prev}
use pico_toolkit.Links.Ring.{Seg, Ring, Seg-split, Seg-last-mem}
use pico_toolkit.Links.Remove.{first?, last?, Seg-last?}

list_size_from-Seg :
    (fuel : ℕ) (h : Heap) (a : ℕ) (xs : List ℕ) (l size : ℕ)
    → Seg h a xs l
    → mem l xs ≡ false
    → length xs < fuel
    → list_size_from fuel l (h.next a) size h ≡ some (size + length xs)
unfolding list_size_from
list_size_from-Seg zero h a xs l size s m f = absurd (omega arith)
list_size_from-Seg (suc fuel) h a [] l size s m f = ground arith
list_size_from-Seg (suc fuel) h a (x ∷ xs) l size s m f =
    ground (arith, list_size_from-Seg fuel h x xs l (size + 1) s.2)

-- `list_size` ends, with the number of entries, on any fuel above that number.
pub list_size-Ring :
    {h : Heap} {l : ℕ} (xs : List ℕ) (fuel : ℕ)
    → Ring h l xs
    → length xs < fuel
    → list_size fuel l h ≡ some (length xs)
unfolding list_size
list_size-Ring {h} {l} xs fuel r f =
    ground (arith, list_size_from-Seg fuel h l xs l 0 r.seg r.apart.0 f)

first?-next :
    (h : Heap) (l n : ℕ) (ys : List ℕ)
    → Seg h n ys l
    → mem l ys ≡ false
    → list_next l n h ≡ first? ys
unfolding list_next
first?-next h l n [] s m = ground arith
first?-next h l n (y ∷ ys) s m = ground arith

last?-prev :
    (h : Heap) (l : ℕ) (xs : List ℕ) (n : ℕ)
    → Seg h l xs n
    → mem l xs ≡ false
    → list_prev l n h ≡ last? xs
unfolding list_prev
last?-prev h l [] n s m = ground arith
last?-prev h l (x ∷ xs) n s m =
    rw (Seg-last? h l x xs n s) (ground (arith, Seg-last-mem h x xs n s.2))

-- `list_next` and `list_prev` step through the sequence and stop at its ends.
pub list_next-prev :
    {h : Heap} {l : ℕ} (xs : List ℕ) (n : ℕ) (ys : List ℕ)
    → Ring h l (xs ++ n ∷ ys)
    → (list_next l n h ≡ first? ys) × (list_prev l n h ≡ last? xs)
list_next-prev {h} {l} xs n ys r =
    let (s, t) = Seg-split h l xs n ys l r.seg in
    (
      first?-next h l n ys t (ground (arith, mem-append l xs (n ∷ ys), r.apart.0)),
      last?-prev h l xs n s (ground (arith, mem-append l xs (n ∷ ys), r.apart.0)),
    )
