-- ===== src/Rtos/Timer/Restart.antt =====
-- osTimerStart on the pointers of the list of active timers, and a start of a timer that is active.
use pico_toolkit.Base.{
  ℕ, zero, suc, ◌+◌, ◌<◌, ◌≡◌, ◌≢◌, refl, false, Option, none, some, List, [], ◌∷◌, ◌++◌, arith,
  ◌==◌, ltb, if◌then◌else◌, ap, mem, mem-append, length, length-append, All,
}
use pico_toolkit.Links.{Heap, list_insert_before}
use pico_toolkit.Links.Ring.{Seg, Ring, Seg-split, Distinct-middle}

-- `list_for_each_entry`, up to the first timer with a later target: `none` while it has not ended.
unfoldable pub find_place : ℕ → (ℕ → ℕ) → ℕ → ℕ → ℕ → Heap → Option ℕ
find_place zero target list t cursor h = none
find_place (suc fuel) target list t cursor h =
    let rest = find_place fuel target list t (h.next cursor) h in
    if cursor == list
    then some list
    else if ltb (target t) (target cursor)
    then some cursor
    else rest

abbrev pub insert_at : ℕ → Heap → Option ℕ → Option Heap
insert_at t h none = none
insert_at t h (some place) = some (list_insert_before place t h)

-- The insertion of `t`, whose target is set.
unfoldable pub link_timer : ℕ → (ℕ → ℕ) → ℕ → ℕ → Heap → Option Heap
unfolding find_place
link_timer fuel target list t h = insert_at t h (find_place fuel target list t (h.next list) h)

walks_forever :
    (fuel : ℕ) (target : ℕ → ℕ) (list t u : ℕ) (h : Heap)
    → h.next t ≡ t
    → t ≢ list
    → ltb (target u) (target t) ≡ false
    → find_place fuel target list u t h ≡ none
unfolding find_place
walks_forever zero target list t u h loops ne later = refl
walks_forever (suc fuel) target list t u h loops ne later =
    let past : (t == list) ≡ false = ground arith in
    rw (past, later, loops) (walks_forever fuel target list t u h loops ne later)

-- No timer of a list has a target after that of `t`.
abbrev pub NoLater : (ℕ → ℕ) → ℕ → List ℕ → Type 0
NoLater target t ts = All (λ x. ltb (target t) (target x) ≡ false) ts

last_place :
    (target : ℕ → ℕ) (fuel list t a : ℕ) (ts : List ℕ) (h : Heap)
    → Seg h a ts list
    → mem list ts ≡ false
    → NoLater target t ts
    → length ts < fuel
    → find_place fuel target list t (h.next a) h ≡ some list
unfolding find_place
last_place target zero list t a ts h s m later f = absurd (omega arith)
last_place target (suc fuel) list t a [] h s m later f = ground (arith, s)
last_place target (suc fuel) list t a (x ∷ xs) h s m (l, later) f =
    ground (arith, s, m, l, last_place target fuel list t x xs h s.2 (ground (arith, m)) later)

-- A walk that reaches a timer linked to itself.
walks_into :
    (target : ℕ → ℕ) (fuel list t u a : ℕ) (xs : List ℕ) (h h' : Heap)
    → ((j : ℕ) → (j == t) ≡ false → h'.next j ≡ h.next j)
    → h'.next t ≡ t
    → t ≢ list
    → Seg h a xs t
    → mem list xs ≡ false
    → mem t (a ∷ xs) ≡ false
    → NoLater target u xs
    → ltb (target u) (target t) ≡ false
    → find_place fuel target list u (h'.next a) h' ≡ none
unfolding find_place
walks_into target fuel list t u a [] h h' same loops ne s m k later last =
    rw (same a (ground (arith, k)), s.0) (walks_forever fuel target list t u h' loops ne last)
walks_into target zero list t u a (x ∷ xs) h h' same loops ne s m k later last = refl
walks_into target (suc fuel) list t u a (x ∷ xs) h h' same loops ne s m k (l, later) last =
    let past : (x == list) ≡ false = ground (arith, m) in
    rw (same a (ground (arith, k)), s.0, past, l)
      (walks_into target fuel list t u x xs h h' same loops ne s.2 (ground (arith, m))
        (ground (arith, k)) later last)

-- A start of the last of the active timers `xs ++ t ∷ []`, none of which has a target after its new one,
-- links the timer to itself; then the walk for a timer whose target is not before any of theirs ends
-- on no fuel.
pub restart-loops :
    (target target' : ℕ → ℕ) (list t u : ℕ) (xs : List ℕ) (h : Heap) (fuel : ℕ)
    → Ring h list (xs ++ t ∷ [])
    → NoLater target t (xs ++ t ∷ [])
    → NoLater target' u xs
    → ltb (target' u) (target' t) ≡ false
    → (h' : Heap) × (link_timer (length xs + 2) target list t h ≡ some h')
      × (h'.next t ≡ t)
      × (find_place fuel target' list u (h'.next list) h' ≡ none)
unfolding link_timer
restart-loops target target' list t u xs h fuel ring back later last =
    let (to, from) = Seg-split h list xs t [] list ring.seg in
    let outside : mem list (xs ++ t ∷ []) ≡ false = ring.apart.0 in
    let (new, _) = Distinct-middle t xs [] ring.apart.1 in
    let parts = mem-append list xs (t ∷ []) in
    let ne : t ≢ list = λ e. ground (arith, outside, parts, e) in
    let h' : Heap = list_insert_before list t h in
    let looped : h'.next t ≡ t = unfold list_insert_before in ground (arith, from, ne) in
    let same : (j : ℕ) → (j == t) ≡ false → h'.next j ≡ h.next j =
      λ j n. unfold list_insert_before in ground (arith, from, n) in
    (
      h',
      ap (insert_at t h) (
          last_place target (length xs + 2) list t list (xs ++ t ∷ []) h ring.seg outside back
            (omega (arith, length-append xs (t ∷ [])))),
      looped,
      walks_into target' fuel list t u list xs h h' same looped ne to
          (ground (arith, outside, parts)) (ground (arith, new, ne)) later last,
    )
