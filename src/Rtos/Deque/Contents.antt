-- ===== src/Rtos/Deque/Contents.antt =====
-- The sequence of elements that a deque holds, front first, and what its operations do to it.
use pico_toolkit.Base.{
  ℕ, zero, suc, ◌+◌, ◌-◌, ◌%◌, ◌^◌, ◌≤◌, ◌<◌, ◌≡◌, refl, sym, ap, ap₂, ◌∙◌, Bool, false, none, some,
  List, [], ◌∷◌, ◌++◌, arith, ◌==◌, leb, if◌then◌else◌, update, has_any, Bool-cases, inl, inr,
}
use pico_toolkit.Rtos.{ok}
use pico_toolkit.Rtos.Deque.{
  Call, guard, Deque, modulo, deque_inc, deque_dec, deque_is_empty, deque_is_full, place_front,
  place_back, take_front, put_back, get_front, wait_while, status, flags, flags_error, set_event,
  leaves, data_available, space_available, reset_flag, Wait, enters, Wait, enters,
}

abbrev pub next : ℕ → ℕ → ℕ
next n pos = if pos + 1 == n then 0 else pos + 1

-- The positions from one to another.
abbrev pub distance : ℕ → ℕ → ℕ → ℕ
distance n pos end = if leb pos end then end - pos else end + n - pos

abbrev pub items : ℕ → (ℕ → ℕ) → ℕ → ℕ → List ℕ
items zero buffer n pos = []
items (suc k) buffer n pos = buffer pos ∷ items k buffer n (next n pos)

abbrev pub contents : Deque → List ℕ
contents d = items (distance d.element_count d.front d.back) d.buffer d.element_count d.front

-- The element count is one for which the mask wraps, as a power of two is, and the ends are positions.
pub record Sound (d : Deque) : Type 0 where
  pub front_small : d.front < d.element_count
  pub back_small : d.back < d.element_count
  pub count_small : d.element_count < 2 ^ 32
  pub mask_small : (x : ℕ) → x < d.element_count → modulo x d.element_count ≡ x
  pub mask_top : modulo d.element_count d.element_count ≡ 0

items-update :
    (k : ℕ) (buffer : ℕ → ℕ) (n pos p v : ℕ)
    → pos < n
    → p < n
    → k ≤ distance n pos p
    → items k (update buffer p v) n pos ≡ items k buffer n pos
items-update zero buffer n pos p v a b h = refl
items-update (suc k) buffer n pos p v a b h =
    ground (arith, items-update k buffer n (next n pos) p v (ground arith) b (ground arith))

items-last :
    (k : ℕ) (buffer : ℕ → ℕ) (n pos p : ℕ)
    → pos < n
    → p < n
    → distance n pos p ≡ k
    → items (suc k) buffer n pos ≡ items k buffer n pos ++ buffer p ∷ []
items-last zero buffer n pos p a b h =
    let same : pos ≡ p = ground (arith, h) in ap (λ q. buffer q ∷ []) same
items-last (suc k) buffer n pos p a b h =
    ap (λ xs. buffer pos ∷ xs)
      (items-last k buffer n (next n pos) p (ground arith) b (ground arith))

deque_inc-next :
    {d : Deque} (pos : ℕ)
    → Sound d
    → pos < d.element_count
    → deque_inc d pos ≡ next d.element_count pos
unfolding deque_inc
deque_inc-next {d} pos s a =
    let fits : (pos + 1) % 2 ^ 32 ≡ pos + 1 = omega (arith, a, s.count_small) in
    elim (Bool-cases (pos + 1 == d.element_count)) [
      | inl e ↦
          let top : pos + 1 ≡ d.element_count = ground arith in
          rw (fits, e) (ap (λ x. modulo x d.element_count) top ∙ s.mask_top)
      | inr e ↦ rw (fits, e) (s.mask_small (pos + 1) (ground arith))
    ]

-- A put at the back of a deque that is not full adds the element behind the others.
pub place_back-contents :
    {d : Deque} (element : ℕ)
    → Sound d
    → deque_is_full d ≡ false
    → contents (place_back element d) ≡ contents d ++ element ∷ []
unfolding place_back deque_is_full deque_inc
place_back-contents {d} element s room =
    let n : ℕ = d.element_count in
    let apart : (next n d.back == d.front) ≡ false =
      ap (λ x. x == d.front) (sym (deque_inc-next d.back s s.back_small)) ∙ room in
    let more : distance n d.front (next n d.back) ≡ suc (distance n d.front d.back) =
      ground (arith, s.front_small, s.back_small) in
    let k : ℕ = distance n d.front d.back in
    let filled : ℕ → ℕ = update d.buffer d.back element in
    let here : filled d.back ≡ element = ground arith in
    rw (deque_inc-next d.back s s.back_small, more)
      (items-last k filled n d.front d.back s.front_small s.back_small refl
        ∙ ap₂ (λ xs x. xs ++ x ∷ [])
            (items-update k d.buffer n d.front d.back element s.front_small s.back_small
              (omega arith))
            here)

-- A get at the front of a deque that is not empty takes the first element.
pub take_front-contents :
    {d : Deque}
    → Sound d
    → deque_is_empty d ≡ false
    → contents d ≡ (take_front d).0 ∷ contents (take_front d).1
unfolding take_front deque_is_empty
take_front-contents {d} s some_data =
    let n : ℕ = d.element_count in
    let less : distance n d.front d.back ≡ suc (distance n (next n d.front) d.back) =
      ground (arith, s.front_small, s.back_small) in
    rw (deque_inc-next d.front s s.front_small, less) refl

abbrev pub replace_first : ℕ → List ℕ → List ℕ
replace_first v [] = []
replace_first v (x ∷ xs) = v ∷ xs

items-first :
    (k : ℕ) (buffer : ℕ → ℕ) (n pos v : ℕ)
    → pos < n
    → k < n
    → items k (update buffer pos v) n pos ≡ replace_first v (items k buffer n pos)
items-first zero buffer n pos v a b = refl
items-first (suc k) buffer n pos v a b =
    let here : update buffer pos v pos ≡ v = ground arith in
    ap₂ (λ x xs. x ∷ xs) here
      (items-update k buffer n (next n pos) pos v (ground arith) a (ground arith))

-- On a sound deque a put at the front does not add the element: it takes the place of the first,
-- and is lost if there is none.
pub place_front-contents :
    {d : Deque} (element : ℕ)
    → Sound d
    → contents (place_front element d) ≡ replace_first element (contents d)
unfolding place_front deque_dec
place_front-contents {d} element s =
    let n : ℕ = d.element_count in
    let back_again : ((d.front + 2 ^ 32 - 1) % 2 ^ 32 + 1) % 2 ^ 32 ≡ d.front =
      omega (arith, s.front_small, s.count_small) in
    rw (back_again, s.mask_small d.front s.front_small)
      (items-first (distance n d.front d.back) d.buffer n d.front element s.front_small
        (ground (arith, s.front_small, s.back_small)))

place_back-Sound : {d : Deque} (element : ℕ) → Sound d → Sound (place_back element d)
unfolding place_back
place_back-Sound {d} element s = record {
  front_small = s.front_small;
  back_small = rw (deque_inc-next d.back s s.back_small) (ground (arith, s.back_small));
  count_small = s.count_small;
  mask_small = s.mask_small;
  mask_top = s.mask_top;
}

take_front-Sound : {d : Deque} → Sound d → Sound (take_front d).1
unfolding take_front
take_front-Sound {d} s = record {
  front_small = rw (deque_inc-next d.front s s.front_small) (ground (arith, s.front_small));
  back_small = s.back_small;
  count_small = s.count_small;
  mask_small = s.mask_small;
  mask_top = s.mask_top;
}

-- The counters of waiters and the event flags are not part of what a deque holds.
frame-Sound :
    {d : Deque} (events waiters : ℕ)
    → Sound d
    → Sound (record d { events = events; waiters = waiters })
frame-Sound events waiters s = record {
  front_small = s.front_small;
  back_small = s.back_small;
  count_small = s.count_small;
  mask_small = s.mask_small;
  mask_top = s.mask_top;
}

wait_while-stop :
    (blocked : Deque → Bool) (flag : ℕ) (ws : List Wait) (d : Deque)
    → blocked d ≡ false
    → wait_while blocked flag ws d ≡ some (none, d)
unfolding wait_while
wait_while-stop blocked flag [] d e = rw e refl
wait_while-stop blocked flag (w ∷ ws) d e = rw e refl

-- On a sound deque with room and no reset, a valid put at the back returns at once, with the element
-- behind the others and the deque sound: the answer is osOK if setting the event succeeds, and else
-- its error, although the element is there.
pub put_back-contents :
    {d : Deque} (element : ℕ) (call : Call) (ws : List Wait)
    → Sound d
    → guard call d ≡ ok
    → has_any d.events reset_flag ≡ false
    → deque_is_full d ≡ false
    → (r : Deque) × (put_back (some element) call ws d
        ≡ some ((if has_any call.kick flags_error then flags call.kick else status ok), r))
      × (contents r ≡ contents d ++ element ∷ [])
      × Sound r
unfolding put_back deque_is_full
put_back-contents {d} element call ws s passes calm room =
    let r : Deque = set_event data_available (leaves (place_back element (enters d))) in
    (
      r,
      rw (wait_while-stop deque_is_full space_available ws (enters d) room, passes, calm) refl,
      place_back-contents element (frame-Sound d.events (d.waiters + 1) s) room,
      frame-Sound _ _ (place_back-Sound element (frame-Sound d.events (d.waiters + 1) s)),
    )

-- On a sound deque with an element and no reset, a valid get at the front returns at once with the
-- first element, and the deque, sound, holds the others: the answer is osOK if setting the event
-- succeeds, and else its error, although the element is taken.
pub get_front-contents :
    {d : Deque} (call : Call) (ws : List Wait)
    → Sound d
    → guard call d ≡ ok
    → has_any d.events reset_flag ≡ false
    → deque_is_empty d ≡ false
    → (x : ℕ) × (r : Deque) × (get_front false call ws d
        ≡ some ((if has_any call.kick flags_error then flags call.kick else status ok), some x, r))
      × (contents d ≡ x ∷ contents r)
      × Sound r
unfolding get_front deque_is_empty
get_front-contents {d} call ws s passes calm some_data =
    let taken : ℕ × Deque = take_front (enters d) in
    (
      taken.0,
      set_event space_available (leaves taken.1),
      rw (wait_while-stop deque_is_empty data_available ws (enters d) some_data, passes, calm) refl,
      take_front-contents (frame-Sound d.events (d.waiters + 1) s) some_data,
      frame-Sound _ _ (take_front-Sound (frame-Sound d.events (d.waiters + 1) s)),
    )
