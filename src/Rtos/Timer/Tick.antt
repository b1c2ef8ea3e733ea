-- ===== src/Rtos/Timer/Tick.antt =====
-- What a tick does to the active timers.
use pico_toolkit.Base.{
  ℕ, zero, suc, ◌+◌, ◌%◌, ◌^◌, ◌≤◌, ◌<◌, ◌≡◌, ◌⊎◌, inl, inr, refl, Bool, true, false, Option, some,
  List, [], ◌∷◌, arith, leb, if◌then◌else◌, mem, Distinct, length, Bool-cases, sym, subst,
}
use pico_toolkit.Scheduler.Queue.Order.{
  AtLeast, AtLeast-weaken, Sorted, enqueue-Distinct, enqueue-Sorted, Sorted-congr,
}
use pico_toolkit.Rtos.Timer.{
  Timers, target_of, with_target, insert, posts, expire, tick_on, tick_loop, tick_hook,
}

-- The active timers are in the order of their targets, each once.
pub record Valid (s : Timers) : Type 0 where
  pub sorted : Sorted (target_of s) s.active
  pub once : Distinct s.active

pub Valid-if : (b : Bool) {s u : Timers} → Valid s → Valid u → Valid (if b then s else u)
Valid-if true v w = v
Valid-if false v w = w

-- Posted were no more timers than the queue takes; the timers are valid, and the queue is full or no
-- target has come.
pub data Ticked (now room : ℕ) : Option (List ℕ × Timers) → Type 0 where
  ticked :
      {ts : List ℕ} {s : Timers}
      → length ts ≤ room
      → Valid s
      → (length ts ≡ room) ⊎ AtLeast (target_of s) (suc now) s.active
      → Ticked now room (some (ts, s))

posts-Ticked :
    {now room : ℕ} (t : ℕ) {r : Option (List ℕ × Timers)}
    → Ticked now room r
    → Ticked now (suc room) (posts t r)
posts-Ticked t (ticked few v (inl full)) = ticked (omega arith) v (inl (omega (arith, full)))
posts-Ticked t (ticked few v (inr later)) = ticked (omega arith) v (inr later)

module _ (s : Timers) (t : ℕ) (ts : List ℕ) (active : s.active ≡ t ∷ ts) (v : Valid s) where
  pub insert-Valid : (target : ℕ) → Valid (insert t ts (with_target t target s))
  insert-Valid target =
      let d : Distinct (t ∷ ts) = subst Distinct active v.once in
      let o : Sorted (target_of s) (t ∷ ts) = subst (Sorted (target_of s)) active v.sorted in
      let s' : Timers = with_target t target s in
      let same : (j : ℕ) → mem j ts ≡ true → target_of s j ≡ target_of s' j =
        λ j m. ground (arith, d.0, m) in
      record {
        sorted =
            enqueue-Sorted (target_of s') t ts
              (Sorted-congr (target_of s) (target_of s') ts same o.1);
        once = enqueue-Distinct (target_of s') t ts d.0 d.1;
      }

  pub rest-Valid : Valid (record s { active = ts })
  rest-Valid = record {
    sorted = (subst (Sorted (target_of s)) active v.sorted).1;
    once = (subst Distinct active v.once).1;
  }

  pub rest-later : (now : ℕ) → now < target_of s t → AtLeast (target_of s) (suc now) s.active
  rest-later now h =
      let o : Sorted (target_of s) (t ∷ ts) = subst (Sorted (target_of s)) active v.sorted in
      subst (AtLeast (target_of s) (suc now)) (sym active)
        (omega arith, AtLeast-weaken (target_of s) (suc now) (target_of s t) ts (omega arith) o.0)

  expire-Ticked :
      (now room : ℕ) (next : ℕ → Timers → Option (List ℕ × Timers))
      → ((r : ℕ) → r < room → (u : Timers) → Valid u → Ticked now r (next r u))
      → Ticked now room (expire room next now t ts s)
  expire-Ticked now zero next ih = ticked (omega arith) (insert-Valid now) (inl refl)
  expire-Ticked now (suc room) next ih = posts-Ticked t (
      ih room (omega arith) _ (
        Valid-if (s.timer t).is_periodic (insert-Valid ((now + (s.timer t).ticks) % 2 ^ 32))
          rest-Valid))

tick_on-Ticked :
    (now room : ℕ) (next : ℕ → Timers → Option (List ℕ × Timers)) (s : Timers) (xs : List ℕ)
    → s.active ≡ xs
    → Valid s
    → ((r : ℕ) → r < room → (u : Timers) → Valid u → Ticked now r (next r u))
    → Ticked now room (tick_on next now room s xs)
tick_on-Ticked now room next s [] e v ih =
    ticked (omega arith) v (inr (subst (AtLeast (target_of s) (suc now)) (sym e) tt))
tick_on-Ticked now room next s (t ∷ ts) e v ih = elim (Bool-cases (leb (target_of s t) now)) [
  | inl due ↦ rw due (expire-Ticked s t ts e v now room next ih)
  | inr not_due ↦
      rw not_due (ticked (omega arith) v (inr (rest-later s t ts e v now (ground arith))))
]

tick_loop-Ticked :
    (fuel now room : ℕ) (s : Timers)
    → room < fuel
    → Valid s
    → Ticked now room (tick_loop fuel now room s)
unfolding tick_loop
tick_loop-Ticked zero now room s h v = absurd (omega arith)
tick_loop-Ticked (suc fuel) now room s h v =
    tick_on-Ticked now room (tick_loop fuel now) s s.active refl v
      (λ r l u w. tick_loop-Ticked fuel now r u (omega arith) w)

-- On valid timers the tick hook of the first core ends: it posts no more timers than the queue takes,
-- the timers stay in the order of their targets, each once, and unless the queue is full no active
-- timer is left whose target has come.
pub tick_hook-Ticked :
    (now room : ℕ) (s : Timers) → Valid s → Ticked now room (tick_hook 0 now room s)
unfolding tick_hook
tick_hook-Ticked now room s v = tick_loop-Ticked (suc room) now room s (omega arith) v
