-- ===== src/Rtos/Timer/Posts.antt =====
-- Which timers a tick posts, and what becomes of each.
use pico_toolkit.Base.{
  ℕ, zero, suc, ◌+◌, ◌%◌, ◌^◌, ◌≤◌, ◌<◌, ◌≡◌, ◌⊎◌, inl, inr, refl, Bool, true, false, not, ◌&&◌,
  ◌||◌, Option, some, List, [], ◌∷◌, arith, leb, if◌then◌else◌, mem, Distinct, Bool-cases, sym,
  subst, ap, ◌∙◌,
}
use pico_toolkit.Scheduler.Queue.{enqueue}
use pico_toolkit.Scheduler.Queue.Order.{AtLeast, mem-enqueue}
use pico_toolkit.Rtos.Timer.{
  Timers, target_of, with_target, insert, posts, expire, tick_on, tick_loop, tick_hook,
}
use pico_toolkit.Rtos.Timer.Tick.{
  Valid, Ticked, insert-Valid, rest-Valid, rest-later, tick_hook-Ticked,
}

abbrev pub first : ℕ → List ℕ → List ℕ
first zero ts = []
first (suc n) [] = []
first (suc n) (t ∷ ts) = t ∷ first n ts

-- The timers whose target has come.
abbrev pub due : ℕ → (ℕ → ℕ) → List ℕ → List ℕ
due now target [] = []
due now target (t ∷ ts) =
    let rest = due now target ts in if leb (target t) now then t ∷ rest else rest

-- The period of an active timer is not 0, and the tick after it does not wrap.
abbrev pub Ahead : ℕ → Timers → Type 0
Ahead now s =
    (j : ℕ) → mem j s.active ≡ true → (0 < (s.timer j).ticks) × (now + (s.timer j).ticks < 2 ^ 32)

-- The timers `ts` are posted, `s` becomes `s'`.
pub record Posted (now room : ℕ) (s : Timers) (ts : List ℕ) (s' : Timers) : Type 0 where
  pub posted : ts ≡ first room (due now (target_of s) s.active)
  pub members :
      (j : ℕ) → mem j s'.active ≡ mem j s.active && (not (mem j ts) || (s.timer j).is_periodic)
  pub rearmed :
      (j : ℕ)
      → mem j ts ≡ true
      → (s.timer j).is_periodic ≡ true
      → target_of s' j ≡ now + (s.timer j).ticks
  pub kept :
      (j : ℕ)
      → mem j ts ≡ false
      → (target_of s' j ≡ target_of s j) ⊎ ((target_of s j ≤ now) × (target_of s' j ≡ now))

pub data Posts (now room : ℕ) (s : Timers) : Option (List ℕ × Timers) → Type 0 where
  ended : {ts : List ℕ} {s' : Timers} → Posted now room s ts s' → Posts now room s (some (ts, s'))

due-later :
    (now : ℕ) (target : ℕ → ℕ) (ts : List ℕ) → AtLeast target (suc now) ts → due now target ts ≡ []
due-later now target [] a = refl
due-later now target (t ∷ ts) (l, a) = ground (arith, due-later now target ts a)

due-congr :
    (now : ℕ) (target target' : ℕ → ℕ) (ts : List ℕ)
    → ((j : ℕ) → mem j ts ≡ true → target j ≡ target' j)
    → due now target ts ≡ due now target' ts
due-congr now target target' [] h = refl
due-congr now target target' (t ∷ ts) h =
    ground
      (arith, h t (ground arith), due-congr now target target' ts (λ j m. h j (ground (arith, m))))

due-enqueue :
    (now : ℕ) (target : ℕ → ℕ) (t : ℕ) (ts : List ℕ)
    → now < target t
    → due now target (enqueue target t ts) ≡ due now target ts
unfolding enqueue
due-enqueue now target t [] l = ground arith
due-enqueue now target t (x ∷ xs) l = ground (arith, due-enqueue now target t xs l)

first-nil : (room : ℕ) → first room [] ≡ []
first-nil zero = refl
first-nil (suc room) = refl

-- Nothing is done.
idle-Posted :
    (now room : ℕ) (s : Timers) → due now (target_of s) s.active ≡ [] → Posted now room s [] s
idle-Posted now room s e = record {
  posted = sym (ap (first room) e ∙ first-nil room);
  members = λ j. ground arith;
  rearmed = λ j m. ground (arith, m);
  kept = λ j m. inl refl;
}

-- The first timer `t` is due.
module _ (now : ℕ) (s : Timers) (t : ℕ) (ts : List ℕ) (active : s.active ≡ t ∷ ts) (v : Valid s)
    (h : leb (target_of s t) now ≡ true) where
  apart : mem t ts ≡ false
  apart = (subst Distinct active v.once).0

  mem-insert : (target j : ℕ) → mem j (insert t ts (with_target t target s)).active ≡ mem j s.active
  mem-insert target j =
      mem-enqueue (target_of (with_target t target s)) j t ts ∙ sym (ap (mem j) active)

  full-Posted : Posted now 0 s [] (insert t ts (with_target t now s))
  full-Posted = record {
    posted = refl;
    members = λ j. ground (arith, mem-insert now j);
    rearmed = λ j m. ground (arith, m);
    kept = λ j m. ground (arith, h);
  }

  due-first : due now (target_of s) s.active ≡ t ∷ due now (target_of s) ts
  due-first = ap (due now (target_of s)) active ∙ (rw h refl)

  -- Another timer was posted after `t`, for the timers as `t` leaves them.
  again-Posted :
      (room target : ℕ) (us : List ℕ) (s' : Timers)
      → (s.timer t).is_periodic ≡ true
      → target ≡ now + (s.timer t).ticks
      → 0 < (s.timer t).ticks
      → Posted now room (insert t ts (with_target t target s)) us s'
      → Posted now (suc room) s (t ∷ us) s'
  again-Posted room target us s' p e l q = record {
    posted =
        ap (λ xs. t ∷ xs) (q.posted ∙ ap (first room) same) ∙ sym (ap (first (suc room)) due-first);
    members = λ j. ground (arith, q.members j, mem-insert target j, p, active);
    rearmed = λ j m o. elim (Bool-cases (mem j us)) [
      | inl again ↦ ground (arith, q.rearmed j again, o, e)
      | inr once ↦ ground (arith, q.kept j once, m, e, l)
    ];
    kept = λ j m. ground (arith, q.kept j (ground (arith, m)), m);
  }
    where
      u : Timers
      u = with_target t target s

      same : due now (target_of u) (enqueue (target_of u) t ts) ≡ due now (target_of s) ts
      same =
          due-enqueue now (target_of u) t ts (ground (arith, e))
          ∙ due-congr now (target_of u) (target_of s) ts (λ j m. ground (arith, m, apart))

  over-Posted :
      (room : ℕ) (us : List ℕ) (s' : Timers)
      → (s.timer t).is_periodic ≡ false
      → Posted now room (record s { active = ts }) us s'
      → Posted now (suc room) s (t ∷ us) s'
  over-Posted room us s' p q = record {
    posted = ap (λ xs. t ∷ xs) q.posted ∙ sym (ap (first (suc room)) due-first);
    members = λ j. ground (arith, q.members j, ap (mem j) active, p, apart);
    rearmed = λ j m o. ground (arith, q.rearmed j, m, o, p);
    kept = λ j m. q.kept j (ground (arith, m));
  }

  -- The rest of the loop runs on timers `u`.
  post :
      (room : ℕ) (u : Timers) {r : Option (List ℕ × Timers)}
      → ((us : List ℕ) (s' : Timers)
          → Posted now room u us s'
          → Posted now (suc room) s (t ∷ us) s')
      → Posts now room u r
      → Posts now (suc room) s (posts t r)
  post room u f (ended {ts = us} {s' = s'} q) = ended (f us s' q)

  again-Ahead : (target : ℕ) → Ahead now s → Ahead now (insert t ts (with_target t target s))
  again-Ahead target a j m = ground (arith, a j (sym (mem-insert target j) ∙ m))

  over-Ahead : Ahead now s → Ahead now (record s { active = ts })
  over-Ahead a j m = a j (ap (mem j) active ∙ ground (arith, m))

  expire-Posts :
      (room : ℕ) (next : ℕ → Timers → Option (List ℕ × Timers))
      → ((r : ℕ) → r < room → (u : Timers) → Valid u → Ahead now u → Posts now r u (next r u))
      → Ahead now s
      → Posts now room s (expire room next now t ts s)
  expire-Posts zero next ih a = ended full-Posted
  expire-Posts (suc room) next ih a = rearm_or_drop (s.timer t).is_periodic refl
    where
      target : ℕ
      target = (now + (s.timer t).ticks) % 2 ^ 32

      rearm_or_drop :
          (b : Bool)
          → (s.timer t).is_periodic ≡ b
          → Posts now (suc room) s (
              posts t (
                next room
                  (if b then insert t ts (with_target t target s) else record s { active = ts })))
      rearm_or_drop true p =
          let (l, below) = a t (ap (mem t) active ∙ ground arith) in
          post room (insert t ts (with_target t target s))
            (λ us s' q. again-Posted room target us s' p (omega (arith, below)) l q)
            (ih room (omega arith) (insert t ts (with_target t target s))
              (insert-Valid s t ts active v target) (again-Ahead target a))
      rearm_or_drop false p =
          post room (record s { active = ts }) (λ us s' q. over-Posted room us s' p q)
            (ih room (omega arith) (record s { active = ts }) (rest-Valid s t ts active v)
              (over-Ahead a))

tick_on-Posts :
    (now room : ℕ) (next : ℕ → Timers → Option (List ℕ × Timers)) (s : Timers) (xs : List ℕ)
    → s.active ≡ xs
    → Valid s
    → Ahead now s
    → ((r : ℕ) → r < room → (u : Timers) → Valid u → Ahead now u → Posts now r u (next r u))
    → Posts now room s (tick_on next now room s xs)
tick_on-Posts now room next s [] e v a ih =
    ended (idle-Posted now room s (ap (due now (target_of s)) e))
tick_on-Posts now room next s (t ∷ ts) e v a ih = elim (Bool-cases (leb (target_of s t) now)) [
  | inl due_now ↦ rw due_now (expire-Posts now s t ts e v due_now room next ih a)
  | inr not_due ↦ rw not_due (
      ended (
        idle-Posted now room s (
          due-later now (target_of s) s.active
            (rest-later s t ts e v now (ground (arith, not_due))))))
]

tick_loop-Posts :
    (fuel now room : ℕ) (s : Timers)
    → room < fuel
    → Valid s
    → Ahead now s
    → Posts now room s (tick_loop fuel now room s)
unfolding tick_loop
tick_loop-Posts zero now room s h v a = absurd (omega arith)
tick_loop-Posts (suc fuel) now room s h v a =
    tick_on-Posts now room (tick_loop fuel now) s s.active refl v a
      (λ r l u w b. tick_loop-Posts fuel now r u (omega arith) w b)

-- On valid timers, each active one with a period that is not 0 and does not wrap from now on, the tick
-- hook of the first core ends. The timers that it posts are the active ones whose target has come, in the
-- order of their targets, up to the room of the queue. A posted periodic timer stays active, with its next
-- target a period from now, and a posted one-shot timer is active no more; no other timer becomes active
-- or stops. The target of a timer that is not posted is the one it had, or now if it had come before.
-- The timers stay valid, and unless the queue is full no active timer is left whose target has come.
pub tick_hook-Posts :
    (now room : ℕ) (s : Timers)
    → Valid s
    → Ahead now s
    → Posts now room s (tick_hook 0 now room s) × Ticked now room (tick_hook 0 now room s)
unfolding tick_hook
tick_hook-Posts now room s v a =
    (tick_loop-Posts (suc room) now room s (omega arith) v a, tick_hook-Ticked now room s v)
