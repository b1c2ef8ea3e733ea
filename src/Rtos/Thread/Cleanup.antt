-- ===== src/Rtos/Thread/Cleanup.antt =====
-- What the reaper and a join do with threads that have ended.
use pico_toolkit.Base.{
  ℕ, ◌≡◌, refl, sym, ◌∙◌, Bool, true, false, Option, some, List, [], ◌∷◌, ◌==◌, if◌then◌else◌,
  update, mem, Distinct, arith, Bool-cases, inl, inr, All, subst,
}
use pico_toolkit.Rtos.{ok, Context, context_is_valid, is_resource_valid}
use pico_toolkit.Rtos.EventFlags as Flags
use pico_toolkit.Rtos.EventFlags.{EventFlags}
use pico_toolkit.Rtos.Thread.{Thread, Threads, valid}
use pico_toolkit.Rtos.Thread.End.{Helpers, clean, gather, clean_all}

-- A thread that a clean-up takes: valid, and nobody waits for its flags.
pub record Ended (t : ℕ) (th : Thread) : Type 0 where
  pub joiner : is_resource_valid t th.joiner.marker Flags.marker_of ≡ ok
  pub no_joiner : th.joiner.waiters ≡ 0
  pub flags : is_resource_valid t th.flags.marker Flags.marker_of ≡ ok
  pub no_waiter : th.flags.waiters ≡ 0

-- Calls that succeed.
pub record Helpful (h : Helpers) : Type 0 where
  pub robust : h.robust ≡ ok
  pub joiner_removed : h.joiner_removed ≡ ok
  pub flags_removed : h.flags_removed ≡ ok

-- The registered threads that stay, and those that are reaped.
abbrev pub staying : (ℕ → Thread) → List ℕ → List ℕ
staying thread [] = []
staying thread (t ∷ ts) =
    let rest = staying thread ts in if (thread t).is_reaped then rest else t ∷ rest

abbrev pub reaped : (ℕ → Thread) → List ℕ → List ℕ
reaped thread [] = []
reaped thread (t ∷ ts) =
    let rest = reaped thread ts in if (thread t).is_reaped then t ∷ rest else rest

-- What is released for the threads of a list, the last first.
abbrev pub releases : (ℕ → Thread) → List ℕ → List ℕ → List ℕ
releases thread [] acc = acc
releases thread (t ∷ ts) acc = releases thread ts (if (thread t).is_dynamic then t ∷ acc else acc)

both_if :
    (b : Bool) (t : ℕ) (xs ys : List ℕ)
    → ◌≡◌ {A = Option (List ℕ × List ℕ)}
        (some (if b then (xs, t ∷ ys) else (t ∷ xs, ys)))
        (some ((if b then xs else t ∷ xs), (if b then t ∷ ys else ys)))
both_if true t xs ys = refl
both_if false t xs ys = refl

pub gather_lem :
    (ts : List ℕ) (s : Threads)
    → All (λ t. valid t s ≡ ok) ts
    → gather ts s ≡ some (staying s.thread ts, reaped s.thread ts)
unfolding gather
gather_lem [] s v = refl
gather_lem (t ∷ ts) s (v, vs) =
    rw (v, gather_lem ts s vs)
      (both_if (s.thread t).is_reaped t (staying s.thread ts) (reaped s.thread ts))

unfoldable pub cleaned : ℕ → Threads → Threads
cleaned t s = record s {
  thread = update s.thread t (record (s.thread t) { marker = 0 });
  released = if (s.thread t).is_dynamic then t ∷ s.released else s.released;
}

pub clean_lem :
    (c : Context) (h : Helpers) (t : ℕ) (s : Threads)
    → context_is_valid false 0 c ≡ ok
    → Helpful h
    → Ended t (s.thread t)
    → clean c h t s ≡ (ok, cleaned t s)
unfolding clean Flags.delete cleaned
clean_lem c h t s i hh e =
    rw
      (
        hh.robust, i, e.joiner, e.no_joiner, hh.joiner_removed, e.flags, e.no_waiter,
        hh.flags_removed,
      )
      refl

unfoldable pub cleaned_all : List ℕ → Threads → Threads
cleaned_all [] s = s
cleaned_all (t ∷ ts) s = cleaned_all ts (cleaned t s)

abbrev pub AllEnded : List ℕ → Threads → Type 0
AllEnded ts s = (t : ℕ) → mem t ts ≡ true → Ended t (s.thread t)

cleaned-other : (t j : ℕ) (s : Threads) → (t == j) ≡ false → (cleaned t s).thread j ≡ s.thread j
unfolding cleaned
cleaned-other t j s h = ground arith

later-AllEnded :
    (t : ℕ) (ts : List ℕ) (s : Threads)
    → mem t ts ≡ false
    → AllEnded (t ∷ ts) s
    → AllEnded ts (cleaned t s)
later-AllEnded t ts s new e j m =
    subst (Ended j) (sym (cleaned-other t j s (apart j m))) (e j (ground (arith, m)))
  where
    apart : (j : ℕ) → mem j ts ≡ true → (t == j) ≡ false
    apart j m = elim (Bool-cases (t == j)) [ inl same ↦ ground (arith, m, new) | inr h ↦ h ]

pub clean_all_lem :
    (c : Context) (h : ℕ → Helpers) (ts : List ℕ) (s : Threads)
    → context_is_valid false 0 c ≡ ok
    → ((t : ℕ) → Helpful (h t))
    → Distinct ts
    → AllEnded ts s
    → clean_all c h ts s ≡ some (cleaned_all ts s)
unfolding clean_all cleaned_all
clean_all_lem c h [] s i hh d e = refl
clean_all_lem c h (t ∷ ts) s i hh (new, d) e =
    rw (clean_lem c (h t) t s i (hh t) (e t (ground arith)))
      (clean_all_lem c h ts (cleaned t s) i hh d (later-AllEnded t ts s new e))

pub cleaned_all-registered :
    (ts : List ℕ) (s : Threads) → (cleaned_all ts s).registered ≡ s.registered
unfolding cleaned_all cleaned
cleaned_all-registered [] s = refl
cleaned_all-registered (t ∷ ts) s = cleaned_all-registered ts (cleaned t s)

pub cleaned_all-kept :
    (ts : List ℕ) (s : Threads) (j : ℕ)
    → mem j ts ≡ false
    → (cleaned_all ts s).thread j ≡ s.thread j
unfolding cleaned_all
cleaned_all-kept [] s j m = refl
cleaned_all-kept (t ∷ ts) s j m =
    cleaned_all-kept ts (cleaned t s) j (ground (arith, m))
    ∙ cleaned-other t j s (ground (arith, m))

cleaned-marker :
    (t j : ℕ) (s : Threads) → (s.thread j).marker ≡ 0 → ((cleaned t s).thread j).marker ≡ 0
unfolding cleaned
cleaned-marker t j s z = ground (arith, z)

cleaned_all-marker :
    (ts : List ℕ) (s : Threads) (j : ℕ)
    → (s.thread j).marker ≡ 0
    → ((cleaned_all ts s).thread j).marker ≡ 0
unfolding cleaned_all
cleaned_all-marker [] s j z = z
cleaned_all-marker (t ∷ ts) s j z = cleaned_all-marker ts (cleaned t s) j (cleaned-marker t j s z)

cleaned_self : (t j : ℕ) (s : Threads) → (t == j) ≡ true → ((cleaned t s).thread j).marker ≡ 0
unfolding cleaned
cleaned_self t j s e = ground (arith, e)

pub cleaned_all-gone :
    (ts : List ℕ) (s : Threads) (j : ℕ) → mem j ts ≡ true → ((cleaned_all ts s).thread j).marker ≡ 0
unfolding cleaned_all
cleaned_all-gone [] s j m = ground (arith, m)
cleaned_all-gone (t ∷ ts) s j m = elim (Bool-cases (t == j)) [
  | inl e ↦ cleaned_all-marker ts (cleaned t s) j (cleaned_self t j s e)
  | inr e ↦ cleaned_all-gone ts (cleaned t s) j (ground (arith, m, e))
]

cleaned-dynamic :
    (t j : ℕ) (s : Threads) → ((cleaned t s).thread j).is_dynamic ≡ (s.thread j).is_dynamic
unfolding cleaned
cleaned-dynamic t j s = ground arith

releases-same :
    (f g : ℕ → Thread) (ts acc : List ℕ)
    → ((j : ℕ) → (f j).is_dynamic ≡ (g j).is_dynamic)
    → releases f ts acc ≡ releases g ts acc
releases-same f g [] acc e = refl
releases-same f g (t ∷ ts) acc e =
    rw (e t) (releases-same f g ts (if (g t).is_dynamic then t ∷ acc else acc) e)

pub cleaned_all-released :
    (ts : List ℕ) (s : Threads) → (cleaned_all ts s).released ≡ releases s.thread ts s.released
unfolding cleaned_all cleaned
cleaned_all-released [] s = refl
cleaned_all-released (t ∷ ts) s =
    cleaned_all-released ts (cleaned t s)
    ∙ releases-same (cleaned t s).thread s.thread ts (cleaned t s).released
        (λ j. cleaned-dynamic t j s)
