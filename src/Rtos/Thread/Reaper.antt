-- ===== src/Rtos/Thread/Reaper.antt =====
-- What a call of the reaper leaves.
use pico_toolkit.Base.{
  ℕ, ◌≡◌, refl, ap, ◌∙◌, true, false, some, List, [], ◌∷◌, mem, Distinct, arith, Bool-cases, inl,
  inr, All,
}
use pico_toolkit.Rtos.{ok, Context, context_is_valid, is_resource_valid}
use pico_toolkit.Rtos.Thread.{Thread, Threads, valid, thread_marker}
use pico_toolkit.Rtos.Thread.End.{Helpers, gather, reap, after_clean, after_gather}
use pico_toolkit.Rtos.Thread.Cleanup.{
  staying, reaped, releases, gather_lem, cleaned_all, AllEnded, clean_all_lem,
  cleaned_all-registered, cleaned_all-kept, cleaned_all-gone, cleaned_all-released, Helpful,
}

-- In a state that differs in reaped threads only, a second look finds nothing to reap.
gather-again :
    (ts : List ℕ) (s s2 : Threads)
    → All (λ t. valid t s ≡ ok) ts
    → ((j : ℕ) → (s.thread j).is_reaped ≡ false → s2.thread j ≡ s.thread j)
    → gather (staying s.thread ts) s2 ≡ some (staying s.thread ts, [])
unfolding gather
gather-again [] s s2 v kept = refl
gather-again (t ∷ ts) s s2 (v, vs) kept = elim (Bool-cases (s.thread t).is_reaped) [
  | inl e ↦ rw e (gather-again ts s s2 vs kept)
  | inr e ↦ rw e (
      rw
        (
          ap (λ th. is_resource_valid t th.marker thread_marker) (kept t e) ∙ v,
          gather-again ts s s2 vs kept,
          ap (λ th. th.is_reaped) (kept t e) ∙ e,
        )
        refl)
]

mem-reaped :
    (thread : ℕ → Thread) (ts : List ℕ) (j : ℕ)
    → (thread j).is_reaped ≡ false
    → mem j (reaped thread ts) ≡ false
mem-reaped thread [] j e = refl
mem-reaped thread (t ∷ ts) j e = ground (arith, e, mem-reaped thread ts j e)

mem-reaped_sub :
    (thread : ℕ → Thread) (ts : List ℕ) (j : ℕ)
    → mem j ts ≡ false
    → mem j (reaped thread ts) ≡ false
mem-reaped_sub thread [] j m = refl
mem-reaped_sub thread (t ∷ ts) j m = ground (arith, m, mem-reaped_sub thread ts j)

reaped-Distinct : (thread : ℕ → Thread) (ts : List ℕ) → Distinct ts → Distinct (reaped thread ts)
reaped-Distinct thread [] d = tt
reaped-Distinct thread (t ∷ ts) (new, d) =
    ground (arith, mem-reaped_sub thread ts t new, reaped-Distinct thread ts d)

-- What the reaper leaves.
pub record Reaped (s s' : Threads) : Type 0 where
  pub stay : s'.registered ≡ staying s.thread s.registered
  pub freed : s'.released ≡ releases s.thread (reaped s.thread s.registered) s.released
  pub gone : (j : ℕ) → mem j (reaped s.thread s.registered) ≡ true → (s'.thread j).marker ≡ 0
  pub kept : (j : ℕ) → mem j (reaped s.thread s.registered) ≡ false → s'.thread j ≡ s.thread j

abbrev left : Threads → Threads
left s = record s { registered = staying s.thread s.registered }

-- The state after the clean-up of the threads `r`.
abbrev final : Threads → List ℕ → Threads
final s r = record (cleaned_all r (left s)) { registered = staying s.thread s.registered }

second_turn :
    (c : Context) (h : ℕ → Helpers) (s : Threads) (r : List ℕ)
    → All (λ t. valid t s ≡ ok) s.registered
    → ((j : ℕ) → (s.thread j).is_reaped ≡ false → mem j r ≡ false)
    → reap c h 1 (cleaned_all r (left s)) ≡ some (final s r)
unfolding reap
second_turn c h s r v out =
    let s2 = cleaned_all r (left s) in
    ap (after_gather c h (reap c h 0) s2) (
      ap (λ l. gather l s2) (cleaned_all-registered r (left s))
      ∙ gather-again s.registered s s2 v (λ j f. cleaned_all-kept r (left s) j (out j f)))

settled :
    (c : Context) (h : ℕ → Helpers) (s : Threads) (r : List ℕ)
    → context_is_valid false 0 c ≡ ok
    → ((t : ℕ) → Helpful (h t))
    → All (λ t. valid t s ≡ ok) s.registered
    → Distinct r
    → AllEnded r s
    → ((j : ℕ) → (s.thread j).is_reaped ≡ false → mem j r ≡ false)
    → after_gather c h (reap c h 1) s (some (staying s.thread s.registered, r)) ≡ some (final s r)
unfolding cleaned_all
settled c h s [] i hh v d e out = refl
settled c h s (t ∷ ts) i hh v d e out =
    ap (after_clean (reap c h 1)) (clean_all_lem c h (t ∷ ts) (left s) i hh d e)
    ∙ second_turn c h s (t ∷ ts) v out

-- A call of the reaper, when the registered threads are valid and registered once each, and what it
-- calls for those marked for reaping succeeds: it ends after at most two looks; the marked threads
-- are out of the kernel's list and invalid, their memory is released if it was allocated, and no other
-- thread has changed.
pub reap-Reaped :
    (c : Context) (h : ℕ → Helpers) (s : Threads)
    → context_is_valid false 0 c ≡ ok
    → ((t : ℕ) → Helpful (h t))
    → All (λ t. valid t s ≡ ok) s.registered
    → Distinct s.registered
    → AllEnded (reaped s.thread s.registered) s
    → (s' : Threads) × (reap c h 2 s ≡ some s') × Reaped s s'
unfolding reap
reap-Reaped c h s i hh v d e =
    let r = reaped s.thread s.registered in
    (
      final s r,
      ap (after_gather c h (reap c h 1) s) (gather_lem s.registered s v)
          ∙ settled c h s r i hh v (reaped-Distinct s.thread s.registered d) e
              (mem-reaped s.thread s.registered),
      record {
        stay = refl;
        freed = cleaned_all-released r (left s);
        gone = cleaned_all-gone r (left s);
        kept = cleaned_all-kept r (left s);
      },
    )
