-- ===== src/Atomic/Exclusion.antt =====
-- pico-atomic.c, one lock of `__atomic_lock` step by step: two cores set their bits, look at both, and
-- back off or go on, in any interleaving.
use pico_toolkit.Base.{◌≡◌, ◌≢◌, refl, Bool, true, false, not, if◌then◌else◌, arith}

-- Where a core stands: outside, before its look at the lock, with the lock, or about to back off.
pub data Phase : Type 0 where
  outside asking holding backing_off : Phase

-- The cores are `false` and `true`; the bits of the lock register, and the phases.
pub record Lock : Type 0 where
  pub bit : Bool → Bool
  pub phase : Bool → Phase

abbrev same : Bool → Bool → Bool
same true b = b
same false b = not b

abbrev on {ℓ} : {A : Type ℓ} → Bool → A → (Bool → A) → Bool → A
on c v f d = if same c d then v else f d

abbrev pub after : Bool → Bool → Phase → Lock → Lock
after c b p s = record { bit = on c b s.bit; phase = on c p s.phase }

pub data Step : Lock → Lock → Type 0 where
  set : {s : Lock} (c : Bool) → s.phase c ≡ outside → Step s (after c true asking s)
  win :
      {s : Lock} (c : Bool)
      → s.phase c ≡ asking
      → s.bit (not c) ≡ false
      → Step s (after c (s.bit c) holding s)
  lose :
      {s : Lock} (c : Bool)
      → s.phase c ≡ asking
      → s.bit (not c) ≡ true
      → Step s (after c (s.bit c) backing_off s)
  clear : {s : Lock} (c : Bool) → s.phase c ≡ backing_off → Step s (after c false outside s)
  release : {s : Lock} (c : Bool) → s.phase c ≡ holding → Step s (after c false outside s)

abbrev pub initial : Lock
initial = record { bit = λ c. false; phase = λ c. outside }

pub data Reachable : Lock → Type 0 where
  start : Reachable initial
  step : {s r : Lock} → Reachable s → Step s r → Reachable r

abbrev is_out : Phase → Bool
is_out outside = true
is_out _ = false

-- A core's bit is set while it is not outside, and one core at most holds the lock.
record Safe (s : Lock) : Type 0 where
  marked : (c : Bool) → s.bit c ≡ not (is_out (s.phase c))
  alone : (c : Bool) → s.phase c ≡ holding → s.phase (not c) ≢ holding

Step-Safe : {s r : Lock} → Step s r → Safe s → Safe r
Step-Safe {s} (set c e) v = record {
  marked = λ d. ground (arith, v.marked d);
  alone = λ d h k. ground (arith, v.alone d);
}
Step-Safe {s} (win c e o) v = record {
  marked = λ d. ground (arith, v.marked d, v.marked c);
  alone = λ d h k. ground (arith, v.alone d, v.marked (not c), o);
}
Step-Safe {s} (lose c e o) v = record {
  marked = λ d. ground (arith, v.marked d, v.marked c);
  alone = λ d h k. ground (arith, v.alone d);
}
Step-Safe {s} (clear c e) v = record {
  marked = λ d. ground (arith, v.marked d);
  alone = λ d h k. ground (arith, v.alone d);
}
Step-Safe {s} (release c e) v = record {
  marked = λ d. ground (arith, v.marked d);
  alone = λ d h k. ground (arith, v.alone d);
}

Reachable-Safe : {s : Lock} → Reachable s → Safe s
Reachable-Safe start = record { marked = λ c. refl; alone = λ c h k. ground (arith, h) }
Reachable-Safe (step r t) = Step-Safe t (Reachable-Safe r)

-- In every state that the two cores can reach, in any order of their steps, at most one of them
-- holds the lock.
pub mutual_exclusion : (s : Lock) → Reachable s → s.phase false ≡ holding → s.phase true ≢ holding
mutual_exclusion s r = (Reachable-Safe r).alone false
