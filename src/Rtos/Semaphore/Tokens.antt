-- ===== src/Rtos/Semaphore/Tokens.antt =====
-- Semaphores: no token is lost or made up, and what racing releases do.
use pico_toolkit.Base.{
  ℕ, ◌+◌, ◌%◌, ◌^◌, ◌<◌, ◌≡◌, ◌≢◌, refl, Bool, true, false, not, List, [], ◌∷◌, arith, ◌==◌, leb,
}
use pico_toolkit.Rtos.Semaphore.{
  Semaphore, Stand, outside, retrying, checking, adding, stands, Event, releases, goes_on,
  check_max, add_token, advance, happen, run,
}

-- A compare-exchange never expects 0.
abbrev sound : Stand → Bool
sound (retrying expected timeout) = not (expected == 0)
sound _ = true

-- The tokens that are there and those taken are the first ones and those given, on 32 bits.
pub record Conserved (first : ℕ) (s : Semaphore) : Type 0 where
  pub balance : (s.value + s.taken) % 2 ^ 32 ≡ (first + s.given) % 2 ^ 32
  pub expects : (t : ℕ) → sound (s.stand t) ≡ true

release-outside :
    (t : ℕ) (s : Semaphore) → s.stand t ≡ outside → happen (releases t) s ≡ stands t checking s
unfolding happen
release-outside t s e = rw e refl

check-below :
    (t : ℕ) (s : Semaphore)
    → s.stand t ≡ checking
    → leb s.max_count s.value ≡ false
    → happen (goes_on t) s ≡ stands t adding s
unfolding happen advance check_max
check-below t s e below = rw (e, below) refl

add-adding : (t : ℕ) (s : Semaphore) → s.stand t ≡ adding → happen (goes_on t) s ≡ add_token t s
unfolding happen advance
add-adding t s e = rw e refl

value-add_token : (t : ℕ) (s : Semaphore) → (add_token t s).value ≡ (s.value + 1) % 2 ^ 32
unfolding add_token
value-add_token t s = refl

stand-add_token :
    (t j : ℕ) (s : Semaphore) → t ≢ j → s.stand j ≡ adding → (add_token t s).stand j ≡ adding
unfolding add_token
stand-add_token t j s ne e = ground (arith, e)

abbrev pub racing_releases : ℕ → ℕ → List Event
racing_releases a b = releases a ∷ releases b ∷ goes_on a ∷ goes_on b ∷ goes_on a ∷ goes_on b ∷ []

-- With one token less than the maximum, two threads whose releases both check before either adds
-- leave one token more than the maximum.
pub racing_releases-exceed_max :
    (a b : ℕ) (s : Semaphore)
    → a ≢ b
    → s.stand a ≡ outside
    → s.stand b ≡ outside
    → s.value + 1 ≡ s.max_count
    → s.max_count + 1 < 2 ^ 32
    → (run (racing_releases a b) s).value ≡ s.max_count + 1
unfolding run
racing_releases-exceed_max a b s ne oa ob full small =
    let s1 : Semaphore = stands b checking (stands a checking s) in
    let s2 : Semaphore = stands b adding (stands a adding s1) in
    let below : leb s.max_count s.value ≡ false = ground arith in
    rw
      (
        release-outside a s oa,
        release-outside b (stands a checking s) (ground (arith, ob)),
        check-below a s1 (ground arith) below,
        check-below b (stands a adding s1) (ground arith) below,
        add-adding a s2 (ground arith),
        add-adding b (add_token a s2) (stand-add_token a b s2 ne (ground arith)),
        value-add_token a s2,
        value-add_token b (add_token a s2),
      )
      (omega (arith, full, small))
