-- ===== src/Fault/Unwind/Pops.antt =====
-- What a pop under a mask does to the virtual registers.
use pico_toolkit.Base.{
  ℕ, zero, suc, ◌+◌, ◌*◌, ◌/◌, ◌%◌, ◌^◌, ◌≤◌, ◌<◌, ◌≡◌, ◌≢◌, inl, inr, refl, true, false, Option,
  some, arith, ◌==◌, leb, if◌then◌else◌, Bool-cases, ==_iff, update, update_self, update_ne, ap,
  ◌∙◌, sym,
}
use pico_toolkit.Fault.{Memory}
use pico_toolkit.Fault.Unwind.{Ucb, Registers, goes_on, pop_mask, masked, refill, add32}

-- Bit `k` of a mask, how many of its first `n` bits are set, and that it has no others.
abbrev pub bit : ℕ → ℕ → ℕ
bit zero mask = mask % 2
bit (suc k) mask = bit k (mask / 2)

abbrev pub ones : ℕ → ℕ → ℕ
ones zero mask = 0
ones (suc n) mask = mask % 2 + ones n (mask / 2)

abbrev Fits : ℕ → ℕ → Type 0
Fits zero mask = mask ≡ 0
Fits (suc n) mask = Fits n (mask / 2)

bit-zero : (k : ℕ) → bit k 0 ≡ 0
bit-zero zero = refl
bit-zero (suc k) = bit-zero k

ones-zero : (n : ℕ) → ones n 0 ≡ 0
ones-zero zero = refl
ones-zero (suc n) = omega (arith, ones-zero n)

-- Register `reg + k` after a pop from `sp` under `mask`.
abbrev pub popped : Memory → ℕ → ℕ → ℕ → ℕ → ℕ
popped word mask sp k old = if bit k mask == 1 then word (add32 sp (4 * ones k mask)) else old

module _ (word : Memory) where
  record Pops (n reg mask sp : ℕ) (vrs : Registers) (sp' : ℕ) (vrs' : Registers) : Type 0 where
    moved : sp' ≡ add32 sp (4 * ones n mask)
    loaded : (k r : ℕ) → k < n → r ≡ reg + k → vrs' r ≡ popped word mask sp k (vrs r)
    kept_below : (r : ℕ) → r < reg → vrs' r ≡ vrs r

  abbrev PopsTo : (n reg mask sp : ℕ) → Registers → Option (ℕ × Registers) → Type 0
  PopsTo n reg mask sp vrs result =
      (sp' : ℕ) × (vrs' : Registers) × (result ≡ some (sp', vrs')) × Pops n reg mask sp vrs sp' vrs'

  Pops-nothing :
      (n reg mask sp : ℕ) (vrs : Registers) → mask ≡ 0 → sp < 2 ^ 32 → Pops n reg mask sp vrs sp vrs
  Pops-nothing n reg mask sp vrs e h = record {
    moved = rw e (rw (ones-zero n) (omega arith));
    loaded = λ k r l q. rw e (rw (bit-zero k) refl);
    kept_below = λ r l. refl;
  }

  popped_skip :
      (mask sp k old : ℕ)
      → mask % 2 ≡ 0
      → popped word mask sp (suc k) old ≡ popped word (mask / 2) sp k old
  popped_skip mask sp k old e =
      let same : 4 * ones (suc k) mask ≡ 4 * ones k (mask / 2) = omega (arith, e) in
      ap (λ d. if bit k (mask / 2) == 1 then word (add32 sp d) else old) same

  popped_load :
      (mask sp k old : ℕ)
      → mask % 2 ≡ 1
      → popped word mask sp (suc k) old ≡ popped word (mask / 2) (add32 sp 4) k old
  popped_load mask sp k old e =
      let same : add32 sp (4 * ones (suc k) mask) ≡ add32 (add32 sp 4) (4 * ones k (mask / 2)) =
        omega (arith, e) in
      ap (λ a. if bit k (mask / 2) == 1 then word a else old) same

  module _ (n reg mask sp : ℕ) (vrs : Registers) {sp' : ℕ} {vrs' : Registers} where
    skip_loaded :
        mask % 2 ≡ 0
        → Pops n (reg + 1) (mask / 2) sp vrs sp' vrs'
        → (k r : ℕ) → k < suc n
        → r ≡ reg + k
        → vrs' r ≡ popped word mask sp k (vrs r)
    skip_loaded e p zero r l q = ground (arith, p.kept_below r)
    skip_loaded e p (suc k) r l q =
        p.loaded k r (omega arith) (omega arith) ∙ sym (popped_skip mask sp k (vrs r) e)

    Pops-skip :
        mask % 2 ≡ 0
        → Pops n (reg + 1) (mask / 2) sp vrs sp' vrs'
        → Pops (suc n) reg mask sp vrs sp' vrs'
    Pops-skip e p = record {
      moved = omega (arith, p.moved);
      loaded = skip_loaded e p;
      kept_below = λ r l. p.kept_below r (omega arith);
    }

    load_loaded :
        mask % 2 ≡ 1
        → sp < 2 ^ 32
        → Pops n (reg + 1) (mask / 2) (add32 sp 4) (update vrs reg (word sp)) sp' vrs'
        → (k r : ℕ) → k < suc n
        → r ≡ reg + k
        → vrs' r ≡ popped word mask sp k (vrs r)
    load_loaded e h p zero r l q =
        let start : add32 sp 0 ≡ sp = omega arith in ground (arith, p.kept_below r, start)
    load_loaded e h p (suc k) r l q =
        p.loaded k r (omega arith) (omega arith)
        ∙ ap (popped word (mask / 2) (add32 sp 4) k)
            (update_ne vrs reg r (word sp) (λ i. omega arith))
        ∙ sym (popped_load mask sp k (vrs r) e)

    Pops-load :
        mask % 2 ≡ 1
        → sp < 2 ^ 32
        → Pops n (reg + 1) (mask / 2) (add32 sp 4) (update vrs reg (word sp)) sp' vrs'
        → Pops (suc n) reg mask sp vrs sp' vrs'
    Pops-load e h p = record {
      moved = omega (arith, p.moved);
      loaded = load_loaded e h p;
      kept_below =
          λ r l. p.kept_below r (omega arith) ∙ update_ne vrs reg r (word sp) (λ i. omega arith);
    }

  pop_mask-Pops :
      (fuel n reg mask sp : ℕ) (vrs : Registers)
      → n < fuel
      → reg + n ≤ 16
      → Fits n mask
      → sp < 2 ^ 32
      → PopsTo n reg mask sp vrs (pop_mask word fuel reg mask sp vrs)
  unfolding pop_mask
  pop_mask-Pops zero n reg mask sp vrs f c b h = absurd (omega arith)
  pop_mask-Pops (suc fuel) zero reg mask sp vrs f c b h =
      let none_left : (mask == 0) ≡ true = ground arith in
      rw none_left (sp, vrs, refl, Pops-nothing 0 reg mask sp vrs b h)
  pop_mask-Pops (suc fuel) (suc n) reg mask sp vrs f c b h = elim (Bool-cases (mask == 0)) [
    | inl e ↦ rw e (sp, vrs, refl, Pops-nothing (suc n) reg mask sp vrs ((==_iff mask 0).0 e) h)
    | inr e ↦
        let in_array : leb 16 reg ≡ false = ground arith in
        elim (Bool-cases (mask % 2 == 0)) [
          | inl even ↦
              let (sp', vrs', returned, p) =
                pop_mask-Pops fuel n (reg + 1) (mask / 2) sp vrs (omega arith) (omega arith) b h in
              rw (e, in_array, even)
                (sp', vrs', returned, Pops-skip n reg mask sp vrs ((==_iff _ 0).0 even) p)
          | inr odd ↦
              let (sp', vrs', returned, p) =
                pop_mask-Pops fuel n (reg + 1) (mask / 2) (add32 sp 4) (update vrs reg (word sp))
                  (omega arith) (omega arith) b (omega arith) in
              let one : mask % 2 ≡ 1 = ground arith in
              rw (e, in_array, odd) (sp', vrs', returned, Pops-load n reg mask sp vrs one h p)
        ]
  ]

-- A pop of r4 to r15 under a mask, from a stack pointer within 32 bits, goes on. Each register of the
-- mask but r13 gets the next word of the stack, the others keep their values, and r13 ends
-- behind the last word even if the mask has r13, so that a value popped for it is lost.
pub masked-popped :
    (word : Memory) (mask : ℕ) (u : Ucb)
    → mask < 2 ^ 12
    → u.vrs 13 < 2 ^ 32
    → (u' : Ucb) × (masked word 4 mask u ≡ goes_on u')
      × (u'.vrs 13 ≡ add32 (u.vrs 13) (4 * ones 12 mask))
      × ((k : ℕ) → k < 12 → k ≢ 9 → u'.vrs (4 + k) ≡ popped word mask (u.vrs 13) k (u.vrs (4 + k)))
      × ((r : ℕ) → r < 4 → u'.vrs r ≡ u.vrs r)
unfolding masked
masked-popped word mask u b h =
    let (sp', vrs', returned, p) =
      pop_mask-Pops word 33 12 4 mask (u.vrs 13) u.vrs (omega arith) (omega arith) (omega arith)
        h in
    (
      record u { vrs = update vrs' 13 sp' },
      ap (refill u) returned,
      update_self vrs' 13 sp' ∙ p.moved,
      λ k l ne. update_ne vrs' 13 (4 + k) sp' (λ i. ne (omega arith)) ∙ p.loaded k (4 + k) l refl,
      λ r l. update_ne vrs' 13 r sp' (λ i. omega arith) ∙ p.kept_below r l,
    )
