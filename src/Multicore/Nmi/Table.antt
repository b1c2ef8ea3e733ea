-- ===== src/Multicore/Nmi/Table.antt =====
-- What the table of NMI handlers and its mask hold after a change.
use pico_toolkit.Base.{
  ℕ, suc, ◌≡◌, refl, sym, ap, ◌∙◌, Bool, true, false, List, [], ◌∷◌, ◌++◌, ◌==◌, ltb, if◌then◌else◌,
  update, length, arith, mem, Distinct, erase, subst, mem-append, mem-erase, erase-Distinct,
  erase_of_not_mem,
}
use pico_toolkit.Multicore.Nmi.{Boosted, num_irqs, compress, place, set_enable}

-- Every interrupt has a handler of its own.
pub record Proper (handler : ℕ → ℕ) : Type 0 where
  pub set : (k : ℕ) → (handler k == 0) ≡ false
  pub apart : (j k : ℕ) → (handler j == handler k) ≡ (j == k)

abbrev pub handlers_of : (ℕ → ℕ) → List ℕ → List ℕ
handlers_of handler [] = []
handlers_of handler (k ∷ ks) = handler k ∷ handlers_of handler ks

-- The interrupts `s` are boosted: the table has their handlers in the order of `s`, the mask their bits.
pub record Holds (handler : ℕ → ℕ) (s : List ℕ) (n : Boosted) : Type 0 where
  pub table : n.handlers ≡ handlers_of handler s
  pub bits : (k : ℕ) → n.mask k ≡ mem k s
  pub distinct : Distinct s

-- The boosted interrupts after a change of `num`, when they were `s` before.
abbrev pub boosted_after : ℕ → Bool → List ℕ → List ℕ
boosted_after num true s =
    let room = if ltb (length s) num_irqs then s ++ num ∷ [] else s in if mem num s then s else room
boosted_after num false s = erase num s

compress_rest : (h : ℕ) (xs : List ℕ) → compress true h xs ≡ xs
unfolding compress
compress_rest h [] = refl
compress_rest h (x ∷ xs) = ap (λ r. x ∷ r) (compress_rest h xs)

handlers_of-append :
    (handler : ℕ → ℕ) (s : List ℕ) (k : ℕ)
    → handlers_of handler (s ++ k ∷ []) ≡ handlers_of handler s ++ handler k ∷ []
handlers_of-append handler [] k = refl
handlers_of-append handler (x ∷ xs) k = ap (λ r. handler x ∷ r) (handlers_of-append handler xs k)

length-handlers_of : (handler : ℕ → ℕ) (s : List ℕ) → length (handlers_of handler s) ≡ length s
length-handlers_of handler [] = refl
length-handlers_of handler (x ∷ xs) = ap suc (length-handlers_of handler xs)

-- Taking the handler of `num` out takes `num` out.
compress_lem :
    (handler : ℕ → ℕ) (p : Proper handler) (num : ℕ) (s : List ℕ)
    → Distinct s
    → compress false (handler num) (handlers_of handler s) ≡ handlers_of handler (erase num s)
unfolding compress
compress_lem handler p num [] d = refl
compress_lem handler p num (x ∷ xs) (new, d) = ground (
  arith,
  compress_rest (handler num) (handlers_of handler xs),
  compress_lem handler p num xs d,
  erase_of_not_mem num xs,
  p.apart x num,
)

append-Distinct : (s : List ℕ) (k : ℕ) → Distinct s → mem k s ≡ false → Distinct (s ++ k ∷ [])
append-Distinct [] k d h = (refl, tt)
append-Distinct (x ∷ xs) k d h = ground (arith, mem-append x xs (k ∷ []), append-Distinct xs k)

-- Two values that are chosen by the same test.
choose :
    {handler : ℕ → ℕ} {s1 s2 : List ℕ} {n1 n2 : Boosted} (b c : Bool)
    → b ≡ c
    → (b ≡ true → Holds handler s1 n1)
    → (b ≡ false → Holds handler s2 n2)
    → Holds handler (if b then s1 else s2) (if c then n1 else n2)
choose true true e f g = f refl
choose false false e f g = g refl
choose true false e f g = ground arith
choose false true e f g = ground arith

choose_one :
    {handler : ℕ → ℕ} {s : List ℕ} {n1 n2 : Boosted} (c : Bool)
    → (c ≡ true → Holds handler s n1)
    → (c ≡ false → Holds handler s n2)
    → Holds handler s (if c then n1 else n2)
choose_one true f g = f refl
choose_one false f g = g refl

place_lem :
    (handler : ℕ → ℕ) (p : Proper handler) (num : ℕ) (xs : List ℕ)
    → place (handler num) xs ≡ xs ++ handler num ∷ []
unfolding place
place_lem handler p num xs = ap (λ b. if b then xs else xs ++ handler num ∷ []) (p.set num)

added-Holds :
    (handler : ℕ → ℕ) (p : Proper handler) (num : ℕ) (s : List ℕ) (n : Boosted)
    → Holds handler s n
    → mem num s ≡ false
    → Holds handler
        (s ++ num ∷ [])
        (record { handlers = place (handler num) n.handlers; mask = update n.mask num true })
added-Holds handler p num s n h new = record {
  table =
      place_lem handler p num n.handlers
      ∙ ap (λ l. l ++ handler num ∷ []) h.table
      ∙ sym (handlers_of-append handler s num);
  bits = λ k. ground (arith, h.bits k, mem-append k s (num ∷ []));
  distinct = append-Distinct s num h.distinct new;
}

removed-Holds :
    (handler : ℕ → ℕ) (p : Proper handler) (num : ℕ) (s : List ℕ) (n : Boosted)
    → Holds handler s n
    → Holds handler (erase num s) (record {
      handlers = compress false (handler num) n.handlers;
      mask = update n.mask num false;
    })
removed-Holds handler p num s n h = record {
  table = ap (compress false (handler num)) h.table ∙ compress_lem handler p num s h.distinct;
  bits = λ k. ground (arith, h.bits k, mem-erase k num s);
  distinct = erase-Distinct num s h.distinct;
}

-- For interrupts with handlers of their own: if the table has the handlers of the interrupts `s`, each
-- once and in their order, and the mask their bits, then after a change of one interrupt it has them
-- for `s` with the interrupt at the end when it is enabled, was not and there is room, for `s` without
-- it when it is disabled, and for `s` else.
pub set_enable-Holds :
    (handler : ℕ → ℕ) (p : Proper handler) (num : ℕ) (on : Bool) (s : List ℕ) (n : Boosted)
    → Holds handler s n
    → Holds handler (boosted_after num on s) (set_enable handler num on n)
unfolding set_enable
set_enable-Holds handler p num true s n h =
    choose (mem num s) (n.mask num) (sym (h.bits num)) (λ _. h)
      (λ new.
        choose (ltb (length s) num_irqs) (ltb (length n.handlers) num_irqs)
          (ap (λ l. ltb l num_irqs) (sym (ap length h.table ∙ length-handlers_of handler s)))
          (λ _. added-Holds handler p num s n h new) (λ _. h))
set_enable-Holds handler p num false s n h =
    choose_one (n.mask num) (λ _. removed-Holds handler p num s n h)
      (λ off.
        subst (λ l. Holds handler l n) (sym (erase_of_not_mem num s (sym (h.bits num) ∙ off))) h)
