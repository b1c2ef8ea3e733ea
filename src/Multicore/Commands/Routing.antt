-- ===== src/Multicore/Commands/Routing.antt =====
-- What a request comes to on its core, once the handler of commands has run there.
use pico_toolkit.Base.{
  ℕ, ◌-◌, ◌<◌, ◌≡◌, refl, sym, ap, ◌∙◌, Bool, true, false, List, [], ◌∷◌, ◌++◌, ◌==◌, if◌then◌else◌,
  update, update_self, arith, Bool-cases, inl, inr, All,
}
use pico_toolkit.Multicore.{Hardware, Cores, Machine, Order, encode, decode, perform}
use pico_toolkit.Multicore.Commands.{push, serve, irq_handler, forward}
use pico_toolkit.Multicore.Commands.Coding.{Fits, decode-encode}

abbrev pub encoded : List Order → List ℕ
encoded [] = []
encoded (o ∷ os) = encode o ∷ encoded os

encoded-append : (os ps : List Order) → encoded (os ++ ps) ≡ encoded os ++ encoded ps
encoded-append [] ps = refl
encoded-append (o ∷ os) ps = ap (λ r. encode o ∷ r) (encoded-append os ps)

module _ {ℓ} {C : Type ℓ} (hw : Hardware C) where
  abbrev pub perform_all : ℕ → List Order → Cores C → Cores C
  perform_all c [] m = m
  perform_all c (o ∷ os) m = perform_all c os (perform hw c o m)

  serve-performs :
      (c : ℕ) (os : List Order) (m : Machine C)
      → All Fits os
      → (serve hw c (encoded os) m).cores ≡ perform_all c os m.cores
  unfolding serve
  serve-performs c [] m f = refl
  serve-performs c (o ∷ os) m (f, fs) =
      serve-performs c os
        (record {
          cores = perform hw c (decode (encode o)) m.cores;
          fifo = update m.fifo c (encoded os);
        })
        fs
      ∙ ap (λ d. perform_all c os (perform hw c d m.cores)) (decode-encode o f)

  -- What is done and in which order: a request of the core itself overtakes those that wait.
  abbrev pub in_order : Bool → Order → List Order → List Order
  in_order own o os = if own then o ∷ os else os ++ o ∷ []

  handler-performs :
      (c : ℕ) (os : List Order) (m : Machine C)
      → m.fifo c ≡ encoded os
      → All Fits os
      → (irq_handler hw c m).cores ≡ perform_all c os m.cores
  unfolding irq_handler
  handler-performs c os m waiting f =
      ap (λ l. (serve hw c l m).cores) waiting ∙ serve-performs c os m f

  Fits-append : (os : List Order) (o : Order) → All Fits os → Fits o → All Fits (os ++ o ∷ [])
  Fits-append [] o fs f = (f, tt)
  Fits-append (p ∷ ps) o (g, gs) f = (g, Fits-append ps o gs f)

  other_core :
      (here target : ℕ) → (target == here) ≡ false → here < 2 → target < 2 → 1 - here ≡ target
  other_core here target n h t = ground arith

  pub forward-cases :
      (here target : ℕ) (o : Order) (m : Machine C) (b : Bool)
      → (target == here) ≡ b
      → forward hw here target o m
        ≡ (if b then record m { cores = perform hw here o m.cores } else push here o m)
  unfolding forward
  forward-cases here target o m b e =
      ap (λ b. if b then record m { cores = perform hw here o m.cores } else push here o m) e

  push-waiting :
      (here target : ℕ) (o : Order) (os : List Order) (m : Machine C)
      → 1 - here ≡ target
      → m.fifo target ≡ encoded os
      → (push here o m).fifo target ≡ encoded (os ++ o ∷ [])
  unfolding push
  push-waiting here target o os m other waiting =
      ap (λ c. (push here o m).fifo c) (sym other)
      ∙ update_self m.fifo (1 - here) (m.fifo (1 - here) ++ encode o ∷ [])
      ∙ ap (λ c. m.fifo c ++ encode o ∷ []) other
      ∙ ap (λ l. l ++ encode o ∷ []) waiting
      ∙ sym (encoded-append os (o ∷ []))

  -- A request for the core `target` that one of the two cores makes, with commands `os` waiting for
  -- the target, all of operands that fit: once the target has run its handler of commands, the
  -- cores are as if it had done these and the request itself, the request last, or first when the
  -- target made it.
  pub irq_handler-forward :
      (here target : ℕ) (o : Order) (os : List Order) (m : Machine C)
      → here < 2
      → target < 2
      → m.fifo target ≡ encoded os
      → All Fits os
      → Fits o
      → (irq_handler hw target (forward hw here target o m)).cores
        ≡ perform_all target (in_order (target == here) o os) m.cores
  unfolding push
  irq_handler-forward here target o os m h t waiting fs f = elim (Bool-cases (target == here)) [
    | inl own ↦
        ap (λ x. (irq_handler hw target x).cores) (forward-cases here target o m true own)
        ∙ handler-performs target os (record m { cores = perform hw here o m.cores }) waiting fs
        ∙ ap (λ c. perform_all target os (perform hw c o m.cores)) (same own)
        ∙ ap (λ b. perform_all target (in_order b o os) m.cores) (sym own)
    | inr foreign ↦
        ap (λ x. (irq_handler hw target x).cores) (forward-cases here target o m false foreign)
        ∙ handler-performs target (os ++ o ∷ []) (push here o m)
            (push-waiting here target o os m (other_core here target foreign h t) waiting)
            (Fits-append os o fs f)
        ∙ ap (λ b. perform_all target (in_order b o os) m.cores) (sym foreign)
  ]
    where
      same : (target == here) ≡ true → here ≡ target
      same own = ground arith
