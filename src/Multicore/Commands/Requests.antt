-- ===== src/Multicore/Commands/Requests.antt =====
-- What each function that controls an interrupt comes to, on the core that it reaches.
use pico_toolkit.Base.{
  ℕ, ◌+◌, ◌<◌, ◌≡◌, refl, sym, ap, ◌∙◌, Bool, true, false, List, ◌==◌, if◌then◌else◌, arith, All,
}
use pico_toolkit.Multicore.{Hardware, Machine, Order, pend, clear, enable, disable, prioritize}
use pico_toolkit.Multicore.Commands.{
  push, irq_handler, forward, switch_order, irq_set_enabled, irq_set_priority, irq_set_pending,
  multicore_irq_set_enable, multicore_irq_set_priority, multicore_irq_set_pending,
  multicore_irq_clear,
}
use pico_toolkit.Multicore.Commands.Coding.{Fits}
use pico_toolkit.Multicore.Commands.Routing.{
  encoded, perform_all, in_order, forward-cases, irq_handler-forward,
}

-- A call: of the SDK's functions, which are wrapped, and of those that name a core.
pub data Request : Type 0 where
  set_enabled : ℕ → Bool → Request
  set_priority : ℕ → ℕ → Request
  set_pending : ℕ → Request
  core_set_enable : ℕ → ℕ → Bool → Request
  core_set_priority : ℕ → ℕ → ℕ → Request
  core_set_pending : ℕ → ℕ → Request
  core_clear : ℕ → ℕ → Request

abbrev pub request {ℓ} : {C : Type ℓ} → Hardware C → ℕ → Request → Machine C → Machine C
request hw here (set_enabled num on) m = irq_set_enabled hw here num on m
request hw here (set_priority num p) m = irq_set_priority hw here num p m
request hw here (set_pending num) m = irq_set_pending hw here num m
request hw here (core_set_enable num core on) m = multicore_irq_set_enable hw here num core on m
request hw here (core_set_priority num core p) m = multicore_irq_set_priority hw here num core p m
request hw here (core_set_pending num core) m = multicore_irq_set_pending hw here num core m
request hw here (core_clear num core) m = multicore_irq_clear hw here num core m

-- The core that a call of core `here` reaches, for the affinities: that of the affinity, or the one named,
-- but for two functions the affinity again when the one named is the caller.
abbrev pub reaches : ℕ → (ℕ → ℕ) → Request → ℕ
reaches here affinity (set_enabled num on) = affinity num
reaches here affinity (set_priority num p) = affinity num
reaches here affinity (set_pending num) = affinity num
reaches here affinity (core_set_enable num core on) = if core == here then affinity num else core
reaches here affinity (core_set_priority num core p) = if core == here then affinity num else core
reaches here affinity (core_set_pending num core) = core
reaches here affinity (core_clear num core) = core

-- What it asks for.
abbrev pub asks : Request → Order
asks (set_enabled num on) = if on then enable (num + 16) else disable (num + 16)
asks (set_priority num p) = prioritize (num + 16) p
asks (set_pending num) = pend (num + 16)
asks (core_set_enable num core on) = if on then enable (num + 16) else disable (num + 16)
asks (core_set_priority num core p) = prioritize (num + 16) p
asks (core_set_pending num core) = pend (num + 16)
asks (core_clear num core) = clear (num + 16)

-- The interrupts of the controller and priorities of 8 bits.
abbrev pub Fitting : Request → Type 0
Fitting (set_enabled num on) = num < 32
Fitting (set_priority num p) = (num < 32) × (p < 256)
Fitting (set_pending num) = num < 32
Fitting (core_set_enable num core on) = num < 32
Fitting (core_set_priority num core p) = (num < 32) × (p < 256)
Fitting (core_set_pending num core) = num < 32
Fitting (core_clear num core) = num < 32

switch-Fits :
    (num : ℕ) (on : Bool) → num < 32 → Fits (if on then enable (num + 16) else disable (num + 16))
switch-Fits num true l = omega arith
switch-Fits num false l = omega arith

asks-Fits : (r : Request) → Fitting r → Fits (asks r)
asks-Fits (set_enabled num on) f = switch-Fits num on f
asks-Fits (set_priority num p) (l, f) = (omega arith, f)
asks-Fits (set_pending num) f = omega (arith, f)
asks-Fits (core_set_enable num core on) f = switch-Fits num on f
asks-Fits (core_set_priority num core p) (l, f) = (omega arith, f)
asks-Fits (core_set_pending num core) f = omega (arith, f)
asks-Fits (core_clear num core) f = omega (arith, f)

module _ {ℓ} {C : Type ℓ} (hw : Hardware C) where
  -- The functions that call the wrapped one on their own core, and else send.
  own_or_sent :
      (here num core : ℕ) (o : Order) (m : Machine C) (b : Bool)
      → (core == here) ≡ b
      → (if b then forward hw here (m.cores.affinity num) o m else push here o m)
        ≡ forward hw here (if b then m.cores.affinity num else core) o m
  own_or_sent here num core o m true e = refl
  own_or_sent here num core o m false e = sym (forward-cases hw here core o m false e)

  request-forward :
      (here : ℕ) (r : Request) (m : Machine C)
      → request hw here r m ≡ forward hw here (reaches here m.cores.affinity r) (asks r) m
  unfolding irq_set_enabled irq_set_priority irq_set_pending multicore_irq_set_enable
      multicore_irq_set_priority multicore_irq_set_pending multicore_irq_clear switch_order
  request-forward here (set_enabled num on) m = refl
  request-forward here (set_priority num p) m = refl
  request-forward here (set_pending num) m = refl
  request-forward here (core_set_enable num core on) m =
      own_or_sent here num core (if on then enable (num + 16) else disable (num + 16)) m
        (core == here) refl
  request-forward here (core_set_priority num core p) m =
      own_or_sent here num core (prioritize (num + 16) p) m (core == here) refl
  request-forward here (core_set_pending num core) m = refl
  request-forward here (core_clear num core) m = refl

  -- A call of any of the functions that enable or disable an interrupt, set its priority, pend it or clear
  -- it, made by one of the two cores while commands `os`, all of operands that fit, wait for the core
  -- that the call reaches: once that core has run its handler of commands, the cores are as if it had
  -- done these and what the call asks for, this last, or first when the caller itself is reached.
  -- Reached is the core of the affinity, or the one named; but multicore_irq_set_enable and
  -- multicore_irq_set_priority that name their caller reach the core of the affinity.
  pub irq_handler-request :
      (here : ℕ) (r : Request) (os : List Order) (m : Machine C)
      → here < 2
      → reaches here m.cores.affinity r < 2
      → m.fifo (reaches here m.cores.affinity r) ≡ encoded os
      → All Fits os
      → Fitting r
      → (irq_handler hw (reaches here m.cores.affinity r) (request hw here r m)).cores
        ≡ perform_all hw
            (reaches here m.cores.affinity r)
            (in_order hw (reaches here m.cores.affinity r == here) (asks r) os)
            m.cores
  irq_handler-request here r os m h t waiting fs f =
      ap (λ x. (irq_handler hw (reaches here m.cores.affinity r) x).cores)
        (request-forward here r m)
      ∙ irq_handler-forward hw here (reaches here m.cores.affinity r) (asks r) os m h t waiting fs
          (asks-Fits r f)
