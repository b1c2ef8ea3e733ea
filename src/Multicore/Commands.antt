-- ===== src/Multicore/Commands.antt =====
-- multicore-support/multicore-irq.c: the functions that control an interrupt from either core.
pub mod Coding
pub mod Routing
pub mod Requests
use pico_toolkit.Base.{
  ℕ, ◌+◌, ◌-◌, Bool, true, false, List, [], ◌∷◌, ◌++◌, ◌==◌, if◌then◌else◌, update,
}
use pico_toolkit.Multicore.{
  Hardware, Core, Cores, Machine, Order, pend, clear, enable, disable, prioritize, encode, decode,
  perform,
}

-- `multicore_fifo_push_blocking`, which reaches the other core.
unfoldable pub push {ℓ} : {C : Type ℓ} → ℕ → Order → Machine C → Machine C
unfolding encode
push here o m =
    let other = 1 - here in record m { fifo = update m.fifo other (m.fifo other ++ encode o ∷ []) }

unfoldable pub switch_order : ℕ → Bool → Order
switch_order num enabled = if enabled then enable (num + 16) else disable (num + 16)

module _ {ℓ} {C : Type ℓ} where
  -- The wrapped functions that read, and the affinity.
  unfoldable pub irq_is_enabled : ℕ → Machine C → Bool
  irq_is_enabled num m = (m.cores.core (m.cores.affinity num)).irq_enabled (num + 16)

  unfoldable pub irq_get_priority : ℕ → Machine C → ℕ
  irq_get_priority num m = (m.cores.core (m.cores.affinity num)).irq_priority (num + 16)

  unfoldable pub irq_set_affinity : ℕ → ℕ → Machine C → Machine C
  irq_set_affinity num core m = record m {
    cores = record (m.cores) { affinity = update m.cores.affinity num core };
  }

  unfoldable pub irq_get_affinity : ℕ → Machine C → ℕ
  irq_get_affinity num m = m.cores.affinity num

  unfoldable pub multicore_irq_is_enabled : ℕ → ℕ → Machine C → Bool
  multicore_irq_is_enabled num core m = (m.cores.core core).irq_enabled (num + 16)

  unfoldable pub multicore_irq_get_priority : ℕ → ℕ → Machine C → ℕ
  multicore_irq_get_priority num core m = (m.cores.core core).irq_priority (num + 16)

module _ {ℓ} {C : Type ℓ} (hw : Hardware C) where
  -- The loop of `multicore_irq_handler` on core `c`, for the commands that wait for it.
  unfoldable pub serve : ℕ → List ℕ → Machine C → Machine C
  unfolding perform decode
  serve c [] m = record m { fifo = update m.fifo c [] }
  serve c (cmd ∷ rest) m =
      serve c rest
        (record { cores = perform hw c (decode cmd) m.cores; fifo = update m.fifo c rest })

  unfoldable pub irq_handler : ℕ → Machine C → Machine C
  unfolding serve
  irq_handler c m = serve c (m.fifo c) m

  -- Done here, or forwarded to the other core: `target` is where the operation looks first.
  unfoldable pub forward : ℕ → ℕ → Order → Machine C → Machine C
  unfolding perform push
  forward here target o m =
      let done = record m { cores = perform hw here o m.cores } in
      let sent = push here o m in if target == here then done else sent

  -- `__wrap_irq_set_enabled`, and the others behind the SDK's names, for `num` below `NUM_IRQS`.
  unfoldable pub irq_set_enabled : ℕ → ℕ → Bool → Machine C → Machine C
  unfolding forward switch_order
  irq_set_enabled here num enabled m =
      forward here (m.cores.affinity num) (switch_order num enabled) m

  unfoldable pub irq_set_priority : ℕ → ℕ → ℕ → Machine C → Machine C
  unfolding forward
  irq_set_priority here num priority m =
      forward here (m.cores.affinity num) (prioritize (num + 16) priority) m

  unfoldable pub irq_set_pending : ℕ → ℕ → Machine C → Machine C
  unfolding forward
  irq_set_pending here num m = forward here (m.cores.affinity num) (pend (num + 16)) m

  -- `multicore_irq_set_enable`: on its own core it calls `irq_set_enabled`.
  unfoldable pub multicore_irq_set_enable : ℕ → ℕ → ℕ → Bool → Machine C → Machine C
  unfolding irq_set_enabled push switch_order
  multicore_irq_set_enable here num core enabled m =
      let own = irq_set_enabled here num enabled m in
      let sent = push here (switch_order num enabled) m in if core == here then own else sent

  unfoldable pub multicore_irq_set_priority : ℕ → ℕ → ℕ → ℕ → Machine C → Machine C
  unfolding irq_set_priority push
  multicore_irq_set_priority here num core priority m =
      let own = irq_set_priority here num priority m in
      let sent = push here (prioritize (num + 16) priority) m in if core == here then own else sent

  unfoldable pub multicore_irq_set_pending : ℕ → ℕ → ℕ → Machine C → Machine C
  unfolding forward
  multicore_irq_set_pending here num core m = forward here core (pend (num + 16)) m

  unfoldable pub multicore_irq_clear : ℕ → ℕ → ℕ → Machine C → Machine C
  unfolding forward
  multicore_irq_clear here num core m = forward here core (clear (num + 16)) m
