-- ===== src/Multicore.antt =====
-- multicore-support/multicore-irq.c: interrupts that are controlled from either core, by commands
-- through the fifo of the other core. An interrupt stands as the exception number the commands
-- carry, its number and 16, so those below 16 are the system's.
pub mod Nmi
pub mod Commands
mod Tests
use pico_toolkit.Base.{
  ℕ, zero, suc, ◌+◌, ◌-◌, ◌*◌, ◌/◌, ◌%◌, ◌^◌, Bool, true, false, List, [], ◌∷◌, ◌++◌, ◌==◌, ltb,
  if◌then◌else◌, update,
}
use pico_toolkit.Multicore.Nmi.{Boosted, set_enable}

-- The SDK's functions on the interrupt controller of a core, of type `C`: the writes to `ICSR`,
-- `__real_irq_set_pending`, `irq_clear`, `__real_irq_set_enabled`, `NVIC_SetPriority`,
-- `irq_get_vtable_handler`, and the function that a command calls.
pub record Hardware {ℓ} (C : Type ℓ) : Type ℓ where
  pub set_icsr : ℕ → C → C
  pub set_pending : ℕ → C → C
  pub clear : ℕ → C → C
  pub set_enabled : ℕ → Bool → C → C
  pub set_priority : ℕ → ℕ → C → C
  pub vtable_handler : C → ℕ → ℕ
  pub run : ℕ → C → C

-- What belongs to a core: `irq_enabled` and `irq_priority`, the NMI table, and its controller.
pub record Core {ℓ} (C : Type ℓ) : Type ℓ where
  pub irq_enabled : ℕ → Bool
  pub irq_priority : ℕ → ℕ
  pub nmi : Boosted
  pub nvic : C

-- The cores, and `irq_affinity`.
pub record Cores {ℓ} (C : Type ℓ) : Type ℓ where
  pub core : ℕ → Core C
  pub affinity : ℕ → ℕ

-- The cores, and the commands on their way to each. A push that waits for room is one that comes later.
pub record Machine {ℓ} (C : Type ℓ) : Type ℓ where
  pub cores : Cores C
  pub fifo : ℕ → List ℕ

-- `UINT8_MAX`, the priority of an interrupt that runs as NMI.
abbrev pub real_time : ℕ
real_time = 255

-- `irq < 0`
abbrev pub is_system : ℕ → Bool
is_system e = ltb e 16

-- What a command asks for.
pub data Order : Type 0 where
  execute : ℕ → Order
  pend : ℕ → Order
  clear : ℕ → Order
  enable : ℕ → Order
  disable : ℕ → Order
  prioritize : ℕ → ℕ → Order
  refresh : ℕ → Order
  event : Order
  unknown : Order

-- `MULTICORE_… | (num + 16)`, and the priority above it.
unfoldable pub encode : Order → ℕ
encode (execute entry) = entry
encode (pend e) = 0x90000000 + e
encode (clear e) = 0xa0000000 + e
encode (enable e) = 0xb0000000 + e
encode (disable e) = 0xc0000000 + e
encode (prioritize e priority) = 0xd0000000 + priority * 65536 + e
encode (refresh e) = 0xe0000000 + e
encode event = 0x80000000
encode unknown = 0

-- The cases of `cmd & MULTICORE_COMMAND_MSK`.
unfoldable pub order_of : ℕ → ℕ → Order
order_of kind cmd =
    if kind == 1
    then execute cmd
    else if kind == 2
    then execute cmd
    else if kind == 8
    then event
    else if kind == 9
    then pend (cmd % 65536)
    else if kind == 10
    then clear (cmd % 65536)
    else if kind == 11
    then enable (cmd % 65536)
    else if kind == 12
    then disable (cmd % 65536)
    else if kind == 13
    then prioritize (cmd % 65536) (cmd / 65536 % 256)
    else if kind == 14
    then refresh (cmd % 65536)
    else unknown

unfoldable pub decode : ℕ → Order
unfolding order_of
decode cmd = order_of (cmd / 268435456) cmd

module _ {ℓ} {C : Type ℓ} (hw : Hardware C) where
  -- `pend_irq_cmd`: NMI is 2, PendSV 14, SysTick 15, and their bits of `ICSR` are 31, 28 and 26.
  unfoldable pub pend_irq : ℕ → Core C → Core C
  pend_irq e k =
      let here =
        if e == 2
        then hw.set_icsr 31 k.nvic
        else if e == 14
        then hw.set_icsr 28 k.nvic
        else if e == 15
        then hw.set_icsr 26 k.nvic
        else hw.set_pending e k.nvic in
      record k { nvic = here }

  unfoldable pub clear_irq : ℕ → Core C → Core C
  clear_irq e k = record k { nvic = hw.clear e k.nvic }

  unfoldable pub enable_irq : ℕ → Core C → Core C
  unfolding set_enable
  enable_irq e k =
      let plain = record k { nvic = hw.set_enabled e true (hw.clear e k.nvic) } in
      let boosted = record k { nmi = set_enable (hw.vtable_handler k.nvic) e true k.nmi } in
      let chosen = if k.irq_priority e == real_time then boosted else plain in
      if is_system e then k else record chosen { irq_enabled = update k.irq_enabled e true }

  unfoldable pub disable_irq : ℕ → Core C → Core C
  unfolding set_enable
  disable_irq e k =
      let plain = record k { nvic = hw.set_enabled e false k.nvic } in
      let boosted = record k { nmi = set_enable (hw.vtable_handler k.nvic) e false k.nmi } in
      let chosen = if k.irq_priority e == real_time then boosted else plain in
      if is_system e then k else record chosen { irq_enabled = update k.irq_enabled e false }

  unfoldable pub set_priority : ℕ → ℕ → Core C → Core C
  set_priority e priority k =
      let nvic = if priority == real_time then k.nvic else hw.set_priority e priority k.nvic in
      record k { nvic = nvic; irq_priority = update k.irq_priority e priority }

  -- `update_irq_config_cmd`: `irq_is_enabled` and `irq_get_priority` are the wrapped functions,
  -- which read the arrays of the core of the affinity.
  unfoldable pub update_config : ℕ → Cores C → Core C → Core C
  update_config e m k =
      let source = m.core (m.affinity (e - 16)) in
      record k {
        irq_enabled = update k.irq_enabled e (source.irq_enabled e);
        irq_priority = update k.irq_priority e (source.irq_priority e);
      }

  -- What a core does for a command.
  unfoldable pub perform : ℕ → Order → Cores C → Cores C
  unfolding pend_irq clear_irq enable_irq disable_irq set_priority update_config
  perform c o m = record m { core = update m.core c (act o (m.core c)) }
    where
      act : Order → Core C → Core C
      act (execute entry) k = record k { nvic = hw.run entry k.nvic }
      act (pend e) k = pend_irq e k
      act (clear e) k = clear_irq e k
      act (enable e) k = enable_irq e k
      act (disable e) k = disable_irq e k
      act (prioritize e priority) k = set_priority e priority k
      act (refresh e) k = update_config e m k
      act event k = k
      act unknown k = k
