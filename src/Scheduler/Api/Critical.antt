-- ===== src/Scheduler/Api/Critical.antt =====
-- scheduler.c, the critical section that one core at a time may hold, as often as it likes.
use pico_toolkit.Base.{
  ℕ, suc, ◌+◌, ◌-◌, ◌≡◌, ◌≢◌, ◌||◌, Option, none, some, ◌==◌, leb, if◌then◌else◌, update, arith,
}
use pico_toolkit.Scheduler.Queue.{uint32_max}

-- The owner's core or `UINT32_MAX`, the depth, the core that holds the spin lock, and each core's interrupt mask.
pub record Critical : Type 0 where
  pub critical : ℕ
  pub critical_counter : ℕ
  pub spin_lock : Option ℕ
  pub primask : ℕ → ℕ

abbrev take : ℕ → Option ℕ → Critical → Option Critical
take core (some holder) c = none
take core none c =
    if (c.critical == uint32_max) || (c.critical == core)
    then some (record c {
      critical = core;
      critical_counter = c.critical_counter + 1;
      spin_lock = some core;
    })
    else none

abbrev with_state : ℕ → Option Critical → Option (ℕ × Critical)
with_state state none = none
with_state state (some c) = some (state, c)

-- `none` while the core spins; the interrupt mask is returned.
unfoldable pub enter_critical : ℕ → Critical → Option (ℕ × Critical)
enter_critical core c0 =
    let state = c0.primask core in
    let c1 = record c0 { primask = update c0.primask core 1 } in
    if c0.critical == core
    then some (state, record c1 { critical_counter = c1.critical_counter + 1 })
    else with_state state (take core c1.spin_lock c1)

unfoldable pub exit_critical : ℕ → ℕ → Critical → Critical
exit_critical core state c =
    let left = c.critical_counter - 1 in
    if leb 1 left then record c { critical_counter = left } else record c {
      critical = uint32_max;
      critical_counter = left;
      spin_lock = none;
      primask = update c.primask core state;
    }

-- The critical section is a core's at some depth, with the spin lock, or nobody's at depth 0.
pub record Held (core depth : ℕ) (c : Critical) : Type 0 where
  pub owned : c.critical ≡ core
  pub deep : c.critical_counter ≡ suc depth
  pub locked : c.spin_lock ≡ some core

pub record Free (c : Critical) : Type 0 where
  pub unowned : c.critical ≡ uint32_max
  pub undeep : c.critical_counter ≡ 0
  pub unlocked : c.spin_lock ≡ none

-- The state of the interrupts that an entry returns, and the state after it.
abbrev entered : ℕ → Critical → Critical
entered core c = record c {
  critical = core;
  critical_counter = c.critical_counter + 1;
  spin_lock = some core;
  primask = update c.primask core 1;
}

enter_critical-Free :
    (core : ℕ) (c : Critical)
    → core ≢ uint32_max
    → Free c
    → enter_critical core c ≡ some (c.primask core, entered core c)
unfolding enter_critical
enter_critical-Free core c ne f = ground (arith, f.unowned, f.unlocked)

enter_critical-Held :
    (core depth : ℕ) (c : Critical)
    → Held core depth c
    → enter_critical core c ≡ some (c.primask core, entered core c)
unfolding enter_critical
enter_critical-Held core depth c h = ground (arith, h.owned, h.locked)

abbrev pub exits : ℕ → Option (ℕ × Critical) → Option Critical
exits core none = none
exits core (some (state, c)) = some (exit_critical core state c)

-- An entry and the exit that belongs to it leave the critical section as it was, whether it was
-- free or the core's own at any depth, but that in a nested entry interrupts stay off.
pub exit_critical-enter_critical :
    (core depth : ℕ) (c : Critical)
    → core ≢ uint32_max
    → (Free c
        → exits core (enter_critical core c)
          ≡ some (record c { primask = update (update c.primask core 1) core (c.primask core) }))
      × (Held core depth c
          → exits core (enter_critical core c)
            ≡ some (record c { primask = update c.primask core 1 }))
unfolding exit_critical
exit_critical-enter_critical core depth c ne = (
  (λ f. rw (enter_critical-Free core c ne f) (ground (arith, f.unowned, f.undeep, f.unlocked))),
  (λ h. rw (enter_critical-Held core depth c h) (ground (arith, h.owned, h.deep, h.locked))),
)
