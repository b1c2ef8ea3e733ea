-- ===== src/Multicore/Tests.antt =====
-- multicore-support/multicore-irq.c and pico-nmi/nmi.c at small inputs.
use pico_toolkit.Base.{ℕ, suc, ◌+◌, ◌≡◌, refl, true, false, List, [], ◌∷◌, arith, update}
use pico_toolkit.Multicore.{Hardware, Core, Machine, pend, enable, encode, decode}
use pico_toolkit.Multicore.Commands.{push, irq_handler, forward, multicore_irq_set_enable}
use pico_toolkit.Multicore.Commands.Requests.{core_set_enable, irq_handler-request}
use pico_toolkit.Multicore.Commands.Routing.{perform_all}
use pico_toolkit.Multicore.Nmi.{Boosted, dispatched, set_enable}
use pico_toolkit.Multicore.Nmi.Table.{Proper, Holds, set_enable-Holds}

-- A controller that keeps what was asked of it.
abbrev log : Hardware (List ℕ)
log = record {
  set_icsr = λ b c. b ∷ c;
  set_pending = λ e c. (100 + e) ∷ c;
  clear = λ e c. (200 + e) ∷ c;
  set_enabled = λ e on c. (300 + e) ∷ c;
  set_priority = λ e p c. (400 + e) ∷ c;
  vtable_handler = λ c e. suc e;
  run = λ entry c. entry ∷ c;
}

abbrev idle : Core (List ℕ)
idle = record {
  irq_enabled = λ e. false;
  irq_priority = λ e. 0;
  nmi = record { handlers = []; mask = λ k. false };
  nvic = [];
}

-- Interrupt 20 waits to be pended on core 1; interrupt 5 belongs to core 1.
abbrev two_cores : Machine (List ℕ)
two_cores = record {
  cores = record { core = λ c. idle; affinity = update (λ k. 0) 5 1 };
  fifo = update (λ c. []) 1 (encode (pend 36) ∷ []);
}

pended_first :
    ((irq_handler log 1 (forward log 0 1 (enable 21) two_cores)).cores.core 1).nvic
    ≡ 321 ∷ 221 ∷ 136 ∷ []
unfolding irq_handler forward push encode decode
pended_first = refl

-- Core 0 names itself, and reaches core 1, to which interrupt 5 belongs.
irq_handler-request_example :
    (irq_handler log 1 (multicore_irq_set_enable log 0 5 0 true two_cores)).cores
    ≡ perform_all log 1 (pend 36 ∷ enable 21 ∷ []) two_cores.cores
irq_handler-request_example =
    irq_handler-request log 0 (core_set_enable 5 0 true) (pend 36 ∷ []) two_cores (omega arith)
      (omega arith) refl (omega arith, tt) (omega arith)

abbrev one_boosted : Boosted
one_boosted = record { handlers = 4 ∷ []; mask = update (λ k. false) 3 true }

own_handlers : Proper suc
own_handlers = record { set = λ k. ground arith; apart = λ j k. ground arith }

one_boosted-Holds : Holds suc (3 ∷ []) one_boosted
one_boosted-Holds = record { table = refl; bits = λ k. ground arith; distinct = (refl, tt) }

two_dispatched : dispatched (set_enable suc 5 true one_boosted) ≡ 4 ∷ 6 ∷ []
unfolding set_enable dispatched
two_dispatched = refl

set_enable-Holds_example : Holds suc (3 ∷ 5 ∷ []) (set_enable suc 5 true one_boosted)
set_enable-Holds_example =
    set_enable-Holds suc own_handlers 5 true (3 ∷ []) one_boosted one_boosted-Holds
