-- ===== src/Multicore/Nmi.antt =====
-- pico-nmi/nmi.c: the table of a core's handlers that run as NMI, and the mask of their interrupts.
pub mod Table
use pico_toolkit.Base.{
  ℕ, zero, suc, Bool, true, false, List, [], ◌∷◌, ◌++◌, ◌==◌, ltb, if◌then◌else◌, update, length,
}

-- `NUM_IRQS`
abbrev pub num_irqs : ℕ
num_irqs = 32

-- The entries of `active_handlers` before the first null, and the bits of `nmi_proc_mask`.
pub record Boosted : Type 0 where
  pub handlers : List ℕ
  pub mask : ℕ → Bool

-- The loop that takes an entry out and moves the later ones down.
unfoldable pub compress : Bool → ℕ → List ℕ → List ℕ
compress found h [] = []
compress true h (x ∷ xs) = x ∷ compress true h xs
compress false h (x ∷ xs) =
    let gone = compress true h xs in
    let kept = x ∷ compress false h xs in if x == h then gone else kept

-- The assignment to the first null entry: a null handler leaves it null.
unfoldable pub place : ℕ → List ℕ → List ℕ
place h xs = if h == 0 then xs else xs ++ h ∷ []

-- `nmi_set_enable`; `handler` is `irq_get_vtable_handler`. In a full table nothing is added.
unfoldable pub set_enable : (ℕ → ℕ) → ℕ → Bool → Boosted → Boosted
unfolding place compress
set_enable handler num true n =
    let added : Boosted = record {
      handlers = place (handler num) n.handlers;
      mask = update n.mask num true;
    } in
    let room = if ltb (length n.handlers) num_irqs then added else n in
    if n.mask num then n else room
set_enable handler num false n =
    let removed : Boosted = record {
      handlers = compress false (handler num) n.handlers;
      mask = update n.mask num false;
    } in
    if n.mask num then removed else n

-- `NMI_Handler`: the handlers that are called, in order.
unfoldable pub dispatched : Boosted → List ℕ
dispatched n = n.handlers
