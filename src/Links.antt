-- ===== src/Links.antt =====
-- toolkit-support/include/pico/toolkit/linked-list.h: the intrusive circular list, pointer by
-- pointer. A node is an address, and the heap holds the two pointers of each node. An assignment
-- of the C code is one `set_next` or `set_prev`, in the order of the code, so that nodes that
-- coincide are treated as there. The asserts only rule out null pointers.
pub mod Ring
pub mod Insert
pub mod Remove
pub mod Walk
pub mod Sched
mod Tests
use pico_toolkit.Base.{
  ℕ, zero, suc, ◌+◌, Bool, true, false, not, ◌&&◌, Option, none, some, ◌==◌, if◌then◌else◌, update,
}

-- `struct linked_list`, of every node at once.
pub record Heap : Type 0 where
  pub next : ℕ → ℕ
  pub prev : ℕ → ℕ

-- `n->next = v` and `n->prev = v`
abbrev pub set_next : ℕ → ℕ → Heap → Heap
set_next n v h = record h { next = update h.next n v }

abbrev pub set_prev : ℕ → ℕ → Heap → Heap
set_prev n v h = record h { prev = update h.prev n v }

pub list_init : ℕ → Heap → Heap
list_init list h = set_prev list list (set_next list list h)

pub list_is_empty : ℕ → Heap → Bool
list_is_empty list h = (h.next list == list) && (h.prev list == list)

pub list_insert_after : ℕ → ℕ → Heap → Heap
list_insert_after entry node h0 =
    let h1 = set_next node (h0.next entry) h0 in
    let h2 = set_prev node entry h1 in
    let h3 = set_prev (h2.next entry) node h2 in set_next entry node h3

unfoldable pub list_insert_before : ℕ → ℕ → Heap → Heap
list_insert_before entry node h0 =
    let h1 = set_next node entry h0 in
    let h2 = set_prev node (h1.prev entry) h1 in
    let h3 = set_next (h2.prev entry) node h2 in set_prev entry node h3

pub list_remove : ℕ → Heap → Heap
unfolding list_init
list_remove node h0 =
    let h1 = set_prev (h0.next node) (h0.prev node) h0 in
    let h2 = set_next (h1.prev node) (h1.next node) h1 in list_init node h2

-- A null result is `none`.
pub list_front : ℕ → Heap → Option ℕ
list_front list h = if list_is_empty list h then none else some (h.next list)

pub list_back : ℕ → Heap → Option ℕ
list_back list h = if list_is_empty list h then none else some (h.prev list)

-- To the end of the list.
pub list_add : ℕ → ℕ → Heap → Heap
list_add list node h0 =
    let h1 = set_next node list h0 in
    let h2 = set_prev node (h1.prev list) h1 in
    let h3 = set_next (h2.prev list) node h2 in set_prev list node h3

-- To the front of the list.
pub list_push : ℕ → ℕ → Heap → Heap
list_push list node h0 =
    let h1 = set_next node (h0.next list) h0 in
    let h2 = set_prev node list h1 in
    let h3 = set_prev (h2.next list) node h2 in set_next list node h3

pub list_pop : ℕ → Heap → Option ℕ × Heap
list_pop list h =
    if list_is_empty list h then (none, h) else (some (h.next list), list_remove (h.next list) h)

pub list_next : ℕ → ℕ → Heap → Option ℕ
list_next list node h = if h.next node == list then none else some (h.next node)

pub list_prev : ℕ → ℕ → Heap → Option ℕ
list_prev list node h = if h.prev node == list then none else some (h.prev node)

pub list_is_linked : ℕ → Heap → Bool
list_is_linked node h = not (h.next node == node) && not (h.prev node == node)

-- The loop of `list_size` from `cursor`; `none` means that the fuel ran out.
pub list_size_from : ℕ → ℕ → ℕ → ℕ → Heap → Option ℕ
list_size_from zero list cursor size h = none
list_size_from (suc fuel) list cursor size h =
    let rest = list_size_from fuel list (h.next cursor) (size + 1) h in
    if cursor == list then some size else rest

pub list_size : ℕ → ℕ → Heap → Option ℕ
unfolding list_size_from
list_size fuel list h = list_size_from fuel list (h.next list) 0 h
