-- ===== src/Base.antt =====
-- Names that the other modules share: the libraries' own, passed on, and small helpers on tests,
-- lists of native length and functions used as memory.
mod Tests
mod Lists
mod Memory
mod Int
mod Bits
pub use Tests.*
pub use Lists.*
pub use Memory.*
unfoldable pub use Int.*
unfoldable pub use Bits.*
pub use Bits.Single.*
pub use Prim.Native.Nat.{ℕ, zero, suc, ◌+◌, ◌-◌, ◌*◌, ◌/◌, ◌%◌, ◌^◌, ◌≤◌, ◌<◌, min}
pub use mathlib.Core.Path.{◌≡◌, refl, sym, ap, ap₂, ◌∙◌, subst, fun_ext}
pub use mathlib.Core.Logic.{◌≢◌, ◌↔◌, ◌⊎◌, inl, inr}
pub use mathlib.Core.Bool.{Bool, true, false, not, ◌&&◌, ◌||◌}
pub use mathlib.Core.Option.{Option, none, some}
pub use mathlib.Core.List.{List, [], ◌∷◌, ◌++◌, map, append-nil, append_assoc}
pub use native.Mathlib.Omega.{arith}
