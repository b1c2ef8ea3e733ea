-- ===== src/Base/Bits.antt =====
-- Bits of a machine word: tests by a mask, and the lowest bit in arithmetic.
pub mod Single
use Prim.Native.Nat.{ℕ, ◌+◌, ◌*◌, ◌/◌, bit_and}
use mathlib.Core.Bool.{Bool, not}
use pico_toolkit.Base.Tests.{◌==◌}

-- `(flags & mask) != 0` and `(flags & mask) == mask`
unfoldable pub has_any : ℕ → ℕ → Bool
has_any flags mask = not (bit_and flags mask == 0)

unfoldable pub has_all : ℕ → ℕ → Bool
has_all flags mask = bit_and flags mask == mask

-- `w & ~1` and `w | 1`
abbrev pub clear_bit0 : ℕ → ℕ
clear_bit0 w = w / 2 * 2

abbrev pub set_bit0 : ℕ → ℕ
set_bit0 w = w / 2 * 2 + 1
