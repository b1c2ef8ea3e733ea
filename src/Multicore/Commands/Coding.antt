-- ===== src/Multicore/Commands/Coding.antt =====
-- The commands that go through the fifo say what they ask for.
use pico_toolkit.Base.{ℕ, ◌+◌, ◌*◌, ◌/◌, ◌%◌, ◌<◌, ◌≡◌, refl, arith}
use pico_toolkit.Multicore.{
  Order, execute, pend, clear, enable, disable, prioritize, refresh, event, unknown, encode,
  order_of, decode,
}

-- The operands a command has room for; what is executed lies in the flash or in the memory.
abbrev pub Fits : Order → Type 0
Fits (execute entry) = (268435456 < entry + 1) × (entry < 805306368)
Fits (pend e) = e < 65536
Fits (clear e) = e < 65536
Fits (enable e) = e < 65536
Fits (disable e) = e < 65536
Fits (prioritize e priority) = (e < 65536) × (priority < 256)
Fits (refresh e) = e < 65536
Fits event = Unit
Fits unknown = Unit

-- A command of one operand of 16 bits: its kind, and the operand.
kind_lem : (k e : ℕ) → e < 65536 → (k * 268435456 + e) / 268435456 ≡ k
kind_lem k e l = omega arith

operand_lem : (k e : ℕ) → e < 65536 → (k * 65536 + e) % 65536 ≡ e
operand_lem k e l = omega arith

-- The handler of commands reads from a command what it was made for, when its operands fit.
pub decode-encode : (o : Order) → Fits o → decode (encode o) ≡ o
unfolding decode order_of encode
decode-encode (execute entry) f = ground arith
decode-encode (pend e) f = ground (arith, kind_lem 9 e f, operand_lem 36864 e f)
decode-encode (clear e) f = ground (arith, kind_lem 10 e f, operand_lem 40960 e f)
decode-encode (enable e) f = ground (arith, kind_lem 11 e f, operand_lem 45056 e f)
decode-encode (disable e) f = ground (arith, kind_lem 12 e f, operand_lem 49152 e f)
decode-encode (prioritize e priority) f = ground arith
decode-encode (refresh e) f = ground (arith, kind_lem 14 e f, operand_lem 57344 e f)
decode-encode event f = refl
decode-encode unknown f = refl
