-- ===== src/Base/Word.antt =====
-- `size_t` and `uint64_t` on a 64-bit machine: naturals below 2^64, wrap-around written out.
use Prim.Native.Nat.{ℕ, ◌+◌, ◌-◌, ◌*◌, ◌^◌}
use mathlib.Core.Option.{Option, none, some}
use cextras.Base.Tests.{ltb, if◌then◌else◌}

abbrev pub word : ℕ
word = 2 ^ 64

-- `UINT64_MAX` and `SIZE_MAX`
abbrev pub max_word : ℕ
max_word = 2 ^ 64 - 1

-- CX_ADD_OVERFLOW and CX_MUL_OVERFLOW on `size_t`: `none` where they report an overflow, else the
-- value left in `*result`.
abbrev pub add_overflow : ℕ → ℕ → Option ℕ
add_overflow a b = if ltb (a + b) word then some (a + b) else none

abbrev pub mul_overflow : ℕ → ℕ → Option ℕ
mul_overflow a b = if ltb (a * b) word then some (a * b) else none
