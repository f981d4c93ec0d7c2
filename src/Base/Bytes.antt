-- ===== src/Base/Bytes.antt =====
-- Numbers as the bytes of a little-endian machine.
use Prim.Native.Nat.{ℕ, zero, suc, ◌+◌, ◌*◌, ◌/◌, ◌%◌, ◌^◌, ◌<◌}
use mathlib.Core.Path.{◌≡◌, refl, ap}
use mathlib.Core.List.{List, [], ◌∷◌}
use native.Mathlib.Nat.{pow-suc}
use native.Mathlib.Omega.{arith}
use cextras.Base.Lists.{length}

-- The lowest `n` bytes of a number.
abbrev pub le_bytes : ℕ → ℕ → List ℕ
le_bytes zero v = []
le_bytes (suc n) v = v % 256 ∷ le_bytes n (v / 256)

abbrev pub of_le_bytes : List ℕ → ℕ
of_le_bytes [] = 0
of_le_bytes (b ∷ bs) = b + 256 * of_le_bytes bs

pub length-le_bytes : (n v : ℕ) → length (le_bytes n v) ≡ n
length-le_bytes zero v = refl
length-le_bytes (suc n) v = ap suc (length-le_bytes n (v / 256))

pub of_le_bytes-le_bytes : (n v : ℕ) → v < 256 ^ n → of_le_bytes (le_bytes n v) ≡ v
of_le_bytes-le_bytes zero v h = omega (arith, h)
of_le_bytes-le_bytes (suc n) v h =
    let less : v / 256 < 256 ^ n = grind (arith, h, pow-suc 256 n) in
    omega (arith, of_le_bytes-le_bytes n (v / 256) less)
