-- ===== src/Memory/Utils/Tests.antt =====
-- A copy of two bytes out of three.
use cextras.Base.{ℕ, arith, Option, some, List, [], ◌∷◌}
use cextras.Memory.Utils.{memdup, Clears, zero_block, Copied, memdup-Copied}

abbrev calloc : ℕ → Option (List ℕ)
calloc n = some (zero_block n)

calloc-Clears : Clears calloc
calloc-Clears = record { zeros = λ n xs e. cc }

memdup-Copied_example : Copied calloc (7 ∷ 8 ∷ 9 ∷ []) 2 (memdup calloc (some (7 ∷ 8 ∷ 9 ∷ [])) 2)
memdup-Copied_example = memdup-Copied calloc-Clears (7 ∷ 8 ∷ 9 ∷ []) 2 (omega arith) (omega arith)
