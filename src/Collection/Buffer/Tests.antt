-- ===== src/Collection/Buffer/Tests.antt =====
-- Buffers on the machine of Buffer/Sample.
use cextras.Base.{◌≡◌, refl, some, [], ◌∷◌, arith}
use cextras.Collection.Buffer.{Buffer, success, append, round_to_next_pow2}
use cextras.Collection.Buffer.Pow2.{Rounded, round_to_next_pow2-Rounded}
use cextras.Collection.Buffer.Inv.{IsValid}
use cextras.Collection.Buffer.Append.{Appended, append-Appended}
use cextras.Collection.Buffer.Sample.{machine, machine-Reallocates, machine-CountsZeros}

-- A full buffer with the bytes 1, 2, 3, 4.
abbrev four : Buffer
four = record { block = some (1 ∷ 2 ∷ 3 ∷ 4 ∷ []); size = 4; capacity = 4 }

four-IsValid : IsValid four
four-IsValid = record { block = refl; size = omega arith; in_word = omega arith }

append-Appended_example : Appended machine four (5 ∷ 6 ∷ []) (append machine four (5 ∷ 6 ∷ []))
append-Appended_example =
    append-Appended machine-Reallocates machine-CountsZeros four-IsValid (5 ∷ 6 ∷ [])

round_to_next_pow2-Rounded_example : Rounded 4097 (round_to_next_pow2 machine 4097)
round_to_next_pow2-Rounded_example =
    round_to_next_pow2-Rounded 4097 machine-CountsZeros (omega arith)

-- The capacity doubles.
appends :
    append machine four (5 ∷ [])
    ≡ some (
      success,
      record { block = some (1 ∷ 2 ∷ 3 ∷ 4 ∷ 5 ∷ 0 ∷ 0 ∷ 0 ∷ []); size = 5; capacity = 8 },
    )
unfolding append
appends = refl
