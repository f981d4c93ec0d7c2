-- ===== src/Unicode/Width/Tests.antt =====
-- The width functions with tables that give every code point one column.
use cextras.Base.{ℕ, ◌≡◌, refl, arith, some, List, [], ◌∷◌, length}
use cextras.Unicode.Utf8.{value, minus_one, cp}
use cextras.Unicode.Utf8.Bytes.{encode_all, AllCodePoints, no_more, one_more}
use cextras.Unicode.Width.{Table, table_lookup, cp_width, cols, colidx}
use cextras.Unicode.Width.Cols.{widths, cols-encode_all}
use cextras.Unicode.Width.Tabs.{Ends, colidx-encode_all}

abbrev empty : Table
empty = record { lookup = []; tbl = []; size = 0; radix = 8 }

one_column : (c : ℕ) → cp_width empty empty c ≡ some 1
unfolding cp_width table_lookup
one_column c = ground arith

abbrev text : List ℕ
text = 97 ∷ 228 ∷ 8364 ∷ []

text-AllCodePoints : AllCodePoints text
text-AllCodePoints =
    one_more (omega arith) (one_more (omega arith) (one_more (omega arith) no_more))

cols-encode_all_example :
    cols empty empty (encode_all text) (length (encode_all text))
    ≡ some (value (widths (λ c. 1) text))
cols-encode_all_example = cols-encode_all empty empty (λ c. 1) one_column text text-AllCodePoints

abbrev tabbed : List ℕ
tabbed = 97 ∷ 9 ∷ 228 ∷ []

tabbed-AllCodePoints : AllCodePoints tabbed
tabbed-AllCodePoints =
    one_more (omega arith) (one_more (omega arith) (one_more (omega arith) no_more))

colidx-encode_all_example :
    (index : ℕ) × (colidx empty empty (encode_all tabbed) (length (encode_all tabbed)) 2 8
      ≡ some (value index))
    × Ends (λ c. 1) 8 tabbed 2 index
colidx-encode_all_example =
    colidx-encode_all empty empty (λ c. 1) one_column tabbed 2 8 tabbed-AllCodePoints (omega arith)
      (omega arith)

-- Tabs never stop the search, also not at column 0.
tabs : colidx empty empty (9 ∷ 9 ∷ 9 ∷ []) 3 0 8 ≡ some (value 3)
unfolding colidx
tabs = refl

-- The index of the third column of "abc".
third : colidx empty empty (97 ∷ 98 ∷ 99 ∷ []) 3 2 8 ≡ some (value 2)
unfolding colidx cp cp_width table_lookup
third = refl

-- A byte that begins no character.
invalid : cols empty empty (97 ∷ 128 ∷ []) 2 ≡ some minus_one
unfolding cols cp cp_width table_lookup
invalid = refl
