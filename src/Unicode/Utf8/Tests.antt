-- ===== src/Unicode/Utf8/Tests.antt =====
-- The UTF-8 functions at concrete strings.
use cextras.Base.{ℕ, ◌+◌, ◌≡◌, refl, arith, some, List, [], ◌∷◌, ◌++◌, length}
use cextras.Unicode.Utf8.{value, cp, clen, len16}
use cextras.Unicode.Utf8.Encode.{encode, cp-encode}
use cextras.Unicode.Utf8.Bytes.{encode_all, AllCodePoints, no_more, one_more}
use cextras.Unicode.Utf8.Loops.{clen-encode_all, len16-encode_all, units_all, surplus_all}
use cextras.Unicode.Utf8.Total.{Returns, clen-Returns}

-- "a", "ä", the euro sign and a smiling face.
abbrev text : List ℕ
text = 97 ∷ 228 ∷ 8364 ∷ 128515 ∷ []

text-AllCodePoints : AllCodePoints text
text-AllCodePoints =
    one_more (omega arith)
      (one_more (omega arith) (one_more (omega arith) (one_more (omega arith) no_more)))

cp-encode_example : cp (some (encode 8364 ++ (97 ∷ []))) 4 ≡ some (value 8364)
cp-encode_example = cp-encode 8364 (97 ∷ []) 4 (omega arith) (omega arith)

clen-encode_all_example :
    clen (encode_all text) (length (encode_all text)) ≡ some (value (length text))
clen-encode_all_example = clen-encode_all text text-AllCodePoints

len16-encode_all_example :
    len16 (encode_all text) (length (encode_all text))
    ≡ some (value (units_all text + surplus_all text))
len16-encode_all_example = len16-encode_all text text-AllCodePoints

-- The euro sign is one unit, but two are counted for it.
euro : len16 (encode 8364) 3 ≡ some (value 2)
unfolding len16
euro = refl

clen-Returns_example : Returns 2 (clen (226 ∷ 128 ∷ []) 2)
clen-Returns_example = clen-Returns (226 ∷ 128 ∷ []) (omega arith)
