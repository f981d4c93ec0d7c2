-- ===== src/Unicode/Width/Cols.antt =====
-- The columns of a string of encoded characters.
use cextras.Base.{
  ℕ, zero, suc, ◌+◌, ◌-◌, ◌<◌, ◌≡◌, refl, false, some, List, [], ◌∷◌, ◌++◌, arith, length,
  length-append, get_elem?, drop, ltb, lt→ltb, le→not-ltb,
}
use cextras.Unicode.Utf8.{value}
use cextras.Unicode.Utf8.Encode.{encode, cp-encode}
use cextras.Unicode.Utf8.Bytes.{encode_all, AllCodePoints, one_more, At, At-Next}
use cextras.Unicode.Utf8.Loops.{start-At}
use cextras.Unicode.Width.{Table, cp_width, char_at, cols_from, cols}

drop-append : (xs ys : List ℕ) → drop (length xs) (xs ++ ys) ≡ ys
drop-append [] ys = refl
drop-append (x ∷ xs) ys = drop-append xs ys

pub get_elem?-drop : (i : ℕ) (xs : List ℕ) → get_elem? (drop i xs) 0 ≡ get_elem? xs i
get_elem?-drop zero [] = refl
get_elem?-drop zero (x ∷ xs) = refl
get_elem?-drop (suc i) [] = refl
get_elem?-drop (suc i) (x ∷ xs) = get_elem?-drop i xs

-- The sum of the widths.
abbrev pub widths : (ℕ → ℕ) → List ℕ → ℕ
widths w [] = 0
widths w (c ∷ cs) = w c + widths w cs

-- The bytes from a place on.
pub At-drop :
    {str : List ℕ} {total i : ℕ} {cs : List ℕ} → At str total i cs → drop i str ≡ encode_all cs
At-drop {cs} a = rw (a.str_split, ← a.index) (drop-append a.before (encode_all cs))

module _ (t u : Table) {str : List ℕ} {total : ℕ} where
  -- At a character the bytes are read as its size and its code point.
  pub char_at-At :
      {i c : ℕ} {cs : List ℕ}
      → At str total i (c ∷ cs)
      → c < 1114112
      → char_at t u str total i ≡ some (length (encode c), value c)
  char_at-At {i} {c} {cs} a p =
      let n = At-Next a p in
      let here : drop i str ≡ encode c ++ encode_all cs = At-drop a in
      let room : ltb (total - i) (length (encode c)) ≡ false =
        le→not-ltb (total - i) (length (encode c))
          (omega (arith, a.ends, length-append (encode c) (encode_all cs))) in
      let decoded = cp-encode c (encode_all cs) (length (encode c)) p (omega arith) in
      rw (get_elem?-drop i str, n.read, n.row.utf8, room, here, decoded) refl

  cols_from-At :
      (w : ℕ → ℕ)
      → ((c : ℕ) → cp_width t u c ≡ some (w c))
      → (f i columns : ℕ) (cs : List ℕ) → AllCodePoints cs
      → At str total i cs
      → total < f + i
      → cols_from t u f str total i columns ≡ some (value (columns + widths w cs))
  unfolding cols_from
  cols_from-At w h zero i columns cs v a fuel = absurd (omega (arith, a.ends))
  cols_from-At w h (suc f) i columns [] v a fuel =
      let no : columns + 0 ≡ columns = omega arith in
      rw (le→not-ltb i total (omega (arith, a.ends)), no) refl
  cols_from-At w h (suc f) i columns (c ∷ cs) (one_more p v) a fuel =
      let n = At-Next a p in
      let more : columns + w c + widths w cs ≡ columns + (w c + widths w cs) = omega arith in
      let rest =
        cols_from-At w h f (i + length (encode c)) (columns + w c) cs v n.after
          (omega (arith, n.some_bytes)) in
      rw (lt→ltb i total n.inside, char_at-At a p, h c, rest, more) refl

-- Where the tables give every code point a width, cx_utf8_cols of a string that encodes code points
-- below 0x110000 is the sum of their widths.
pub cols-encode_all :
    (t u : Table) (w : ℕ → ℕ)
    → ((c : ℕ) → cp_width t u c ≡ some (w c))
    → (cs : List ℕ) → AllCodePoints cs
    → cols t u (encode_all cs) (length (encode_all cs)) ≡ some (value (widths w cs))
unfolding cols
cols-encode_all t u w h cs v =
    let no : 0 + widths w cs ≡ widths w cs = omega arith in
    rw (cols_from-At t u w h (length (encode_all cs) + 1) 0 0 cs v (start-At cs) (omega arith), no)
      refl
