-- ===== src/Unicode/Width/Tabs.antt =====
-- The search for a column in cx_utf8_colidx, over strings of encoded characters and tabs.
use cextras.Base.{
  ℕ, zero, suc, ◌+◌, ◌-◌, ◌*◌, ◌/◌, ◌%◌, ◌≤◌, ◌<◌, ◌≡◌, refl, ap, ◌∙◌, sym, false, true, some, List,
  [], ◌∷◌, ◌++◌, arith, length, get_elem?, ltb, ◌==◌, Bool-cases, inl, inr, word, lt→ltb,
  le→not-ltb,
}
use mathlib.Core.Path.{subst}
use native.Mathlib.Nat.{mul-mod_left}
use cextras.Unicode.Utf8.{value}
use cextras.Unicode.Utf8.Encode.{encode, Encoded, one, two, three, four, encode-Encoded}
use cextras.Unicode.Utf8.Bytes.{encode_all, AllCodePoints, one_more, At, At-Next}
use cextras.Unicode.Utf8.Loops.{start-At}
use cextras.Unicode.Width.{Table, cp_width, char_at, colidx_from, colidx}
use cextras.Unicode.Width.Cols.{get_elem?-drop, At-drop, char_at-At}

-- Where the search for a column ends, in bytes from where it begins: behind the string, or before
-- the first character that is wider than the columns that are left. A character takes its width off
-- the column; a tab puts the least multiple of the tab size above the column in its place.
pub data Ends (w : ℕ → ℕ) (tab_size : ℕ) : List ℕ → (column index : ℕ) → Type 0 where
  behind : {column : ℕ} → Ends w tab_size [] column 0
  before :
      {c : ℕ} {cs : List ℕ} {column : ℕ}
      → (c == 9) ≡ false
      → column < w c
      → Ends w tab_size (c ∷ cs) column 0
  past :
      {c : ℕ} {cs : List ℕ} {left index : ℕ}
      → (c == 9) ≡ false
      → Ends w tab_size cs left index
      → Ends w tab_size (c ∷ cs) (w c + left) (length (encode c) + index)
  tab :
      {c : ℕ} {cs : List ℕ} {column stop index : ℕ}
      → (c == 9) ≡ true
      → column < stop
      → stop ≤ column + tab_size
      → stop % tab_size ≡ 0
      → Ends w tab_size cs stop index
      → Ends w tab_size (c ∷ cs) column (1 + index)

-- The next tab stop that the code computes.
next_stop :
    (column tab_size : ℕ)
    → 0 < tab_size
    → column + tab_size < word
    → (stop : ℕ) × ((column / tab_size + 1) * tab_size % word ≡ stop)
      × (column < stop)
      × (stop ≤ column + tab_size)
      × (stop % tab_size ≡ 0)
next_stop column tab_size pos room =
    let stop = (column / tab_size + 1) * tab_size in
    let below : stop ≤ column + tab_size = grind arith in
    (stop, omega arith, grind arith, below, mul-mod_left (column / tab_size + 1) tab_size)

-- The first byte of a character is a tab if the character is.
first_byte :
    (c : ℕ) (rest : List ℕ)
    → c < 1114112
    → (b : ℕ) × (get_elem? (encode c ++ rest) 0 ≡ some b) × ((b == 9) ≡ (c == 9))
first_byte c rest p = by_size (encode c) (encode-Encoded c p)
  where
    by_size :
        (bs : List ℕ)
        → Encoded c bs
        → (b : ℕ) × (get_elem? (bs ++ rest) 0 ≡ some b) × ((b == 9) ≡ (c == 9))
    by_size _ (one h) = (c, refl, refl)
    by_size _ (two l h) = (192 + c / 64, refl, ground arith)
    by_size _ (three l h) = (224 + c / 4096, refl, ground arith)
    by_size _ (four l h) = (240 + c / 262144, refl, ground arith)

add_swap : (i n k : ℕ) → i + n + k ≡ i + (n + k)
add_swap i n k = omega arith

module _ (t u : Table) (w : ℕ → ℕ) (width : (c : ℕ) → cp_width t u c ≡ some (w c)) (tab_size : ℕ)
    (pos : 0 < tab_size) (str : List ℕ) (total : ℕ) where
  -- What the search gives from an index on.
  abbrev Found : (f column i : ℕ) (cs : List ℕ) → Type 0
  Found f column i cs =
      (index : ℕ) × (colidx_from t u f str total column tab_size i ≡ some (value (i + index)))
      × Ends w tab_size cs column index

  tab_step :
      (f i column stop b index : ℕ)
      → i < total
      → get_elem? str i ≡ some b
      → (b == 9) ≡ true
      → (column / tab_size + 1) * tab_size % word ≡ stop
      → colidx_from t u f str total stop tab_size (i + 1) ≡ some (value (i + 1 + index))
      → colidx_from t u (suc f) str total column tab_size i ≡ some (value (i + (1 + index)))
  unfolding colidx_from
  tab_step f i column stop b index inside read is_tab next e =
      let size : (tab_size == 0) ≡ false = ground arith in
      rw (lt→ltb i total inside, read, is_tab, size, next, e)
        (ap (λ k. some (value k)) (add_swap i 1 index))

  char_step :
      (f i column b c n index : ℕ)
      → i < total
      → get_elem? str i ≡ some b
      → (b == 9) ≡ false
      → char_at t u str total i ≡ some (n, value c)
      → ltb column (w c) ≡ false
      → colidx_from t u f str total (column - w c) tab_size (i + n) ≡ some (value (i + n + index))
      → colidx_from t u (suc f) str total column tab_size i ≡ some (value (i + (n + index)))
  unfolding colidx_from
  char_step f i column b c n index inside read other at narrow e =
      rw (lt→ltb i total inside, read, other, at, width c, narrow, e)
        (ap (λ k. some (value k)) (add_swap i n index))

  colidx_from-At :
      (f i column : ℕ) (cs : List ℕ)
      → AllCodePoints cs
      → At str total i cs
      → total < f + i
      → column + length cs * tab_size < word
      → Found f column i cs
  unfolding colidx_from
  colidx_from-At zero i column cs v a fuel room = absurd (omega (arith, a.ends))
  colidx_from-At (suc f) i column [] v a fuel room =
      let no : i + 0 ≡ i = omega arith in
      (0, rw (le→not-ltb i total (omega (arith, a.ends)), no) refl, behind)
  colidx_from-At (suc f) i column (c ∷ cs) (one_more p v) a fuel room =
      let n = At-Next a p in
      let (b, first, same) = first_byte c (encode_all cs) p in
      let read : get_elem? str i ≡ some b =
        sym (get_elem?-drop i str) ∙ ap (λ bs. get_elem? bs 0) (At-drop a) ∙ first in
      let inside = lt→ltb i total n.inside in
      let more : column + tab_size + length cs * tab_size < word = grind arith in
      elim (Bool-cases (c == 9)) [
        | inl is_tab ↦
            let (stop, next, above, near, stops) = next_stop column tab_size pos (grind arith) in
            let small : ltb c 128 ≡ true = ground arith in
            let one_byte : length (encode c) ≡ 1 = rw small refl in
            let after : At str total (i + 1) cs = rw (← one_byte) n.after in
            let (index, e, ends) =
              colidx_from-At f (i + 1) stop cs v after (omega arith) (omega arith) in
            (
              1 + index,
              tab_step f i column stop b index n.inside read (same ∙ is_tab) next e,
              tab is_tab above near stops ends,
            )
        | inr other ↦ elim (Bool-cases (ltb column (w c))) [
          | inl wide ↦
              let no : i + 0 ≡ i = omega arith in
              (
                0,
                rw (inside, read, same, other, char_at-At t u a p, width c, wide, no) refl,
                before other (ground arith),
              )
          | inr narrow ↦
              let (index, e, ends) =
                colidx_from-At f (i + length (encode c)) (column - w c) cs v n.after
                  (omega (arith, n.some_bytes)) (omega arith) in
              let back : w c + (column - w c) ≡ column = ground arith in
              (
                length (encode c) + index,
                char_step f i column b c (length (encode c)) index n.inside read (same ∙ other)
                    (char_at-At t u a p) narrow e,
                subst (λ k. Ends w tab_size (c ∷ cs) k (length (encode c) + index)) back
                    (past other ends),
              )
        ]
      ]

-- Where the tables give every code point a width, in a string that encodes code points below
-- 0x110000 and with a tab size above 0, cx_utf8_colidx returns the index of the first character that
-- is wider than what is left of the column, or the length of the string: a character takes its width
-- off the column, and a tab raises it to the next tab stop. The column with a tab size for each
-- character is below 2 ^ 64.
pub colidx-encode_all :
    (t u : Table) (w : ℕ → ℕ)
    → ((c : ℕ) → cp_width t u c ≡ some (w c))
    → (cs : List ℕ) (column tab_size : ℕ) → AllCodePoints cs
    → 0 < tab_size
    → column + length cs * tab_size < word
    → (index : ℕ) × (colidx t u (encode_all cs) (length (encode_all cs)) column tab_size
        ≡ some (value index))
      × Ends w tab_size cs column index
unfolding colidx
colidx-encode_all t u w h cs column tab_size v pos room =
    let total = length (encode_all cs) in
    let (index, e, ends) =
      colidx_from-At t u w h tab_size pos (encode_all cs) total (total + 1) 0 column cs v
        (start-At cs) (omega arith) room in
    let from_0 : 0 + index ≡ index = omega arith in
    (index, e ∙ ap (λ k. some (value k)) from_0, ends)
