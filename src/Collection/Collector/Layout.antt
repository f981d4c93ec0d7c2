-- ===== src/Collection/Collector/Layout.antt =====
-- The block that cx_collect returns: the words of the pointers, and the strings.
use cextras.Base.{
  ℕ, zero, suc, ◌+◌, ◌*◌, ◌%◌, ◌<◌, ◌≡◌, refl, ap, sym, ◌∙◌, true, some, List, [], ◌∷◌, ◌++◌, map,
  arith, append_assoc, length, length-append, get_elem?, take, drop, drop-append, drop-add_append,
  word, le_bytes, length-le_bytes, of_le_bytes-le_bytes, leb, le→leb,
}
use cextras.Collection.Buffer.{memcpy}
use cextras.Collection.Collector.{load, store, relocate}

-- Words one behind the other.
abbrev pub words : List ℕ → List ℕ
words [] = []
words (o ∷ os) = le_bytes 8 o ++ words os

-- The values, each with a zero byte behind it.
abbrev pub strings : List (List ℕ) → List ℕ
strings [] = []
strings (v ∷ vs) = v ++ (0 ∷ strings vs)

-- Where the values start, if the first one starts at `s`.
abbrev pub offsets : ℕ → List (List ℕ) → List ℕ
offsets s [] = []
offsets s (v ∷ vs) = s ∷ offsets (s + length v + 1) vs

-- All words are words.
abbrev pub AreWords : List ℕ → Type 0
AreWords os = (i o : ℕ) → get_elem? os i ≡ some o → o < word

pub length-words : (os : List ℕ) → length (words os) ≡ 8 * length os
length-words [] = omega arith
length-words (o ∷ os) =
    omega (arith, length-append (le_bytes 8 o) (words os), length-le_bytes 8 o, length-words os)

pub length-offsets : (s : ℕ) (vs : List (List ℕ)) → length (offsets s vs) ≡ length vs
length-offsets s [] = refl
length-offsets s (v ∷ vs) = ap suc (length-offsets (s + length v + 1) vs)

pub words-append : (os ps : List ℕ) → words (os ++ ps) ≡ words os ++ words ps
words-append [] ps = refl
words-append (o ∷ os) ps =
    ap (λ l. le_bytes 8 o ++ l) (words-append os ps)
    ∙ sym (append_assoc (le_bytes 8 o) (words os) (words ps))

pub strings-append : (vs ws : List (List ℕ)) → strings (vs ++ ws) ≡ strings vs ++ strings ws
strings-append [] ws = refl
strings-append (v ∷ vs) ws =
    ap (λ l. v ++ (0 ∷ l)) (strings-append vs ws)
    ∙ sym (append_assoc v (0 ∷ strings vs) (strings ws))

pub offset-lt :
    (s : ℕ) (vs : List (List ℕ)) (i o : ℕ)
    → get_elem? (offsets s vs) i ≡ some o
    → o < s + length (strings vs)
offset-lt s [] i o e = cc
offset-lt s (v ∷ vs) zero o e =
    let same : s ≡ o = cc in omega (arith, same, length-append v (0 ∷ strings vs))
offset-lt s (v ∷ vs) (suc i) o e =
    omega (arith, length-append v (0 ∷ strings vs), offset-lt (s + length v + 1) vs i o e)

memcpy-append :
    (pre old new rest : List ℕ)
    → length old ≡ length new
    → memcpy (pre ++ (old ++ rest)) (length pre) new ≡ pre ++ (new ++ rest)
memcpy-append (x ∷ pre) old new rest h = ap (λ l. x ∷ l) (memcpy-append pre old new rest h)
memcpy-append [] [] [] [] h = refl
memcpy-append [] [] [] (y ∷ rest) h = refl
memcpy-append [] [] (n ∷ new) rest h = absurd (omega arith)
memcpy-append [] (x ∷ old) [] rest h = absurd (omega arith)
memcpy-append [] (x ∷ old) (n ∷ new) rest h =
    ap (λ l. n ∷ l) (memcpy-append [] old new rest (omega arith))

module _ (pre : List ℕ) (o : ℕ) (rest : List ℕ) where
  room : leb (length pre + 8) (length (pre ++ (le_bytes 8 o ++ rest))) ≡ true
  room = le→leb _ _ (
      omega (
        arith,
        length-append pre (le_bytes 8 o ++ rest),
        length-append (le_bytes 8 o) rest,
        length-le_bytes 8 o,
      ))

  pub load-append : o < word → load (pre ++ (le_bytes 8 o ++ rest)) (length pre) ≡ some o
  load-append small =
      rw (room, drop-append pre (le_bytes 8 o ++ rest))
        (ap some (of_le_bytes-le_bytes 8 o (omega arith)))

  store-append :
      (v : ℕ)
      → store (pre ++ (le_bytes 8 o ++ rest)) (length pre) v ≡ some (pre ++ (le_bytes 8 v ++ rest))
  store-append v = rw room (ap some (memcpy-append pre (le_bytes 8 o) (le_bytes 8 v) rest refl))

abbrev pub moved : ℕ → ℕ → ℕ
moved n o = (o + n) % word

-- The loop over the pointers adds `n` to each of the words, and changes nothing else.
pub relocate-words :
    (os : List ℕ) (i n : ℕ) (pre rest : List ℕ)
    → length pre ≡ 8 * i
    → AreWords os
    → relocate (length os) i n (pre ++ (words os ++ rest))
      ≡ some (pre ++ (words (map (moved n) os) ++ rest))
unfolding relocate
relocate-words [] i n pre rest h small = refl
relocate-words (o ∷ os) i n pre rest h small =
    let v = moved n o in
    let block : pre ++ ((le_bytes 8 o ++ words os) ++ rest)
        ≡ pre ++ (le_bytes 8 o ++ (words os ++ rest)) =
      ap (λ l. pre ++ l) (append_assoc (le_bytes 8 o) (words os) rest) in
    let loaded = load-append pre o (words os ++ rest) (small 0 o refl) in
    let stored = store-append pre o (words os ++ rest) v in
    let longer : length (pre ++ le_bytes 8 v) ≡ 8 * (i + 1) =
      omega (arith, length-append pre (le_bytes 8 v), length-le_bytes 8 v) in
    let rest_moved =
      relocate-words os (i + 1) n (pre ++ le_bytes 8 v) rest longer (λ j p e. small (suc j) p e) in
    rw (block, ← h, loaded, stored)
      (ap (relocate (length os) (i + 1) n)
          (sym (append_assoc pre (le_bytes 8 v) (words os ++ rest)))
        ∙ rest_moved
        ∙ ap some (append_assoc pre (le_bytes 8 v) (words (map (moved n) os) ++ rest)))

-- A word behind other bytes.
load-cons : (x : ℕ) (l : List ℕ) (k : ℕ) → load (x ∷ l) (suc k) ≡ load l k
load-cons x l k =
    let same : leb (suc k + 8) (suc (length l)) ≡ leb (k + 8) (length l) = ground arith in
    rw same refl

load-behind : (pre rest : List ℕ) (k : ℕ) → load (pre ++ rest) (length pre + k) ≡ load rest k
load-behind [] rest k = let e : 0 + k ≡ k = omega arith in rw e refl
load-behind (x ∷ pre) rest k =
    let e : suc (length pre) + k ≡ suc (length pre + k) = omega arith in
    rw e (load-cons x (pre ++ rest) (length pre + k) ∙ load-behind pre rest k)

-- The word of each number stands where its index says.
pub load-words :
    (os rest : List ℕ) (i o : ℕ)
    → get_elem? os i ≡ some o
    → o < word
    → load (words os ++ rest) (8 * i) ≡ some o
load-words [] rest i o e small = cc
load-words (p ∷ os) rest zero o e small =
    let same : p ≡ o = cc in rw same (load-append [] o (words os ++ rest) small)
load-words (p ∷ os) rest (suc i) o e small =
    let place : 8 * suc i ≡ 8 + 8 * i = omega arith in
    rw place
      (load-behind (le_bytes 8 p) (words os ++ rest) (8 * i) ∙ load-words os rest i o e small)

take-value : (v rest : List ℕ) → take (length v + 1) (v ++ (0 ∷ rest)) ≡ v ++ (0 ∷ [])
take-value [] rest = refl
take-value (x ∷ v) rest =
    let e : suc (length v) + 1 ≡ suc (length v + 1) = omega arith in
    rw e (ap (λ l. x ∷ l) (take-value v rest))

-- A value starts at its offset, and a zero byte is behind it.
pub string-at :
    (vs : List (List ℕ)) (rest : List ℕ) (s i : ℕ) (v : List ℕ)
    → get_elem? vs i ≡ some v
    → (k : ℕ) × (get_elem? (offsets s vs) i ≡ some (s + k))
      × (take (length v + 1) (drop k (strings vs ++ rest)) ≡ v ++ (0 ∷ []))
string-at [] rest s i v e = cc
string-at (w ∷ vs) rest s zero v e =
    let same : w ≡ v = cc in
    (
      0,
      ap some (omega arith),
      rw (append_assoc w (0 ∷ strings vs) rest, same) (take-value v (strings vs ++ rest)),
    )
string-at (w ∷ vs) rest s (suc i) v e =
    let (k, at, here) = string-at vs rest (s + length w + 1) i v e in
    let sum : s + length w + 1 + k ≡ s + (length w + suc k) = omega arith in
    (
      length w + suc k,
      at ∙ ap some sum,
      rw
          (
            append_assoc w (0 ∷ strings vs) rest,
            drop-add_append w (0 ∷ (strings vs ++ rest)) (suc k),
          )
          here,
    )

-- A value more.
pub offsets-append :
    (s : ℕ) (vs : List (List ℕ)) (v : List ℕ)
    → offsets s (vs ++ (v ∷ [])) ≡ offsets s vs ++ ((s + length (strings vs)) ∷ [])
offsets-append s [] v = let e : s ≡ s + 0 = omega arith in ap (λ k. k ∷ []) e
offsets-append s (w ∷ vs) v =
    let sum : s + length w + 1 + length (strings vs) ≡ s + length (w ++ (0 ∷ strings vs)) =
      omega (arith, length-append w (0 ∷ strings vs)) in
    ap (λ l. s ∷ l)
      (offsets-append (s + length w + 1) vs v
        ∙ ap (λ k. offsets (s + length w + 1) vs ++ (k ∷ [])) sum)

pub words-offsets :
    (vs : List (List ℕ)) (v : List ℕ) (n : ℕ)
    → n ≡ length (strings vs)
    → words (offsets 0 vs) ++ le_bytes 8 n ≡ words (offsets 0 (vs ++ (v ∷ [])))
words-offsets vs v n e =
    let from : n ≡ 0 + length (strings vs) = omega arith in
    ap (λ k. words (offsets 0 vs) ++ le_bytes 8 k) from
    ∙ (sym (words-append (offsets 0 vs) ((0 + length (strings vs)) ∷ []))
        ∙ ap words (sym (offsets-append 0 vs v)))
