-- ===== src/Unicode/Utf8/Bytes.antt =====
-- A place in a string of encoded characters.
use cextras.Base.{
  ℕ, ◌+◌, ◌<◌, ◌≡◌, refl, ap, sym, ◌∙◌, some, List, [], ◌∷◌, ◌++◌, append_assoc, arith, length,
  length-append, get_elem?,
}
use cextras.Unicode.Utf8.Encode.{encode, units, surplus, Row, Encoded-Lead, encode-Encoded}

abbrev pub encode_all : List ℕ → List ℕ
encode_all [] = []
encode_all (c ∷ cs) = encode c ++ encode_all cs

-- Every element is below 0x110000.
pub data AllCodePoints : List ℕ → Type 0 where
  no_more : AllCodePoints []
  one_more : {c : ℕ} {cs : List ℕ} → c < 1114112 → AllCodePoints cs → AllCodePoints (c ∷ cs)

-- From the index `i` on the first `total` bytes of `str` encode `cs`.
pub record At (str : List ℕ) (total i : ℕ) (cs : List ℕ) : Type 0 where
  pub before : List ℕ
  pub str_split : str ≡ before ++ encode_all cs
  pub index : length before ≡ i
  pub ends : total ≡ i + length (encode_all cs)

get_elem?-append :
    (xs : List ℕ) (y : ℕ) (ys : List ℕ) → get_elem? (xs ++ (y ∷ ys)) (length xs) ≡ some y
get_elem?-append [] y ys = refl
get_elem?-append (x ∷ xs) y ys = get_elem?-append xs y ys

-- The byte at a place before a character, and the place behind that character.
pub record Next (str : List ℕ) (total i c : ℕ) (cs : List ℕ) : Type 0 where
  pub first : ℕ
  pub read : get_elem? str i ≡ some first
  pub row : Row first (length (encode c)) (units c + surplus c)
  pub inside : i < total
  pub some_bytes : 0 < length (encode c)
  pub after : At str total (i + length (encode c)) cs

pub At-Next :
    {str : List ℕ} {total i c : ℕ} {cs : List ℕ}
    → At str total i (c ∷ cs)
    → c < 1114112
    → Next str total i c cs
At-Next {str} {total} {i} {c} {cs} a h =
    let l = Encoded-Lead (encode-Encoded c h) in
    let pos : 0 < length (encode c) = rw l.split (omega arith) in
    let len = length-append (encode c) (encode_all cs) in
    record {
      first = l.first;
      read =
          rw (a.str_split, l.split, ← a.index)
            (get_elem?-append a.before l.first (l.rest ++ encode_all cs));
      row = l.row;
      inside = omega (arith, a.ends);
      some_bytes = pos;
      after = record {
        before = a.before ++ encode c;
        str_split = a.str_split ∙ sym (append_assoc a.before (encode c) (encode_all cs));
        index = length-append a.before (encode c) ∙ ap (λ k. k + length (encode c)) a.index;
        ends = omega (arith, a.ends);
      };
    }
