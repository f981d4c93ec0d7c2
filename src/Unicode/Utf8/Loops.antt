-- ===== src/Unicode/Utf8/Loops.antt =====
-- The loops of utf8.c and utf16.c over a string of encoded characters.
use cextras.Base.{
  ℕ, zero, suc, ◌+◌, ◌<◌, ◌≡◌, refl, false, some, List, [], ◌∷◌, ◌++◌, arith, length, length-append,
  take, take-nil, ◌==◌, lt→ltb, le→not-ltb,
}
use cextras.Unicode.Utf8.{value, clen_from, clen, bidx_from, bidx, len16_from, len16}
use cextras.Unicode.Utf8.Encode.{encode, units, surplus}
use cextras.Unicode.Utf8.Bytes.{encode_all, AllCodePoints, one_more, At, At-Next}

-- The 16-bit units of a string in UTF-16, and what cx_utf8_16len counts too much.
abbrev pub units_all : List ℕ → ℕ
units_all [] = 0
units_all (c ∷ cs) = units c + units_all cs

abbrev pub surplus_all : List ℕ → ℕ
surplus_all [] = 0
surplus_all (c ∷ cs) = surplus c + surplus_all cs

module _ {str : List ℕ} {total : ℕ} where
  clen_from-At :
      (f i count : ℕ) (cs : List ℕ)
      → AllCodePoints cs
      → At str total i cs
      → total < f + i
      → clen_from f str total i count ≡ some (value (count + length cs))
  unfolding clen_from
  clen_from-At zero i count cs v a h = absurd (omega (arith, a.ends))
  clen_from-At (suc f) i count [] v a h =
      let no : count + 0 ≡ count = omega arith in
      rw (le→not-ltb i total (omega (arith, a.ends)), no) refl
  clen_from-At (suc f) i count (c ∷ cs) (one_more p v) a h =
      let n = At-Next a p in
      let nz : (length (encode c) == 0) ≡ false = ground (arith, n.some_bytes) in
      let more : count + 1 + length cs ≡ count + suc (length cs) = omega arith in
      let rest =
        clen_from-At f (i + length (encode c)) (count + 1) cs v n.after
          (omega (arith, n.some_bytes)) in
      rw (lt→ltb i total n.inside, n.read, n.row.utf8, nz, rest, more) refl

  len16_from-At :
      (f i n16 : ℕ) (cs : List ℕ)
      → AllCodePoints cs
      → At str total i cs
      → total < f + i
      → len16_from f str total i n16 ≡ some (value (n16 + (units_all cs + surplus_all cs)))
  unfolding len16_from
  len16_from-At zero i n16 cs v a h = absurd (omega (arith, a.ends))
  len16_from-At (suc f) i n16 [] v a h =
      let no : n16 + (0 + 0) ≡ n16 = omega arith in
      rw (le→not-ltb i total (omega (arith, a.ends)), no) refl
  len16_from-At (suc f) i n16 (c ∷ cs) (one_more p v) a h =
      let n = At-Next a p in
      let nz : (length (encode c) == 0) ≡ false = ground (arith, n.some_bytes) in
      let u = units c + surplus c in
      let more : n16 + u + (units_all cs + surplus_all cs)
          ≡ n16 + (units c + units_all cs + (surplus c + surplus_all cs)) =
        omega arith in
      let rest =
        len16_from-At f (i + length (encode c)) (n16 + u) cs v n.after
          (omega (arith, n.some_bytes)) in
      rw (lt→ltb i total n.inside, n.read, n.row.utf8, n.row.utf16, nz, rest, more) refl

  bidx_from-At :
      (f i k j r : ℕ) (cs : List ℕ)
      → AllCodePoints cs
      → At str total i cs
      → total < f + i
      → k ≡ j + r
      → bidx_from f str total k i j ≡ some (value (i + length (encode_all (take r cs))))
  unfolding bidx_from
  bidx_from-At zero i k j r cs v a h e = absurd (omega (arith, a.ends))
  bidx_from-At (suc f) i k j r [] v a h e =
      let no : i + 0 ≡ i = omega arith in
      rw
        (
          le→not-ltb i total (omega (arith, a.ends)),
          le→not-ltb total i (omega (arith, a.ends)),
          take-nil r [] refl,
          no,
        )
        refl
  bidx_from-At (suc f) i k j zero (c ∷ cs) (one_more p v) a h e =
      let n = At-Next a p in
      let no : i + 0 ≡ i = omega arith in
      rw
        (
          lt→ltb i total n.inside,
          le→not-ltb j k (omega arith),
          le→not-ltb total i (omega (arith, n.inside)),
          no,
        )
        refl
  bidx_from-At (suc f) i k j (suc r) (c ∷ cs) (one_more p v) a h e =
      let n = At-Next a p in
      let nz : (length (encode c) == 0) ≡ false = ground (arith, n.some_bytes) in
      let more : i + length (encode c) + length (encode_all (take r cs))
          ≡ i + length (encode c ++ encode_all (take r cs)) =
        omega (arith, length-append (encode c) (encode_all (take r cs))) in
      let rest =
        bidx_from-At f (i + length (encode c)) k (j + 1) r cs v n.after
          (omega (arith, n.some_bytes)) (omega arith) in
      rw (lt→ltb i total n.inside, lt→ltb j k (omega arith), n.read, n.row.utf8, nz, rest, more)
        refl

pub start-At : (cs : List ℕ) → At (encode_all cs) (length (encode_all cs)) 0 cs
start-At cs = record { before = []; str_split = refl; index = refl; ends = omega arith }

-- cx_utf8_clen of a string that encodes code points below 0x110000 is the number of its code points.
pub clen-encode_all :
    (cs : List ℕ)
    → AllCodePoints cs
    → clen (encode_all cs) (length (encode_all cs)) ≡ some (value (length cs))
unfolding clen
clen-encode_all cs v =
    let no : 0 + length cs ≡ length cs = omega arith in
    rw (clen_from-At (length (encode_all cs) + 1) 0 0 cs v (start-At cs) (omega arith), no) refl

-- cx_utf8_bidx of a string that encodes code points below 0x110000 is the number of bytes in front of a code point, or of all
-- bytes where there are fewer code points.
pub bidx-encode_all :
    (cs : List ℕ) (k : ℕ)
    → AllCodePoints cs
    → bidx (encode_all cs) (length (encode_all cs)) k
      ≡ some (value (length (encode_all (take k cs))))
unfolding bidx
bidx-encode_all cs k v =
    let no : 0 + length (encode_all (take k cs)) ≡ length (encode_all (take k cs)) = omega arith in
    rw
      (
        bidx_from-At (length (encode_all cs) + 1) 0 k 0 k cs v (start-At cs) (omega arith)
            (omega arith),
        no,
      )
      refl

-- cx_utf8_16len of a string that encodes code points below 0x110000 is the number of its 16-bit units in UTF-16 and one more for
-- each code point from U+0800 to U+FFFF.
pub len16-encode_all :
    (cs : List ℕ)
    → AllCodePoints cs
    → len16 (encode_all cs) (length (encode_all cs)) ≡ some (value (units_all cs + surplus_all cs))
unfolding len16
len16-encode_all cs v =
    let no : 0 + (units_all cs + surplus_all cs) ≡ units_all cs + surplus_all cs = omega arith in
    rw (len16_from-At (length (encode_all cs) + 1) 0 0 cs v (start-At cs) (omega arith), no) refl
