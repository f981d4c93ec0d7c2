-- ===== src/Unicode/Utf8/Total.antt =====
-- The loops of utf8.c and utf16.c over arbitrary bytes.
use cextras.Base.{
  ℕ, zero, suc, ◌+◌, ◌≤◌, ◌<◌, ◌≡◌, refl, Option, some, List, Bool-cases, inl, inr, arith, length,
  get_elem?-lt, ltb, ◌==◌, ◌&&◌,
}
use cextras.Unicode.Utf8.{Signed, value, minus_one, utf8_len_map, clen_from, clen, bidx_from, bidx}

-- -1, or a value up to `n`.
pub data Within (n : ℕ) : Signed → Type 0 where
  good : (v : ℕ) → v ≤ n → Within n (value v)
  bad : Within n minus_one

-- The call comes to a result.
abbrev pub Returns : ℕ → Option Signed → Type 0
Returns n o = (r : Signed) × (o ≡ some r) × Within n r

module _ (str : List ℕ) {total : ℕ} (room : total ≤ length str) where
  clen_from-Returns :
      (f i count : ℕ)
      → 0 < f
      → total < f + i
      → count ≤ i
      → count ≤ total
      → Returns total (clen_from f str total i count)
  unfolding clen_from
  clen_from-Returns zero i count p h c c' = absurd (omega arith)
  clen_from-Returns (suc f) i count p h c c' = elim (Bool-cases (ltb i total)) [
    | inr out ↦ (value count, rw out refl, good count c')
    | inl more ↦
        let (b, read) = get_elem?-lt str i (ground arith) in
        elim (Bool-cases (utf8_len_map b == 0)) [
          | inl invalid ↦ (minus_one, rw (more, read, invalid) refl, bad)
          | inr valid ↦
              let step : 0 < utf8_len_map b = ground arith in
              rw (more, read, valid)
                (clen_from-Returns f (i + utf8_len_map b) (count + 1) (ground arith) (omega arith)
                  (omega arith) (ground arith))
        ]
  ]

  -- cx_utf8_clen of any bytes, as many as the length says or more, ends, reads none past the
  -- length, and gives -1 or a number up to the length.
  pub clen-Returns : Returns total (clen str total)
  unfolding clen
  clen-Returns =
      clen_from-Returns (total + 1) 0 0 (omega arith) (omega arith) (omega arith) (omega arith)

  bidx_from-Returns :
      (f k i j : ℕ) → 0 < f → total < f + i → Returns total (bidx_from f str total k i j)
  unfolding bidx_from
  bidx_from-Returns zero k i j p h = absurd (omega arith)
  bidx_from-Returns (suc f) k i j p h = elim (Bool-cases (ltb i total && ltb j k)) [
    | inr out ↦ elim (Bool-cases (ltb total i)) [
      | inl over ↦ (minus_one, rw (out, over) refl, bad)
      | inr within ↦ (value i, rw (out, within) refl, good i (ground arith))
    ]
    | inl more ↦
        let (b, read) = get_elem?-lt str i (ground arith) in
        elim (Bool-cases (utf8_len_map b == 0)) [
          | inl invalid ↦ (minus_one, rw (more, read, invalid) refl, bad)
          | inr valid ↦
              let step : 0 < utf8_len_map b = ground arith in
              rw (more, read, valid)
                (bidx_from-Returns f k (i + utf8_len_map b) (j + 1) (ground arith) (omega arith))
        ]
  ]

  -- cx_utf8_bidx of any bytes, as many as the length says or more, ends, reads none past the
  -- length, and gives -1 or a number up to the length.
  pub bidx-Returns : (k : ℕ) → Returns total (bidx str total k)
  unfolding bidx
  bidx-Returns k = bidx_from-Returns (total + 1) k 0 0 (omega arith) (omega arith)
