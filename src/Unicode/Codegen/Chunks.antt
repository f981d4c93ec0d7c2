-- ===== src/Unicode/Codegen/Chunks.antt =====
-- What the generator notes for each chunk.
use cextras.Base.{
  ℕ, zero, suc, ◌+◌, ◌*◌, ◌≤◌, ◌<◌, ◌≡◌, refl, ap, ◌∙◌, sym, Bool, true, false, some, List, ◌∷◌,
  arith, length, get_elem?, leb, Bool-cases, inl, inr,
}
use cextras.Unicode.Codegen.{Entry, tbl_full, tbl_null, tbl, all_set, all_unset, row, chunks}
use cextras.Unicode.Codegen.Rows.{is_set, length-row_all}
use cextras.Unicode.Codegen.Blocks.{AreBlocks}

module _ (table : List Bool) (size radix_num : ℕ) where
  all_set-is_set :
      (n i j k : ℕ)
      → all_set table size radix_num n i j ≡ true
      → j ≤ k
      → k < n + j
      → i * radix_num + k < size
      → is_set table size radix_num i k ≡ true
  unfolding all_set
  all_set-is_set zero i j k e h h' inside = absurd (omega arith)
  all_set-is_set (suc n) i j k e h h' inside = elim (Bool-cases (leb k j)) [
    | inl here ↦ let same : j ≡ k = ground arith in rw (← same) (ground (arith, e))
    | inr later ↦
        all_set-is_set n i (j + 1) k (ground (arith, e)) (ground arith) (omega arith) inside
  ]

  all_unset-is_set :
      (n i j k : ℕ)
      → all_unset table size radix_num n i j ≡ true
      → j ≤ k
      → k < n + j
      → i * radix_num + k < size
      → is_set table size radix_num i k ≡ false
  unfolding all_unset
  all_unset-is_set zero i j k e h h' inside = absurd (omega arith)
  all_unset-is_set (suc n) i j k e h h' inside = elim (Bool-cases (leb k j)) [
    | inl here ↦ let same : j ≡ k = ground arith in rw (← same) (ground (arith, e))
    | inr later ↦
        all_unset-is_set n i (j + 1) k (ground (arith, e)) (ground arith) (omega arith) inside
  ]

-- What an entry says of the code points of its chunk, where `k` rows were printed before `rows`.
pub data Describes (table : List Bool) (size radix_num i k : ℕ) (rows : List (List ℕ))
    : Entry → Type 0 where
  full :
      ((j : ℕ) → j < radix_num → i * radix_num + j < size → is_set table size radix_num i j ≡ true)
      → Describes table size radix_num i k rows tbl_full
  null :
      ((j : ℕ) → j < radix_num → i * radix_num + j < size → is_set table size radix_num i j ≡ false)
      → Describes table size radix_num i k rows tbl_null
  own :
      (d : ℕ)
      → get_elem? rows d ≡ some (row table size radix_num radix_num i 0 0)
      → Describes table size radix_num i k rows (tbl (k + d))

-- The notes and rows of the chunks from `i` on.
pub record AreChunks (table : List Bool) (size n radix_num i k : ℕ) (es : List Entry)
    (rows : List (List ℕ)) (last : ℕ) : Type 0 where
  pub described :
      (t : ℕ)
      → t < n
      → (e : Entry) × (get_elem? es t ≡ some e) × Describes table size radix_num (i + t) k rows e
  pub counted : last ≡ k + length rows
  pub blocks : (L : ℕ) → radix_num ≡ 8 * L → AreBlocks L rows

later_row :
    {table : List Bool} {size radix_num k j : ℕ} {rows : List (List ℕ)} {e : Entry} (r : List ℕ)
    → Describes table size radix_num j (k + 1) rows e
    → Describes table size radix_num j k (r ∷ rows) e
later_row r (full f) = full f
later_row r (null f) = null f
later_row {k = k} r (own d h) =
    let next : k + suc d ≡ k + 1 + d = omega arith in rw (← next) (own (suc d) h)

module _ {table : List Bool} {size n radix_num i k : ℕ} {es : List Entry} {rows : List (List ℕ)}
    {last : ℕ} where
  with_note :
      (e : Entry)
      → Describes table size radix_num i k rows e
      → AreChunks table size n radix_num (i + 1) k es rows last
      → AreChunks table size (suc n) radix_num i k (e ∷ es) rows last
  with_note e d a = record { described = at; counted = a.counted; blocks = a.blocks }
    where
      at :
          (t : ℕ)
          → t < suc n
          → (e' : Entry) × (get_elem? (e ∷ es) t ≡ some e')
            × Describes table size radix_num (i + t) k rows e'
      at zero h = let no : i + 0 ≡ i = omega arith in (e, refl, rw no d)
      at (suc t) h =
          let (e', r, d') = a.described t (omega arith) in
          let next : i + 1 + t ≡ i + suc t = omega arith in (e', r, rw next at d')

  with_row :
      AreChunks table size n radix_num (i + 1) (k + 1) es rows last
      → AreChunks table size
          (suc n)
          radix_num
          i
          k
          (tbl k ∷ es)
          (row table size radix_num radix_num i 0 0 ∷ rows)
          last
  with_row a = record {
    described = at;
    counted = omega (arith, a.counted);
    blocks = λ L h. record { sizes = sizes L h };
  }
    where
      at :
          (t : ℕ)
          → t < suc n
          → (e : Entry) × (get_elem? (tbl k ∷ es) t ≡ some e)
            × Describes table size radix_num
                (i + t)
                k
                (row table size radix_num radix_num i 0 0 ∷ rows)
                e
      at zero h =
          let no : i + 0 ≡ i = omega arith in
          let none_before : k + 0 ≡ k = omega arith in
          let d : Describes table size radix_num i k
              (row table size radix_num radix_num i 0 0 ∷ rows) (tbl (k + 0)) =
            own 0 refl in
          (tbl k, refl, rw no (rw none_before at d))
      at (suc t) h =
          let (e, r, d) = a.described t (omega arith) in
          let next : i + 1 + t ≡ i + suc t = omega arith in
          (e, r, later_row (row table size radix_num radix_num i 0 0) (rw next at d))

      sizes :
          (L : ℕ)
          → radix_num ≡ 8 * L
          → (m : ℕ) (xs : List ℕ)
          → get_elem? (row table size radix_num radix_num i 0 0 ∷ rows) m ≡ some xs
          → length xs ≡ L
      sizes L h zero xs e =
          let same : row table size radix_num radix_num i 0 0 ≡ xs = cc in
          ap length (sym same) ∙ rw h (length-row_all table size (8 * L) i L)
      sizes L h (suc m) xs e = (a.blocks L h).sizes m xs e

module _ (table : List Bool) (size radix_num : ℕ) where
  pub chunks-AreChunks :
      (n i k : ℕ)
      → AreChunks table size n radix_num i k
          (chunks table size radix_num n i k).0
          (chunks table size radix_num n i k).1
          (chunks table size radix_num n i k).2
  unfolding chunks
  chunks-AreChunks zero i k = record {
    described = λ t h. absurd (omega arith);
    counted = omega arith;
    blocks = λ L h. record { sizes = λ m xs e. cc };
  }
  chunks-AreChunks (suc n) i k = elim (Bool-cases (all_set table size radix_num radix_num i 0)) [
    | inl set_here ↦ rw set_here (
        with_note tbl_full
          (full (λ j h inside.
            all_set-is_set table size radix_num radix_num i 0 j set_here (omega arith) (omega arith)
              inside))
          (chunks-AreChunks n (i + 1) k))
    | inr not_set ↦ elim (Bool-cases (all_unset table size radix_num radix_num i 0)) [
      | inl unset_here ↦
          rw (not_set, unset_here)
            (with_note tbl_null
              (null (λ j h inside.
                all_unset-is_set table size radix_num radix_num i 0 j unset_here (omega arith)
                  (omega arith) inside))
              (chunks-AreChunks n (i + 1) k))
      | inr mixed ↦ rw (not_set, mixed) (with_row (chunks-AreChunks n (i + 1) (k + 1)))
    ]
  ]
