-- ===== src/Unicode/Codegen/Rows.antt =====
-- The bytes of a chunk.
use cextras.Base.{
  ℕ, zero, suc, ◌+◌, ◌*◌, ◌/◌, ◌%◌, ◌^◌, ◌≤◌, ◌<◌, ◌≡◌, refl, ap, ap₂, ◌∙◌, Bool, true, false, some,
  List, ◌∷◌, arith, length, get_elem?, get_or, ltb, ◌==◌, not, ◌&&◌, if◌then◌else◌, Bool-cases, inl,
  inr, ==→eq,
}
use cextras.Unicode.Width.{has_bit, to_nat}
use cextras.Unicode.Codegen.{bit, row}

module _ (table : List Bool) (size radix_num i : ℕ) where
  -- The first `n` bits of the byte `q`.
  abbrev pub bits : ℕ → ℕ → ℕ
  bits q zero = 0
  bits q (suc n) = bits q n + bit table size radix_num i (8 * q + n)

  row-bits :
      (n j byte q r d : ℕ)
      → j ≡ 8 * q + r
      → r < 8
      → byte ≡ bits q r
      → 8 * (q + d) + 8 ≤ n + j
      → get_elem? (row table size radix_num n i j byte) d ≡ some (bits (q + d) 8)
  unfolding row
  row-bits zero j byte q r d at small e h = absurd (omega arith)
  row-bits (suc n) j byte q r d at small e h = elim (Bool-cases (j % 8 == 7)) [
    | inr open_byte ↦ rw open_byte (
        row-bits n (j + 1) (byte + bit table size radix_num i j) q (suc r) d (omega arith)
          (ground arith) next h')
    | inl last ↦ rw last (
        full_byte (λ d h. row-bits n (j + 1) 0 (q + 1) 0 d (ground arith) (omega arith) refl h) d
          (==→eq (j % 8) 7 last) h)
  ]
    where
      next : byte + bit table size radix_num i j ≡ bits q (suc r)
      next = ap₂ (λ b k. b + bit table size radix_num i k) e at

      h' : 8 * (q + d) + 8 ≤ n + (j + 1)
      h' = omega arith

      full_byte :
          ((d : ℕ)
            → 8 * (q + 1 + d) + 8 ≤ n + (j + 1)
            → get_elem? (row table size radix_num n i (j + 1) 0) d ≡ some (bits (q + 1 + d) 8))
          → (d : ℕ) → j % 8 ≡ 7
          → 8 * (q + d) + 8 ≤ suc n + j
          → get_elem?
              ((byte + bit table size radix_num i j) ∷ row table size radix_num n i (j + 1) 0)
              d
            ≡ some (bits (q + d) 8)
      full_byte ih zero last h =
          let r' : suc r ≡ 8 = omega arith in
          let q' : q + 0 ≡ q = omega arith in rw q' (ap some (next ∙ ap (bits q) r'))
      full_byte ih (suc d) last h =
          let q' : q + 1 + d ≡ q + suc d = omega arith in rw (← q') (ih d (omega arith))

  pub length-row :
      (n j byte : ℕ) → length (row table size radix_num n i j byte) + j / 8 ≡ (n + j) / 8
  unfolding row
  length-row zero j byte = omega arith
  length-row (suc n) j byte = elim (Bool-cases (j % 8 == 7)) [
    | inl last ↦ rw last (ground (arith, length-row n (j + 1) 0))
    | inr open_byte ↦
        rw open_byte (ground (arith, length-row n (j + 1) (byte + bit table size radix_num i j)))
  ]

to_nat-le : (b : Bool) → to_nat b ≤ 1
to_nat-le true = omega arith
to_nat-le false = omega arith

not-to_nat : (b : Bool) (n : ℕ) → n ≡ to_nat b → not (n == 0) ≡ b
not-to_nat true n e = ground arith
not-to_nat false n e = ground arith

abbrev pub byte_of : (ℕ → Bool) → ℕ
byte_of f =
    to_nat (f 0)
    + 2 * to_nat (f 1)
    + 4 * to_nat (f 2)
    + 8 * to_nat (f 3)
    + 16 * to_nat (f 4)
    + 32 * to_nat (f 5)
    + 64 * to_nat (f 6)
    + 128 * to_nat (f 7)

module _ (f : ℕ → Bool) where
  digits-le : (k : ℕ) → to_nat (f k) ≤ 1
  digits-le k = to_nat-le (f k)

  -- A byte has the bits that it was put together of.
  pub byte_of-has_bit : (p : ℕ) → p < 8 → has_bit (byte_of f) p ≡ f p
  byte_of-has_bit zero h = not-to_nat (f 0) (byte_of f / 2 ^ 0 % 2) (
      omega (
        arith,
        digits-le 0,
        digits-le 1,
        digits-le 2,
        digits-le 3,
        digits-le 4,
        digits-le 5,
        digits-le 6,
        digits-le 7,
      ))
  byte_of-has_bit (suc zero) h = not-to_nat (f 1) (byte_of f / 2 ^ 1 % 2) (
      omega (
        arith,
        digits-le 0,
        digits-le 1,
        digits-le 2,
        digits-le 3,
        digits-le 4,
        digits-le 5,
        digits-le 6,
        digits-le 7,
      ))
  byte_of-has_bit (suc (suc zero)) h = not-to_nat (f 2) (byte_of f / 2 ^ 2 % 2) (
      omega (
        arith,
        digits-le 0,
        digits-le 1,
        digits-le 2,
        digits-le 3,
        digits-le 4,
        digits-le 5,
        digits-le 6,
        digits-le 7,
      ))
  byte_of-has_bit (suc (suc (suc zero))) h = not-to_nat (f 3) (byte_of f / 2 ^ 3 % 2) (
      omega (
        arith,
        digits-le 0,
        digits-le 1,
        digits-le 2,
        digits-le 3,
        digits-le 4,
        digits-le 5,
        digits-le 6,
        digits-le 7,
      ))
  byte_of-has_bit (suc (suc (suc (suc zero)))) h = not-to_nat (f 4) (byte_of f / 2 ^ 4 % 2) (
      omega (
        arith,
        digits-le 0,
        digits-le 1,
        digits-le 2,
        digits-le 3,
        digits-le 4,
        digits-le 5,
        digits-le 6,
        digits-le 7,
      ))
  byte_of-has_bit (suc (suc (suc (suc (suc zero))))) h = not-to_nat (f 5) (byte_of f / 2 ^ 5 % 2) (
      omega (
        arith,
        digits-le 0,
        digits-le 1,
        digits-le 2,
        digits-le 3,
        digits-le 4,
        digits-le 5,
        digits-le 6,
        digits-le 7,
      ))
  byte_of-has_bit (suc (suc (suc (suc (suc (suc zero)))))) h =
      not-to_nat (f 6) (byte_of f / 2 ^ 6 % 2) (
        omega (
          arith,
          digits-le 0,
          digits-le 1,
          digits-le 2,
          digits-le 3,
          digits-le 4,
          digits-le 5,
          digits-le 6,
          digits-le 7,
        ))
  byte_of-has_bit (suc (suc (suc (suc (suc (suc (suc zero))))))) h =
      not-to_nat (f 7) (byte_of f / 2 ^ 7 % 2) (
        omega (
          arith,
          digits-le 0,
          digits-le 1,
          digits-le 2,
          digits-le 3,
          digits-le 4,
          digits-le 5,
          digits-le 6,
          digits-le 7,
        ))
  byte_of-has_bit (suc (suc (suc (suc (suc (suc (suc (suc n)))))))) h = absurd (omega arith)

-- Whether the code point `j` of the chunk `i` is in range and set.
abbrev pub is_set : List Bool → (size radix_num i j : ℕ) → Bool
is_set table size radix_num i j =
    ltb (i * radix_num + j) size && get_or table (i * radix_num + j) false

module _ (table : List Bool) (size radix_num i : ℕ) where
  bit-is_set :
      (q k : ℕ)
      → k < 8
      → bit table size radix_num i (8 * q + k)
        ≡ 2 ^ k * to_nat (is_set table size radix_num i (8 * q + k))
  bit-is_set q k h =
      let place : (8 * q + k) % 8 ≡ k = omega arith in
      rw place (
        either (ltb (i * radix_num + (8 * q + k)) size)
          (get_or table (i * radix_num + (8 * q + k)) false))
    where
      either : (a b : Bool) → (if a then (if b then 2 ^ k else 0) else 0) ≡ 2 ^ k * to_nat (a && b)
      either true true = omega arith
      either true false = omega arith
      either false b = omega arith

  bits-byte_of :
      (q : ℕ)
      → bits table size radix_num i q 8 ≡ byte_of (λ k. is_set table size radix_num i (8 * q + k))
  bits-byte_of q = omega (
    arith,
    bit-is_set q 0 (omega arith),
    bit-is_set q 1 (omega arith),
    bit-is_set q 2 (omega arith),
    bit-is_set q 3 (omega arith),
    bit-is_set q 4 (omega arith),
    bit-is_set q 5 (omega arith),
    bit-is_set q 6 (omega arith),
    bit-is_set q 7 (omega arith),
  )

  -- The row of a chunk of `8 * n` code points has `n` bytes, and its bit `p` of byte `q` says
  -- whether that code point is set.
  pub row-byte_of :
      (n q : ℕ)
      → q < n
      → get_elem? (row table size radix_num (8 * n) i 0 0) q
        ≡ some (byte_of (λ k. is_set table size radix_num i (8 * q + k)))
  row-byte_of n q h =
      let start : 0 + q ≡ q = omega arith in
      let got =
        row-bits table size radix_num i (8 * n) 0 0 0 0 q (omega arith) (omega arith) refl
          (omega arith) in
      rw start at got ∙ ap some (bits-byte_of q)

  pub length-row_all : (n : ℕ) → length (row table size radix_num (8 * n) i 0 0) ≡ n
  length-row_all n = omega (arith, length-row table size radix_num i (8 * n) 0 0)
