-- ===== src/Collection/Buffer/Sample.antt =====
-- A machine whose `realloc` fills new memory with zeros and never fails.
use cextras.Base.{
  ℕ, zero, suc, ◌-◌, ◌^◌, ◌≤◌, ◌<◌, ◌≡◌, refl, ap, sym, ◌∙◌, Bool-cases, inl, inr, some, List, [],
  ◌∷◌, length, take, min, arith, ltb, if◌then◌else◌,
}
use cextras.Collection.Buffer.{Machine}
use cextras.Collection.Buffer.Pow2.{CountsZeros}
use cextras.Collection.Buffer.Inv.{bytes, Reallocates}

-- The zero bits above the highest 1 of a number of `w` bits.
abbrev clz_of : ℕ → ℕ → ℕ
clz_of zero x = 0
clz_of (suc w) x = let rest = clz_of w x in if ltb x (2 ^ w) then suc rest else 0

-- The first `n` bytes of a block, with zeros behind its end.
abbrev filled : List ℕ → ℕ → List ℕ
filled xs zero = []
filled [] (suc n) = 0 ∷ filled [] n
filled (x ∷ xs) (suc n) = x ∷ filled xs n

abbrev pub machine : Machine
machine = record { realloc = λ old n. some (filled (bytes old) n); clz = clz_of 64 }

length-filled : (xs : List ℕ) (n : ℕ) → length (filled xs n) ≡ n
length-filled xs zero = refl
length-filled [] (suc n) = ap suc (length-filled [] n)
length-filled (x ∷ xs) (suc n) = ap suc (length-filled xs n)

take-filled : (xs : List ℕ) (n k : ℕ) → k ≤ n → k ≤ length xs → take k (filled xs n) ≡ take k xs
take-filled xs n zero h h' = refl
take-filled xs zero (suc k) h h' = absurd (omega arith)
take-filled [] (suc n) (suc k) h h' = absurd (omega arith)
take-filled (x ∷ xs) (suc n) (suc k) h h' =
    ap (λ l. x ∷ l) (take-filled xs n k (omega arith) (omega arith))

pub machine-Reallocates : Reallocates machine
machine-Reallocates = record {
  sized = λ old n new e.
      let same : filled (bytes old) n ≡ new = cc in
      ap length (sym same) ∙ length-filled (bytes old) n;
  kept = λ old n new e.
      let same : filled (bytes old) n ≡ new = cc in
      let k = min (length (bytes old)) n in
      ap (take k) (sym same) ∙ take-filled (bytes old) n k (omega arith) (omega arith);
}

clz_of-bounds :
    (w x : ℕ)
    → 0 < x
    → x < 2 ^ w
    → (clz_of w x < w) × (x < 2 ^ (w - clz_of w x)) × (2 ^ (w - 1 - clz_of w x) ≤ x)
clz_of-bounds zero x pos h = absurd (omega arith)
clz_of-bounds (suc w) x pos h = elim (Bool-cases (ltb x (2 ^ w))) [
  | inl small ↦
      let (a, b, c) = clz_of-bounds w x pos (ground arith) in
      let e : suc w - suc (clz_of w x) ≡ w - clz_of w x = omega arith in
      let e' : suc w - 1 - suc (clz_of w x) ≡ w - 1 - clz_of w x = omega arith in
      rw (small, e, e') (omega arith, b, c)
  | inr large ↦
      let e : suc w - 0 ≡ suc w = omega arith in
      let e' : suc w - 1 - 0 ≡ w = omega arith in rw (large, e, e') (omega arith, h, ground arith)
]

pub machine-CountsZeros : CountsZeros machine
machine-CountsZeros = record {
  below = λ x pos h. (clz_of-bounds 64 x pos h).0;
  high = λ x pos h. (clz_of-bounds 64 x pos h).1;
  low = λ x pos h. (clz_of-bounds 64 x pos h).2;
}
