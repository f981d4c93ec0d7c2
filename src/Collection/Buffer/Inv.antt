-- ===== src/Collection/Buffer/Inv.antt =====
-- What a buffer holds.
use cextras.Base.{
  ℕ, zero, suc, ◌+◌, ◌≤◌, ◌<◌, ◌≡◌, refl, ap, Option, none, some, List, [], ◌∷◌, ◌++◌, length, take,
  min, arith, word,
}
use cextras.Collection.Buffer.{Buffer, Machine, memcpy}

abbrev pub bytes : Option (List ℕ) → List ℕ
bytes none = []
bytes (some xs) = xs

-- The bytes that were appended.
abbrev pub contents : Buffer → List ℕ
contents b = take b.size (bytes b.block)

-- The block has as many bytes as the capacity says, and the size stays within it.
pub record IsValid (b : Buffer) : Type 0 where
  pub block : length (bytes b.block) ≡ b.capacity
  pub size : b.size ≤ b.capacity
  pub in_word : b.capacity < word

-- `realloc` gives a block of the size asked for, which starts with the bytes of the old one.
pub record Reallocates (m : Machine) : Type 0 where
  pub sized :
      (old : Option (List ℕ)) (n : ℕ) (new : List ℕ) → m.realloc old n ≡ some new → length new ≡ n
  pub kept :
      (old : Option (List ℕ)) (n : ℕ) (new : List ℕ)
      → m.realloc old n ≡ some new
      → take (min (length (bytes old)) n) new ≡ take (min (length (bytes old)) n) (bytes old)

pub take-take : (k n : ℕ) (xs : List ℕ) → k ≤ n → take k (take n xs) ≡ take k xs
take-take zero n xs h = refl
take-take (suc k) zero xs h = absurd (omega arith)
take-take (suc k) (suc n) [] h = refl
take-take (suc k) (suc n) (x ∷ xs) h = ap (λ ys. x ∷ ys) (take-take k n xs (omega arith))

pub length-memcpy : (xs : List ℕ) (i : ℕ) (ys : List ℕ) → length (memcpy xs i ys) ≡ length xs
length-memcpy [] i ys = refl
length-memcpy (x ∷ xs) (suc i) ys = ap suc (length-memcpy xs i ys)
length-memcpy (x ∷ xs) zero [] = refl
length-memcpy (x ∷ xs) zero (y ∷ ys) = ap suc (length-memcpy xs zero ys)

-- A copy that fits leaves the bytes before it and puts the new ones behind them.
pub take-memcpy :
    (xs : List ℕ) (i : ℕ) (ys : List ℕ) (n : ℕ)
    → n ≡ i + length ys
    → n ≤ length xs
    → take n (memcpy xs i ys) ≡ take i xs ++ ys
take-memcpy [] zero [] zero e h = refl
take-memcpy [] zero (y ∷ ys) zero e h = absurd (omega arith)
take-memcpy [] (suc i) ys zero e h = absurd (omega arith)
take-memcpy [] i ys (suc n) e h = absurd (omega arith)
take-memcpy (x ∷ xs) (suc i) ys zero e h = absurd (omega arith)
take-memcpy (x ∷ xs) (suc i) ys (suc n) e h =
    ap (λ l. x ∷ l) (take-memcpy xs i ys n (omega arith) (omega arith))
take-memcpy (x ∷ xs) zero [] zero e h = refl
take-memcpy (x ∷ xs) zero [] (suc n) e h = absurd (omega arith)
take-memcpy (x ∷ xs) zero (y ∷ ys) zero e h = absurd (omega arith)
take-memcpy (x ∷ xs) zero (y ∷ ys) (suc n) e h =
    ap (λ l. y ∷ l) (take-memcpy xs zero ys n (omega arith) (omega arith))
