-- ===== src/Unicode/Codegen/Blocks.antt =====
-- Arrays that are printed block by block.
use cextras.Base.{
  ℕ, zero, suc, ◌+◌, ◌*◌, ◌<◌, ◌≡◌, refl, ap, sym, Bool, true, false, replicate, length-replicate,
  ◌∙◌, some, List, [], ◌∷◌, ◌++◌, arith, length, get_elem?, get_elem?-append_left,
  get_elem?-append_right,
}
use cextras.Unicode.Codegen.{concat, if_needed}

-- All blocks have `n` bytes.
pub record AreBlocks (n : ℕ) (xss : List (List ℕ)) : Type 0 where
  pub sizes : (k : ℕ) (xs : List ℕ) → get_elem? xss k ≡ some xs → length xs ≡ n

pub get_elem?-concat :
    (n m q : ℕ) (xss : List (List ℕ)) (xs : List ℕ)
    → AreBlocks n xss
    → get_elem? xss m ≡ some xs
    → q < n
    → get_elem? (concat xss) (m * n + q) ≡ get_elem? xs q
get_elem?-concat n m q [] xs b e h = cc
get_elem?-concat n zero q (ys ∷ xss) xs b e h =
    let first : 0 * n + q ≡ q = omega arith in
    let same : ys ≡ xs = cc in
    rw (first, ← same) (get_elem?-append_left ys (concat xss) q (rw (b.sizes 0 ys refl) h))
get_elem?-concat n (suc m) q (ys ∷ xss) xs b e h =
    let next : suc m * n + q ≡ length ys + (m * n + q) = grind (arith, b.sizes 0 ys refl) in
    rw next (
      get_elem?-append_right ys (concat xss) (m * n + q)
      ∙ get_elem?-concat n m q xss xs (record { sizes = λ k. b.sizes (suc k) }) e h)

no-AreBlocks : (n : ℕ) → AreBlocks n []
no-AreBlocks n = record { sizes = λ k xs e. cc }

pub for_block :
    {n : ℕ} {xss : List (List ℕ)} (xs : List ℕ)
    → length xs ≡ n
    → AreBlocks n xss
    → AreBlocks n (xs ∷ xss)
for_block {n} {xss} xs h b = record { sizes = sizes }
  where
    sizes : (k : ℕ) (ys : List ℕ) → get_elem? (xs ∷ xss) k ≡ some ys → length ys ≡ n
    sizes zero ys e = let same : xs ≡ ys = cc in ap length (sym same) ∙ h
    sizes (suc k) ys e = b.sizes k ys e

if_needed-AreBlocks : (n byte : ℕ) (b : Bool) → AreBlocks n (if_needed b n byte)
if_needed-AreBlocks n byte true =
    for_block (replicate n byte) (length-replicate n byte) (no-AreBlocks n)
if_needed-AreBlocks n byte false = no-AreBlocks n

append-AreBlocks :
    {n : ℕ} (rows more : List (List ℕ))
    → AreBlocks n rows
    → AreBlocks n more
    → AreBlocks n (rows ++ more)
append-AreBlocks [] more r m = m
append-AreBlocks (xs ∷ rows) more r m =
    for_block xs (r.sizes zero xs refl)
      (append-AreBlocks rows more (record { sizes = λ k. r.sizes (suc k) }) m)

-- The blocks that are printed: the rows, and the full and the empty one where they are needed.
abbrev pub all_blocks : List (List ℕ) → (need_full need_null : Bool) → ℕ → List (List ℕ)
all_blocks rows need_full need_null n =
    rows ++ (if_needed need_full n 255 ++ if_needed need_null n 0)

pub all_blocks-AreBlocks :
    {n : ℕ} {rows : List (List ℕ)} (a b : Bool)
    → AreBlocks n rows
    → AreBlocks n (all_blocks rows a b n)
all_blocks-AreBlocks {n} {rows} a b r =
    append-AreBlocks rows (if_needed a n 255 ++ if_needed b n 0) r (
      append-AreBlocks (if_needed a n 255) (if_needed b n 0) (if_needed-AreBlocks n 255 a)
        (if_needed-AreBlocks n 0 b))
