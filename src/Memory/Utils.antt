-- ===== src/Memory/Utils.antt =====
-- lib/memory/utils.c: a copy of a block with a zero byte behind it.
--
-- `calloc` is a parameter: the block for a number of bytes, or `none` for NULL. The result `none` is
-- a read past the end of the source or a write past the end of the target.
mod Tests
use cextras.Base.{
  ℕ, zero, suc, ◌+◌, ◌-◌, ◌≤◌, ◌<◌, ◌%◌, ◌≡◌, refl, ap, ◌∙◌, true, false, Option, none, some, List,
  [], ◌∷◌, ◌++◌, leb, ◌&&◌, if◌then◌else◌, length, take, drop, replicate, length-replicate, word,
  arith, le→leb, ◌⊎◌, inl, inr,
}

-- memcpy to the start of the target, and the return of the target.
abbrev pub copy : List ℕ → ℕ → Option (List ℕ) → Option (Option (List ℕ))
copy source size none = some none
copy source size (some target) =
    if leb size (length source) && leb size (length target)
    then some (some (take size source ++ drop size target))
    else none

-- cx_memdup
pub memdup : (ℕ → Option (List ℕ)) → Option (List ℕ) → ℕ → Option (Option (List ℕ))
memdup calloc none size = some none
memdup calloc (some source) size = copy source size (calloc ((size + 1) % word))

abbrev pub zero_block : ℕ → List ℕ
zero_block n = replicate n 0

-- `calloc` gives a block of zeros of the size asked for, if it gives one.
pub record Clears (calloc : ℕ → Option (List ℕ)) : Type 0 where
  pub zeros : (n : ℕ) (xs : List ℕ) → calloc n ≡ some xs → xs ≡ zero_block n

-- NULL where `calloc` fails, or the first `size` bytes of the source and a zero.
pub data Copied (calloc : ℕ → Option (List ℕ)) (source : List ℕ) (size : ℕ)
    : Option (Option (List ℕ)) → Type 0 where
  failed : calloc (size + 1) ≡ none → Copied calloc source size (some none)
  copied : Copied calloc source size (some (some (take size source ++ (0 ∷ []))))

length-zero_block : (n : ℕ) → length (zero_block n) ≡ n
length-zero_block n = length-replicate n 0

drop-zeros : (n : ℕ) → drop n (zero_block (suc n)) ≡ 0 ∷ []
drop-zeros zero = refl
drop-zeros (suc n) = drop-zeros n

drop-zero_block : (n : ℕ) → drop n (zero_block (n + 1)) ≡ 0 ∷ []
drop-zero_block n =
    let plus_one : n + 1 ≡ suc n = omega arith in
    ap (λ k. drop n (zero_block k)) plus_one ∙ drop-zeros n

-- cx_memdup of a source with `size` bytes or more, below 2^64 - 1, returns a copy of the first
-- `size` bytes with a zero byte behind it, or NULL where `calloc` does, and reads and writes within
-- the two blocks.
pub memdup-Copied :
    {calloc : ℕ → Option (List ℕ)}
    → Clears calloc
    → (source : List ℕ) (size : ℕ) → size ≤ length source
    → size + 1 < word
    → Copied calloc source size (memdup calloc (some source) size)
unfolding memdup
memdup-Copied {calloc} c source size fits small =
    let wrap : (size + 1) % word ≡ size + 1 = omega arith in
    rw wrap (by_result (calloc (size + 1)) refl (c.zeros (size + 1)))
  where
    by_result :
        (r : Option (List ℕ))
        → calloc (size + 1) ≡ r
        → ((xs : List ℕ) → r ≡ some xs → xs ≡ zero_block (size + 1))
        → Copied calloc source size (copy source size r)
    by_result none e z = failed e
    by_result (some xs) e z =
        let room : size ≤ length (zero_block (size + 1)) =
          omega (arith, length-zero_block (size + 1)) in
        rw
          (
            z xs refl,
            le→leb size (length source) fits,
            le→leb size (length (zero_block (size + 1))) room,
            drop-zero_block size,
          )
          copied
