-- ===== src/Collection/Buffer/Append.antt =====
-- Growing a buffer and appending to it.
use cextras.Base.{
  ℕ, ◌+◌, ◌≤◌, ◌<◌, ◌^◌, ◌≡◌, refl, ap, sym, ◌∙◌, Bool-cases, inl, inr, true, Option, none, some,
  List, [], ◌∷◌, ◌++◌, length, take, min, arith, word, max_word, ltb, leb, lt→ltb, le→leb,
  append-nil,
}
use cextras.Collection.Buffer.{
  Buffer, Machine, Status, success, err_alloc, err_overflow, round_to_next_pow2,
  resize_buffer_exact, with_block, resize_rounded, with_pointer, add_capacity, add_capacity_exact,
  copy_in, memcpy, written, write_to, append,
}
use cextras.Collection.Buffer.Pow2.{
  CountsZeros, Rounded, power, too_large, two_mono, round_to_next_pow2-Rounded,
}
use cextras.Collection.Buffer.Inv.{
  bytes, contents, IsValid, Reallocates, take-take, length-memcpy, take-memcpy,
}

-- What growing a buffer by `n` bytes comes to: room for them, or an error with its reason, which
-- leaves the buffer as it is. Sizes above `limit` are an overflow.
pub data Grown (m : Machine) (limit : ℕ) (b : Buffer) (n : ℕ)
    : Option ℕ × Status × Buffer → Type 0 where
  grown :
      (b' : Buffer)
      → IsValid b'
      → b.size + n ≤ b'.capacity
      → b'.size ≡ b.size
      → contents b' ≡ contents b
      → Grown m limit b n (some b.size, success, b')
  no_memory :
      (c : ℕ) → b.size + n ≤ c → m.realloc b.block c ≡ none → Grown m limit b n (none, err_alloc, b)
  over : limit < b.size + n → Grown m limit b n (none, err_overflow, b)

module _ {m : Machine} (r : Reallocates m) {b : Buffer} (v : IsValid b) where
  kept-contents :
      (c : ℕ) (xs : List ℕ)
      → m.realloc b.block c ≡ some xs
      → b.capacity < c
      → take b.size xs ≡ contents b
  kept-contents c xs e more =
      let old = min (length (bytes b.block)) c in
      let within : b.size ≤ old = omega (arith, v.size, v.block) in
      sym (take-take b.size old xs within)
      ∙ ap (take b.size) (r.kept b.block c xs e)
      ∙ take-take b.size old (bytes b.block) within

  resized-Grown :
      (limit n c : ℕ)
      → b.size + n ≤ c
      → b.capacity < c
      → c < word
      → Grown m limit b n (with_pointer b.size (resize_buffer_exact m b c))
  resized-Grown limit n c fits more small = by_result (m.realloc b.block c) refl
    where
      by_result :
          (d : Option (List ℕ))
          → m.realloc b.block c ≡ d
          → Grown m limit b n (with_pointer b.size (with_block b c d))
      by_result none e = no_memory c fits e
      by_result (some xs) e =
          grown (record b { block = some xs; capacity = c })
            (record {
              block = r.sized b.block c xs e;
              size = omega (arith, v.size);
              in_word = small;
            })
            fits refl (kept-contents c xs e more)

  -- cx_buffer_add_capacity of a valid buffer makes room for `n` bytes and keeps size and contents.
  -- Only where `realloc` fails, or where the new size is above 2^63, it returns an error, and then
  -- the buffer is unchanged.
  pub add_capacity-Grown : CountsZeros m → (n : ℕ) → Grown m (2 ^ 63) b n (add_capacity m b n)
  unfolding add_capacity
  add_capacity-Grown c n = elim (Bool-cases (ltb (b.size + n) word)) [
    | inr past ↦ rw past (over (ground arith))
    | inl in_word ↦ elim (Bool-cases (ltb b.capacity (b.size + n))) [
      | inr room ↦ rw (in_word, room) (grown b v (ground arith) refl refl)
      | inl more ↦
          rw (in_word, more)
            (by_rounded (round_to_next_pow2 m (b.size + n))
              (round_to_next_pow2-Rounded (b.size + n) c (ground arith)) (ground arith))
    ]
  ]
    where
      by_rounded :
          (k : Option ℕ)
          → Rounded (b.size + n) k
          → b.capacity < b.size + n
          → Grown m (2 ^ 63) b n (with_pointer b.size (resize_rounded m b k))
      by_rounded _ (too_large h) more = over h
      by_rounded _ (power k small high least) more =
          resized-Grown (2 ^ 63) n (2 ^ k) high (omega arith)
            (omega (arith, two_mono k 63 (omega arith)))

  -- cx_buffer_add_capacity_exact of a valid buffer makes room for `n` bytes and keeps size and
  -- contents. Only where `realloc` fails, or where the new size is no `size_t`, it returns an error,
  -- and then the buffer is unchanged.
  pub add_capacity_exact-Grown : (n : ℕ) → Grown m max_word b n (add_capacity_exact m b n)
  unfolding add_capacity_exact
  add_capacity_exact-Grown n = elim (Bool-cases (ltb (b.size + n) word)) [
    | inr past ↦ rw past (over (ground arith))
    | inl in_word ↦ elim (Bool-cases (ltb b.capacity (b.size + n))) [
      | inr room ↦ rw (in_word, room) (grown b v (ground arith) refl refl)
      | inl more ↦
          rw (in_word, more)
            (resized-Grown max_word n (b.size + n) (omega arith) (ground arith) (ground arith))
    ]
  ]

-- What appending `source` comes to.
pub data Appended (m : Machine) (b : Buffer) (source : List ℕ)
    : Option (Status × Buffer) → Type 0 where
  appended :
      (b' : Buffer)
      → IsValid b'
      → contents b' ≡ contents b ++ source
      → Appended m b source (some (success, b'))
  no_memory_left :
      (c : ℕ)
      → b.size + length source ≤ c
      → m.realloc b.block c ≡ none
      → Appended m b source (some (err_alloc, b))
  size_over : 2 ^ 63 < b.size + length source → Appended m b source (some (err_overflow, b))

-- A copy into a block with room for it.
copied-Appended :
    (m : Machine) (b b' : Buffer) (source : List ℕ)
    → IsValid b'
    → b.size + length source ≤ b'.capacity
    → b'.size ≡ b.size
    → contents b' ≡ contents b
    → 0 < length source
    → Appended m b source (copy_in source (some b.size, success, b'))
copied-Appended m b b' source v fits size same pos = by_block b'.block refl
  where
    by_block :
        (d : Option (List ℕ))
        → b'.block ≡ d
        → Appended m b source (written b' (length source) (write_to d b.size source))
    by_block none e = absurd (omega (arith, rw e at v.block))
    by_block (some xs) e =
        let room : b.size + length source ≤ length xs = rw (rw e at v.block) fits in
        let in_word : b'.size + length source < word = omega (arith, v.in_word) in
        rw
          (
            le→leb (b.size + length source) (length xs) room,
            lt→ltb (b'.size + length source) word in_word,
          )
          (appended
            (record b' { block = some (memcpy xs b.size source); size = b'.size + length source })
            (record {
              block = length-memcpy xs b.size source ∙ rw e at v.block;
              size = omega (arith, fits, size);
              in_word = v.in_word;
            })
            (take-memcpy xs b.size source (b'.size + length source) (omega (arith, size))
                (omega (arith, room, size))
              ∙ ap (λ l. l ++ source) (ap (λ k. take k xs) (sym size) ∙ (rw e at same))))

module _ {m : Machine} (r : Reallocates m) (c : CountsZeros m) {b : Buffer} (v : IsValid b) where
  -- cx_buffer_append to a valid buffer never writes outside of the block, and puts the bytes behind
  -- the contents. Only where `realloc` fails, or where the new size is above 2^63, it returns an
  -- error, and then the buffer is unchanged.
  pub append-Appended : (source : List ℕ) → Appended m b source (append m b source)
  unfolding append
  append-Appended source = elim (Bool-cases (leb (length source) 0)) [
    | inl empty ↦ rw empty (appended b v (nothing source empty))
    | inr some_bytes ↦ rw some_bytes (
        by_grown (add_capacity m b (length source)) (ground arith)
          (add_capacity-Grown r v c (length source)))
  ]
    where
      nothing : (xs : List ℕ) → leb (length xs) 0 ≡ true → contents b ≡ contents b ++ xs
      nothing [] h = sym (append-nil (contents b))
      nothing (x ∷ xs) h = absurd (ground arith)

      by_grown :
          (g : Option ℕ × Status × Buffer)
          → 0 < length source
          → Grown m (2 ^ 63) b (length source) g
          → Appended m b source (copy_in source g)
      by_grown _ pos (no_memory c fits e) = no_memory_left c fits e
      by_grown _ pos (over h) = size_over h
      by_grown _ pos (grown b' v' fits size same) =
          copied-Appended m b b' source v' fits size same pos
