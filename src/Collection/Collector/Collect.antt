-- ===== src/Collection/Collector/Collect.antt =====
-- What cx_collect returns.
use cextras.Base.{
  ℕ, zero, suc, ◌+◌, ◌*◌, ◌%◌, ◌<◌, ◌≡◌, refl, ap, sym, ◌∙◌, Option, none, some, List, [], ◌∷◌,
  ◌++◌, map, arith, append_assoc, length, length-append, get_elem?, take, drop, take-append-drop,
  drop-add_append, word, le_bytes,
}
use cextras.Collection.Buffer
use cextras.Collection.Buffer.{Buffer, Machine, Status, success, err_alloc, err_overflow}
use cextras.Collection.Buffer.Inv.{bytes, contents, IsValid, Reallocates}
use cextras.Collection.Buffer.Pow2.{CountsZeros}
use cextras.Collection.Buffer.Append.{
  Appended, appended, no_memory_left, size_over, append-Appended,
}
use cextras.Collection.Collector.{
  Answer, Code, no_more, next_failed, append_failed, Lists, ◌>>=◌, load, relocate, point, finish,
  with_null, join, collect, collect_from,
}
use cextras.Collection.Collector.Layout.{
  words, strings, offsets, moved, load-append, load-words, relocate-words, string-at, length-words,
  length-offsets, offset-lt,
}
use cextras.Collection.Collector.Values.{
  Yields, Failure, no_memory, too_large, Holds, Looped, looped, gave_up, length-contents,
  collect_from-Looped, Ends, at_end, at_error, Yields-Ends,
}

-- A block at the address `at` is an array of pointers, one to each value, with NULL behind them. The
-- pointers lead to bytes of the block: the value, and a zero byte.
pub record Strings (at : ℕ) (vs : List (List ℕ)) (block : List ℕ) : Type 0 where
  pub null : load block (8 * length vs) ≡ some 0
  pub value :
      (i : ℕ) (v : List ℕ)
      → get_elem? vs i ≡ some v
      → (k : ℕ) × (load block (8 * i) ≡ some ((at + k) % word))
        × (take (length v + 1) (drop k block) ≡ v ++ (0 ∷ []))

get_elem?-map :
    (f : ℕ → ℕ) (os : List ℕ) (i o : ℕ)
    → get_elem? os i ≡ some o
    → get_elem? (map f os) i ≡ some (f o)
get_elem?-map f [] i o e = cc
get_elem?-map f (p ∷ os) zero o e = let same : p ≡ o = cc in rw same refl
get_elem?-map f (p ∷ os) (suc i) o e = get_elem?-map f os i o e

length-map : (f : ℕ → ℕ) (os : List ℕ) → length (map f os) ≡ length os
length-map f [] = refl
length-map f (o ∷ os) = ap suc (length-map f os)

module _ (at : ℕ) (vs : List (List ℕ)) (slack : List ℕ) where
  abbrev base : ℕ
  base = 8 * length vs + 8

  abbrev pointers : List ℕ
  pointers = map (moved (base + at)) (offsets 0 vs)

  -- The block behind the loop over the pointers.
  abbrev target : List ℕ
  target = words pointers ++ (le_bytes 8 0 ++ (strings vs ++ slack))

  length-pointers : length (words pointers) ≡ 8 * length vs
  length-pointers = omega (
    arith,
    length-words pointers,
    length-map (moved (base + at)) (offsets 0 vs),
    length-offsets 0 vs,
  )

  drop-target : (k : ℕ) → drop (base + k) target ≡ drop k (strings vs ++ slack)
  drop-target k =
      let head : length (words pointers ++ le_bytes 8 0) ≡ base =
        omega (arith, length-append (words pointers) (le_bytes 8 0), length-pointers) in
      ap (drop (base + k))
        (sym (append_assoc (words pointers) (le_bytes 8 0) (strings vs ++ slack)))
      ∙ (ap (λ n. drop (n + k) ((words pointers ++ le_bytes 8 0) ++ (strings vs ++ slack)))
            (sym head)
          ∙ drop-add_append (words pointers ++ le_bytes 8 0) (strings vs ++ slack) k)

  target-Strings : Strings at vs target
  target-Strings = record {
    null =
        ap (load target) (sym length-pointers)
        ∙ load-append (words pointers) 0 (strings vs ++ slack) (omega arith);
    value = λ i v e.
        let (k, place, here) = string-at vs slack 0 i v e in
        let word_of : moved (base + at) (0 + k) ≡ (at + (base + k)) % word =
          ap (λ n. n % word) (omega arith) in
        (
          base + k,
          load-words pointers (le_bytes 8 0 ++ (strings vs ++ slack)) i (moved (base + at) (0 + k))
                (get_elem?-map (moved (base + at)) (offsets 0 vs) i (0 + k) place) (omega arith)
              ∙ ap some word_of,
          ap (take (length v + 1)) (drop-target k) ∙ here,
        );
  }

  -- The loop over the pointers, in a block that starts with the words and the strings.
  relocate-target :
      (n : ℕ) (block : List ℕ)
      → n ≡ length vs
      → length (strings vs) < word
      → block ≡ words (offsets 0 vs) ++ (le_bytes 8 0 ++ (strings vs ++ slack))
      → relocate n 0 (base + at) block ≡ some target
  relocate-target n block count small e =
      let same : n ≡ length (offsets 0 vs) = omega (arith, length-offsets 0 vs) in
      rw (e, same)
        (relocate-words (offsets 0 vs) 0 (base + at) [] (le_bytes 8 0 ++ (strings vs ++ slack)) refl
          (λ i o at_i. omega (arith, offset-lt 0 vs i o at_i)))

-- What cx_collect comes to, for an iterator that gives `vs` and then ends as `end` says.
pub data Collected (m : Machine) (at : ℕ) (vs : List (List ℕ))
    : Code → Option (Code × Option (List ℕ)) → Type 0 where
  strings_at :
      (block : List ℕ)
      → Strings at vs block
      → Collected m at vs no_more (some (no_more, some block))
  refused_with : (rv : ℕ) → Collected m at vs (next_failed rv) (some (next_failed rv, none))
  not_appended :
      {end : Code} {s : Status}
      → Failure m vs s
      → Collected m at vs end (some (append_failed s, none))

module _ {m : Machine} (r : Reallocates m) (c : CountsZeros m) (at : ℕ) (vs : List (List ℕ)) where
  -- The buffer of the pointers at the end.
  by_block :
      (b : Buffer) (n size : ℕ)
      → IsValid b
      → n ≡ length vs
      → size ≡ 8 * length vs + 8
      → contents b ≡ words (offsets 0 vs) ++ (le_bytes 8 0 ++ strings vs)
      → length (strings vs) < word
      → (o : Option (List ℕ)) → b.block ≡ o
      → Collected m at vs no_more (point at n size o)
  by_block b n size v count top e small none none_there = absurd (
      omega (
        arith,
        length-contents b v,
        ap length e,
        ap (λ x. length (bytes x)) none_there,
        v.size,
        v.block,
        length-append (words (offsets 0 vs)) (le_bytes 8 0 ++ strings vs),
      ))
  by_block b n size v count top e small (some block) there =
      let slack = drop b.size block in
      let parts : block ≡ words (offsets 0 vs) ++ (le_bytes 8 0 ++ (strings vs ++ slack)) =
        sym (take-append-drop b.size block)
        ∙ (ap (λ k. k ++ slack) (ap (λ o. take b.size (bytes o)) (sym there) ∙ e)
            ∙ (append_assoc (words (offsets 0 vs)) (le_bytes 8 0 ++ strings vs) slack
                ∙ ap (λ k. words (offsets 0 vs) ++ k)
                    (append_assoc (le_bytes 8 0) (strings vs) slack))) in
      rw (top, relocate-target at vs slack n block count small parts)
        (strings_at (target at vs slack) (target-Strings at vs slack))

  by_strings :
      (b : Buffer) (n : ℕ)
      → IsValid b
      → n ≡ length vs
      → contents b ≡ words (offsets 0 vs) ++ le_bytes 8 0
      → length (strings vs) < word
      → (o : Option (Status × Buffer)) → Appended m b (strings vs) o
      → Collected m at vs no_more (o >>= finish at n b.size)
  by_strings b n v count e small _ (appended b' v' e') =
      let top : b.size ≡ 8 * length vs + 8 = omega (
        arith,
        length-contents b v,
        ap length e,
        length-append (words (offsets 0 vs)) (le_bytes 8 0),
        length-words (offsets 0 vs),
        length-offsets 0 vs,
      ) in
      let all =
        e'
        ∙ (ap (λ k. k ++ strings vs) e
            ∙ append_assoc (words (offsets 0 vs)) (le_bytes 8 0) (strings vs)) in
      by_block b' n b.size v' count top all small b'.block refl
  by_strings b n v count e small _ (no_memory_left k h e') = not_appended (no_memory b.block k e')
  by_strings b n v count e small _ (size_over h) = not_appended (
      too_large (
        omega (
          arith,
          h,
          length-contents b v,
          ap length e,
          length-append (words (offsets 0 vs)) (le_bytes 8 0),
          length-words (offsets 0 vs),
          length-offsets 0 vs,
        )))

  by_null :
      (l : Lists) (n : ℕ)
      → Holds vs l
      → n ≡ length vs
      → (o : Option (Status × Buffer)) → Appended m l.offsets (le_bytes 8 0) o
      → Collected m at vs no_more (o >>= with_null m at n l.values)
  by_null l n h count _ (appended b v e) =
      let small : length (strings vs) < word = omega (
        arith,
        ap length h.values_are,
        length-contents l.values h.values_valid,
        h.values_valid.size,
        h.values_valid.in_word,
      ) in
      let all = e ∙ ap (λ k. k ++ le_bytes 8 0) h.offsets_are in
      rw h.values_are (
        by_strings b n v count all small (Buffer.append m b (strings vs))
          (append-Appended r c v (strings vs)))
  by_null l n h count _ (no_memory_left k h' e') = not_appended (no_memory l.offsets.block k e')
  by_null l n h count _ (size_over h') = not_appended (
      too_large (
        omega (
          arith,
          h',
          length-contents l.offsets h.offsets_valid,
          ap length h.offsets_are,
          length-words (offsets 0 vs),
          length-offsets 0 vs,
        )))

  by_loop :
      {I : Type 0} {end : Code} (o : Option (Code × Lists × ℕ × I))
      → Ends end
      → Looped m vs end o
      → Collected m at vs end (o >>= join m at)
  by_loop _ at_end (looped {l} n count h) =
      by_null l n h count (Buffer.append m l.offsets (le_bytes 8 0))
        (append-Appended r c h.offsets_valid (le_bytes 8 0))
  by_loop _ (at_error rv) (looped n count h) = refused_with rv
  by_loop _ ends (gave_up n f) = not_appended f

-- Over a `realloc` and a `__builtin_clzll` as documented, and with a callback that gives finitely many
-- values before it ends: cx_collect ends. Where the callback returns an error, that is the result,
-- and where `realloc` has no memory, or the pointers and strings together take more than 2^63 bytes,
-- the error of cx_buffer_append; otherwise the result is 0 and the
-- target an array of pointers, in their order, to the values with a zero byte behind each, and NULL
-- at its end.
pub collect-Collected :
    {m : Machine} {I : Type 0} {next : I → Answer × I} {i : I} {vs : List (List ℕ)} {end : Code}
    → Reallocates m
    → CountsZeros m
    → Yields next i vs end
    → (fuel at : ℕ) → length vs < fuel
    → Collected m at vs end (collect m next fuel at i)
unfolding collect
collect-Collected {m} {next = next} {i = i} {vs = vs} {end = end} r c y fuel at enough =
    let start : Lists = record { offsets = Buffer.init; values = Buffer.init } in
    let none_yet : Holds [] start = record {
      offsets_valid = record { block = refl; size = omega arith; in_word = omega arith };
      values_valid = record { block = refl; size = omega arith; in_word = omega arith };
      offsets_are = refl;
      values_are = refl;
    } in
    by_loop r c at vs (collect_from m next fuel 0 start i) (Yields-Ends y)
      (collect_from-Looped m r c next [] vs end i start fuel 0 y enough refl none_yet)
