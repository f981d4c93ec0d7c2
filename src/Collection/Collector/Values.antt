-- ===== src/Collection/Collector/Values.antt =====
-- The loop of cx_collect.
use cextras.Base.{
  ℕ, zero, suc, ◌+◌, ◌*◌, ◌^◌, ◌≤◌, ◌<◌, ◌≡◌, ap, sym, ◌∙◌, Option, none, some, List, [], ◌∷◌, ◌++◌,
  arith, append_assoc, append-nil, length, length-append, length-take, le_bytes, length-le_bytes,
}
use mathlib.Core.Path.{subst}
use cextras.Collection.Buffer
use cextras.Collection.Buffer.{Buffer, Machine, Status, success, err_alloc, err_overflow}
use cextras.Collection.Buffer.Inv.{bytes, contents, IsValid, Reallocates}
use cextras.Collection.Buffer.Pow2.{CountsZeros}
use cextras.Collection.Buffer.Append.{
  Appended, appended, no_memory_left, size_over, append-Appended,
}
use cextras.Collection.Collector.{
  Answer, refused, ended, item, Code, added, no_more, next_failed, append_failed, Lists, ◌>>=◌,
  terminated, with_value, with_offset, handle_answer, continue, collect_from,
}
use cextras.Collection.Collector.Layout.{
  words, strings, offsets, strings-append, words-offsets, length-words, length-offsets,
}

-- What an iterator gives: the values `vs`, and then the end or an error.
pub data Yields {I : Type 0} (next : I → Answer × I) : I → List (List ℕ) → Code → Type 0 where
  stops : {i j : I} → next i ≡ (ended, j) → Yields next i [] no_more
  refuses : {i j : I} (rv : ℕ) → next i ≡ (refused rv, j) → Yields next i [] (next_failed rv)
  gives :
      {i j : I} (v : List ℕ) {vs : List (List ℕ)} {c : Code}
      → next i ≡ (item v, j)
      → Yields next j vs c
      → Yields next i (v ∷ vs) c

pub length-contents : (b : Buffer) → IsValid b → length (contents b) ≡ b.size
length-contents b v = omega (arith, length-take b.size (bytes b.block), v.size, v.block)

-- The size of the block that the values need: the pointers with NULL, and the strings.
abbrev pub whole : List (List ℕ) → ℕ
whole vs = 8 * length vs + 8 + length (strings vs)

-- Why a buffer did not take more bytes, on the way to a block for the values: `realloc` had no memory
-- for it, or the block is too large.
pub data Failure (m : Machine) (vs : List (List ℕ)) : Status → Type 0 where
  no_memory : (old : Option (List ℕ)) (n : ℕ) → m.realloc old n ≡ none → Failure m vs err_alloc
  too_large : 2 ^ 63 < whole vs → Failure m vs err_overflow

pub whole-append : (xs ys : List (List ℕ)) → whole xs ≤ whole (xs ++ ys)
whole-append xs ys = omega (
  arith,
  length-append xs ys,
  ap length (strings-append xs ys),
  length-append (strings xs) (strings ys),
)

-- What stops some of the values stops all of them.
pub Failure-append :
    {m : Machine} {s : Status} (xs ys : List (List ℕ)) → Failure m xs s → Failure m (xs ++ ys) s
Failure-append xs ys (no_memory old n e) = no_memory old n e
Failure-append xs ys (too_large h) = too_large (omega (arith, h, whole-append xs ys))

-- The length of the strings with one value more.
one_more :
    (vs : List (List ℕ)) (v : List ℕ)
    → length (strings (vs ++ (v ∷ []))) ≡ length (strings vs) + length v + 1
one_more vs v = omega (
  arith,
  ap length (strings-append vs (v ∷ [])),
  length-append (strings vs) (v ++ (0 ∷ [])),
  length-append v (0 ∷ []),
)

-- The buffers behind the values `vs`.
pub record Holds (vs : List (List ℕ)) (l : Lists) : Type 0 where
  pub offsets_valid : IsValid l.offsets
  pub values_valid : IsValid l.values
  pub offsets_are : contents l.offsets ≡ words (offsets 0 vs)
  pub values_are : contents l.values ≡ strings vs

module _ (m : Machine) where
  -- A value was added, or a buffer did not take it.
  data Handled (vs : List (List ℕ)) : Option (Code × Lists) → Type 0 where
    held : {l : Lists} → Holds vs l → Handled vs (some (added, l))
    failed : {s : Status} {l : Lists} → Failure m vs s → Handled vs (some (append_failed s, l))

  module _ (r : Reallocates m) (c : CountsZeros m) (vs : List (List ℕ)) (v : List ℕ) where
    by_terminator :
        (offs values : Buffer) (o : Option (Status × Buffer))
        → IsValid values
        → IsValid offs
        → contents offs ≡ words (offsets 0 (vs ++ (v ∷ [])))
        → contents values ≡ strings vs ++ v
        → Appended m values (0 ∷ []) o
        → Handled (vs ++ (v ∷ [])) (o >>= λ q. some (terminated offs q))
    by_terminator offs values _ vv ov oe ve (appended b bv e) = held (record {
      offsets_valid = ov;
      values_valid = bv;
      offsets_are = oe;
      values_are =
          e
          ∙ (ap (λ l. l ++ (0 ∷ [])) ve
              ∙ (append_assoc (strings vs) v (0 ∷ []) ∙ sym (strings-append vs (v ∷ []))));
    })
    by_terminator offs values _ vv ov oe ve (no_memory_left n h e) =
        failed (no_memory values.block n e)
    by_terminator offs values _ vv ov oe ve (size_over h) = failed (
        too_large (
          omega (
            arith,
            h,
            length-contents values vv,
            ap length ve,
            length-append (strings vs) v,
            one_more vs v,
          )))

    by_value :
        (offs values : Buffer) (o : Option (Status × Buffer))
        → IsValid values
        → IsValid offs
        → contents offs ≡ words (offsets 0 (vs ++ (v ∷ [])))
        → contents values ≡ strings vs
        → Appended m values v o
        → Handled (vs ++ (v ∷ [])) (o >>= with_value m offs)
    by_value offs values _ vv ov oe ve (appended b bv e) =
        by_terminator offs b (Buffer.append m b (0 ∷ [])) bv ov oe (e ∙ ap (λ l. l ++ v) ve)
          (append-Appended r c bv (0 ∷ []))
    by_value offs values _ vv ov oe ve (no_memory_left n h e) = failed (no_memory values.block n e)
    by_value offs values _ vv ov oe ve (size_over h) =
        failed
          (too_large (omega (arith, h, length-contents values vv, ap length ve, one_more vs v)))

    by_offset :
        (l : Lists) (o : Option (Status × Buffer))
        → Holds vs l
        → Appended m l.offsets (le_bytes 8 l.values.size) o
        → Handled (vs ++ (v ∷ [])) (o >>= with_offset m v l.values)
    by_offset l _ h (appended b bv e) =
        let size : l.values.size ≡ length (strings vs) =
          sym (length-contents l.values h.values_valid) ∙ ap length h.values_are in
        let all : contents b ≡ words (offsets 0 (vs ++ (v ∷ []))) =
          e
          ∙ (ap (λ l'. l' ++ le_bytes 8 l.values.size) h.offsets_are
              ∙ words-offsets vs v l.values.size size) in
        by_value b l.values (Buffer.append m l.values v) h.values_valid bv all h.values_are
          (append-Appended r c h.values_valid v)
    by_offset l _ h (no_memory_left n fits e) = failed (no_memory l.offsets.block n e)
    by_offset l _ h (size_over big) = failed (
        too_large (
          omega (
            arith,
            big,
            length-le_bytes 8 l.values.size,
            length-contents l.offsets h.offsets_valid,
            ap length h.offsets_are,
            length-words (offsets 0 vs),
            length-offsets 0 vs,
            length-append vs (v ∷ []),
          )))

  -- How the loop ends: as the iterator does, with all values in the buffers, or with a failure.
  pub data Looped {I : Type 0} (vs : List (List ℕ)) (end : Code)
      : Option (Code × Lists × ℕ × I) → Type 0 where
    looped :
        {l : Lists} {i : I} (n : ℕ)
        → n ≡ length vs
        → Holds vs l
        → Looped vs end (some (end, l, n, i))
    gave_up :
        {s : Status} {l : Lists} {i : I} (n : ℕ)
        → Failure m vs s
        → Looped vs end (some (append_failed s, l, n, i))

  module _ (r : Reallocates m) (c : CountsZeros m) {I : Type 0} (next : I → Answer × I) where
    by_result :
        (before vs : List (List ℕ)) (v : List ℕ) (end : Code) (j : I) (n : ℕ)
        (rest : ℕ → Lists → I → Option (Code × Lists × ℕ × I)) (o : Option (Code × Lists))
        → ((l : Lists)
            → Holds (before ++ (v ∷ [])) l
            → Looped (before ++ (v ∷ vs)) end (rest (n + 1) l j))
        → Handled (before ++ (v ∷ [])) o
        → Looped (before ++ (v ∷ vs)) end (o >>= (λ (d, l'). some (d, l', j)) >>= continue rest n)
    by_result before vs v end j n rest _ go (held {l} h) = go l h
    by_result before vs v end j n rest _ go (failed {s} {l} f) = gave_up {l = l} {i = j} n (
        subst (λ xs. Failure m xs s) (append_assoc before (v ∷ []) vs)
          (Failure-append (before ++ (v ∷ [])) vs f))

    -- Enough fuel is one round for each value and one for the end.
    pub collect_from-Looped :
        (before vs : List (List ℕ)) (end : Code) (i : I) (l : Lists) (fuel n : ℕ)
        → Yields next i vs end
        → length vs < fuel
        → n ≡ length before
        → Holds before l
        → Looped (before ++ vs) end (collect_from m next fuel n l i)
    unfolding collect_from
    collect_from-Looped before vs end i l zero n y enough count h = absurd (omega arith)
    collect_from-Looped before vs end i l (suc f) n (stops e) enough count h =
        rw (e, append-nil before) (looped n count h)
    collect_from-Looped before vs end i l (suc f) n (refuses rv e) enough count h =
        rw (e, append-nil before) (looped n count h)
    collect_from-Looped before vs end i l (suc f) n (gives {j = j} v {vs = vs'} e y) enough count
          h =
        let more : n + 1 ≡ length (before ++ (v ∷ [])) =
          omega (arith, length-append before (v ∷ [])) in
        let go : (l' : Lists)
            → Holds (before ++ (v ∷ [])) l'
            → Looped (before ++ (v ∷ vs')) end (collect_from m next f (n + 1) l' j) =
          λ l' h'.
            subst (λ xs. Looped xs end (collect_from m next f (n + 1) l' j))
              (append_assoc before (v ∷ []) vs')
              (collect_from-Looped (before ++ (v ∷ [])) vs' end j l' f (n + 1) y (omega arith) more
                h') in
        rw e (
          by_result before vs' v end j n (collect_from m next f) (handle_answer m (item v) l) go (
            by_offset r c before v l (Buffer.append m l.offsets (le_bytes 8 l.values.size)) h
              (append-Appended r c h.offsets_valid (le_bytes 8 l.values.size))))

-- How an iterator may end.
pub data Ends : Code → Type 0 where
  at_end : Ends no_more
  at_error : (rv : ℕ) → Ends (next_failed rv)

pub Yields-Ends :
    {I : Type 0} {next : I → Answer × I} {i : I} {vs : List (List ℕ)} {end : Code}
    → Yields next i vs end
    → Ends end
Yields-Ends (stops e) = at_end
Yields-Ends (refuses rv e) = at_error rv
Yields-Ends (gives v e y) = Yields-Ends y
