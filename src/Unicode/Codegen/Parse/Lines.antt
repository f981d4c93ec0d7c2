-- ===== src/Unicode/Codegen/Parse/Lines.antt =====
-- What parse_range and main make of the lines of a data file.
use cextras.Base.{
  ℕ, zero, suc, ◌^◌, ◌<◌, ◌≡◌, refl, ap, ◌∙◌, true, none, some, List, [], ◌∷◌, ◌++◌, arith, Option,
  length, replicate, if◌then◌else◌,
}
use cextras.Unicode.Utf8.{◌>>=◌}
use cextras.Unicode.Codegen.{Range}
use cextras.Unicode.Codegen.Parse.{
  is_semicolon, ends_field, scan_dots, scan_range, field_at, is_wanted, by_range, parse_first,
  parse_range,
}
use cextras.Unicode.Codegen.Parse.Fields.{
  free, free-append, strtok-append, joined, IsField, AreFields, field_at-joined, number, value_from,
  AreDigits, EndsNumber, scan_hex-number, number-free, spaces-free,
}

-- The first field of a line: a number, or two with dots between them, and spaces.
abbrev pub first_text : List ℕ → Option (List ℕ) → (pad : ℕ) → List ℕ
first_text ds none pad = number ds ++ replicate pad 32
first_text ds (some es) pad = number ds ++ (46 ∷ (46 ∷ (number es ++ replicate pad 32)))

-- The range that it stands for.
abbrev pub range_of : List ℕ → Option (List ℕ) → Range
range_of ds none = record { start = value_from ds 0; end = value_from ds 0 }
range_of ds (some es) = record { start = value_from ds 0; end = value_from es 0 }

-- Hexadecimal digits of a number that a uint32_t can hold.
abbrev pub IsNumber : List ℕ → Type 0
IsNumber ds = (0 < length ds) × AreDigits ds × (value_from ds 0 < 2 ^ 32)

abbrev pub IsEnd : Option (List ℕ) → Type 0
IsEnd none = Unit
IsEnd (some es) = IsNumber es

spaces-EndsNumber : (pad : ℕ) → EndsNumber (replicate pad 32)
spaces-EndsNumber zero = tt
spaces-EndsNumber (suc n) = refl

no_dots : (pad : ℕ) → scan_dots (replicate pad 32) ≡ none
no_dots zero = refl
no_dots (suc zero) = refl
no_dots (suc (suc n)) = refl

scan_range-first_text :
    (ds : List ℕ) (end : Option (List ℕ)) (pad : ℕ)
    → IsNumber ds
    → IsEnd end
    → scan_range (first_text ds end pad) ≡ some (some (range_of ds end))
scan_range-first_text ds none pad n h =
    rw (scan_hex-number ds (replicate pad 32) n.0 n.1 (spaces-EndsNumber pad) n.2, no_dots pad) refl
scan_range-first_text ds (some es) pad n h =
    rw (scan_hex-number ds (46 ∷ (46 ∷ (number es ++ replicate pad 32))) n.0 n.1 refl n.2)
      (rw (scan_hex-number es (replicate pad 32) h.0 h.1 (spaces-EndsNumber pad) h.2) refl)

first_text-free :
    (ds : List ℕ) (end : Option (List ℕ)) (pad : ℕ)
    → AreDigits ds
    → IsEnd end
    → free is_semicolon (first_text ds end pad) ≡ true
first_text-free ds none pad n h =
    free-append is_semicolon (number ds) (replicate pad 32)
      (number-free is_semicolon ds (λ k small. ground arith) n) (spaces-free pad is_semicolon refl)
first_text-free ds (some es) pad n h =
    free-append is_semicolon (number ds) (46 ∷ (46 ∷ (number es ++ replicate pad 32)))
      (number-free is_semicolon ds (λ k small. ground arith) n)
      (free-append is_semicolon (number es) (replicate pad 32)
        (number-free is_semicolon es (λ k small. ground arith) h.1)
        (spaces-free pad is_semicolon refl))

first_text-pos :
    (ds : List ℕ) (end : Option (List ℕ)) (pad : ℕ)
    → 0 < length ds
    → 0 < length (first_text ds end pad)
first_text-pos [] end pad p = absurd (omega (arith, p))
first_text-pos (d ∷ ds) none pad p = omega arith
first_text-pos (d ∷ ds) (some es) pad p = omega arith

-- A line of a data file: the first field, more fields, the one that is looked at with a delimiter
-- behind it, and anything.
abbrev pub line_of : List ℕ → List (List ℕ) → List ℕ → (c : ℕ) → List ℕ → List ℕ
line_of first before field c rest = first ++ (59 ∷ (joined before ++ (field ++ (c ∷ rest))))

-- parse_range of a line whose first field is a number below 2 ^ 32, or two of them as a range, in hexadecimal digits,
-- and of a later field without delimiters, gives that range if the field is one of the five that
-- are looked for, and -1 otherwise.
pub parse_range-line_of :
    (ds : List ℕ) (end : Option (List ℕ)) (pad : ℕ) (before : List (List ℕ)) (field : List ℕ)
    (c : ℕ) (rest : List ℕ)
    → IsNumber ds
    → IsEnd end
    → AreFields before
    → IsField field
    → ends_field c ≡ true
    → parse_range (line_of (first_text ds end pad) before field c rest) (suc (length before))
      ≡ some (if is_wanted field then some (range_of ds end) else none)
unfolding parse_range
parse_range-line_of ds end pad before field c rest n h hs f e =
    let first = first_text ds end pad in
    let tail = joined before ++ (field ++ (c ∷ rest)) in
    ap (parse_first (suc (length before))) (
      strtok-append is_semicolon first 59 tail (first_text-pos ds end pad n.0)
        (first_text-free ds end pad n.1 h) refl)
    ∙ (ap (λ o. o >>= λ r. by_range r (field_at (suc (length before)) (some first, tail)))
          (scan_range-first_text ds end pad n h)
        ∙ ap (by_range (some (range_of ds end)))
            (field_at-joined before field c rest (some first) hs f e))
