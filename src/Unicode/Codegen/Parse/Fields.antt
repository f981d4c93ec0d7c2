-- ===== src/Unicode/Codegen/Parse/Fields.antt =====
-- Lines that are built of fields and numbers, and how strtok and sscanf take them apart.
use cextras.Base.{
  ℕ, zero, suc, ◌+◌, ◌*◌, ◌^◌, lt→ltb, ◌<◌, ◌≡◌, refl, ap, ◌∙◌, Bool, true, false, none, some, List,
  [], ◌∷◌, ◌++◌, arith, not, ltb, ◌&&◌, if◌then◌else◌, length, replicate, Option, map, append_assoc,
  sym, Bool-cases, inl, inr,
}
use cextras.Unicode.Codegen.Parse.{
  token, strtok, is_space, ends_field, hex_digit, scan_digits, to_uint32, scan_hex, field_at,
}

-- No delimiter is among the characters.
abbrev pub free : (ℕ → Bool) → List ℕ → Bool
free is_delimiter [] = true
free is_delimiter (c ∷ cs) = not (is_delimiter c) && free is_delimiter cs

pub free-append :
    (d : ℕ → Bool) (xs ys : List ℕ) → free d xs ≡ true → free d ys ≡ true → free d (xs ++ ys) ≡ true
free-append d [] ys h h' = h'
free-append d (x ∷ xs) ys h h' = ground (arith, h, free-append d xs ys (ground (arith, h)) h')

token-append :
    (d : ℕ → Bool) (t : List ℕ) (c : ℕ) (rest : List ℕ)
    → free d t ≡ true
    → d c ≡ true
    → token d (t ++ (c ∷ rest)) ≡ (t, rest)
token-append d [] c rest h e = rw e refl
token-append d (x ∷ t) c rest h e =
    let other : d x ≡ false = ground (arith, h) in
    rw (other, token-append d t c rest (ground (arith, h)) e) refl

-- strtok gives a token that is followed by a delimiter.
pub strtok-append :
    (d : ℕ → Bool) (t : List ℕ) (c : ℕ) (rest : List ℕ)
    → 0 < length t
    → free d t ≡ true
    → d c ≡ true
    → strtok d (t ++ (c ∷ rest)) ≡ (some t, rest)
strtok-append d [] c rest p h e = absurd (omega (arith, p))
strtok-append d (x ∷ t) c rest p h e =
    let other : d x ≡ false = ground (arith, h) in
    rw other (rw (token-append d t c rest (ground (arith, h)) e, other) refl)

-- Fields with a semicolon behind each.
abbrev pub joined : List (List ℕ) → List ℕ
joined [] = []
joined (f ∷ fs) = f ++ (59 ∷ joined fs)

abbrev pub IsField : List ℕ → Type 0
IsField f = (0 < length f) × (free ends_field f ≡ true)

abbrev pub AreFields : List (List ℕ) → Type 0
AreFields [] = Unit
AreFields (f ∷ fs) = IsField f × AreFields fs

-- The field behind `before` of them.
pub field_at-joined :
    (before : List (List ℕ)) (field : List ℕ) (c : ℕ) (rest : List ℕ) (line : Option (List ℕ))
    → AreFields before
    → IsField field
    → ends_field c ≡ true
    → field_at (suc (length before)) (line, joined before ++ (field ++ (c ∷ rest))) ≡ some field
field_at-joined [] field c rest line hs h e =
    ap (field_at zero) (strtok-append ends_field field c rest h.0 h.1 e)
field_at-joined (f ∷ fs) field c rest line hs h e =
    ap (λ cs. field_at (suc (length fs)) (strtok ends_field cs))
      (append_assoc f (59 ∷ joined fs) (field ++ (c ∷ rest)))
    ∙ (ap (field_at (suc (length fs)))
          (strtok-append ends_field f 59 (joined fs ++ (field ++ (c ∷ rest))) hs.0.0 hs.0.1 refl)
        ∙ field_at-joined fs field c rest (some f) hs.1 h e)

-- A number in hexadecimal digits, the first one first.
abbrev pub hex_char : ℕ → ℕ
hex_char d = if ltb d 10 then 48 + d else 55 + d

abbrev pub number : List ℕ → List ℕ
number ds = map hex_char ds

abbrev pub value_from : List ℕ → ℕ → ℕ
value_from [] n = n
value_from (d ∷ ds) n = value_from ds (16 * n + d)

abbrev pub AreDigits : List ℕ → Type 0
AreDigits [] = Unit
AreDigits (d ∷ ds) = (d < 16) × AreDigits ds

hex_digit-hex_char : (d : ℕ) → d < 16 → hex_digit (hex_char d) ≡ some d
hex_digit-hex_char d h = elim (Bool-cases (ltb d 10)) [
  | inl small ↦ ground (arith, small)
  | inr big ↦ ground (arith, big)
]

-- What follows a number.
abbrev pub EndsNumber : List ℕ → Type 0
EndsNumber [] = Unit
EndsNumber (c ∷ cs) = hex_digit c ≡ none

scan_digits-stop : (rest : List ℕ) (n : ℕ) → EndsNumber rest → scan_digits rest n ≡ (n, rest)
scan_digits-stop [] n h = refl
scan_digits-stop (c ∷ cs) n h = rw (scan_digits, h) refl

scan_digits-number :
    (ds rest : List ℕ) (n : ℕ)
    → AreDigits ds
    → EndsNumber rest
    → scan_digits (number ds ++ rest) n ≡ (value_from ds n, rest)
scan_digits-number [] rest n h e = scan_digits-stop rest n e
scan_digits-number (d ∷ ds) rest n h e =
    rw (scan_digits, hex_digit-hex_char d h.0) (scan_digits-number ds rest (16 * n + d) h.1 e)

no_space : (d : ℕ) → d < 16 → is_space (hex_char d) ≡ false
no_space d h = ground arith

-- The conversion gives the number back.
pub scan_hex-number :
    (ds rest : List ℕ)
    → 0 < length ds
    → AreDigits ds
    → EndsNumber rest
    → value_from ds 0 < 2 ^ 32
    → scan_hex (number ds ++ rest) ≡ some (some (value_from ds 0, rest))
scan_hex-number [] rest p h e small = absurd (omega (arith, p))
scan_hex-number (d ∷ ds) rest p h e small =
    let first : 16 * 0 + d ≡ d = omega arith in
    let fits = lt→ltb (value_from (d ∷ ds) 0) (2 ^ 32) small in
    rw (no_space d h.0, hex_digit-hex_char d h.0)
      (ap (λ r. to_uint32 (some r))
          (scan_digits-number ds rest d h.1 e ∙ ap (λ n. (value_from ds n, rest)) (sym first))
        ∙ rw fits refl)

pub number-free :
    (d : ℕ → Bool) (ds : List ℕ)
    → ((n : ℕ) → n < 16 → d (hex_char n) ≡ false)
    → AreDigits ds
    → free d (number ds) ≡ true
number-free d [] other h = refl
number-free d (x ∷ xs) other h = rw (other x h.0) (number-free d xs other h.1)

pub spaces-free : (n : ℕ) (d : ℕ → Bool) → d 32 ≡ false → free d (replicate n 32) ≡ true
spaces-free zero d e = refl
spaces-free (suc n) d e = rw e (spaces-free n d e)
