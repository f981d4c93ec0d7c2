-- ===== src/Unicode/Utf8/Encode.antt =====
-- The UTF-8 encoding of a code point, as RFC 3629 gives it.
use cextras.Base.{
  ℕ, ◌+◌, ◌*◌, ◌/◌, ◌%◌, ◌≤◌, ◌<◌, ◌≡◌, refl, false, some, List, [], ◌∷◌, ◌++◌, ltb, leb, ◌==◌,
  arith, if◌then◌else◌, length, le→not-ltb, Bool-cases, inl, inr,
}
use cextras.Unicode.Utf8.{value, utf8_len_map, utf16_len_map, cp}

abbrev pub encode : ℕ → List ℕ
encode c =
    if ltb c 128
    then c ∷ []
    else (if ltb c 2048
        then (192 + c / 64) ∷ (128 + c % 64) ∷ []
        else (if ltb c 65536
            then (224 + c / 4096) ∷ (128 + c / 64 % 64) ∷ (128 + c % 64) ∷ []
            else (240 + c / 262144)
              ∷ (128 + c / 4096 % 64)
              ∷ (128 + c / 64 % 64)
              ∷ (128 + c % 64)
              ∷ []))

-- The number of 16-bit units of a code point in UTF-16.
abbrev pub units : ℕ → ℕ
units c = if ltb c 65536 then 1 else 2

-- What the table of cx_utf8_16len counts too much: a unit for each character of three bytes.
abbrev pub surplus : ℕ → ℕ
surplus c = if leb 2048 c then (if ltb c 65536 then 1 else 0) else 0

-- A code point and its encoding, by the number of bytes.
pub data Encoded (c : ℕ) : List ℕ → Type 0 where
  one : c < 128 → Encoded c (c ∷ [])
  two : 128 ≤ c → c < 2048 → Encoded c ((192 + c / 64) ∷ (128 + c % 64) ∷ [])
  three :
      2048 ≤ c
      → c < 65536
      → Encoded c ((224 + c / 4096) ∷ (128 + c / 64 % 64) ∷ (128 + c % 64) ∷ [])
  four :
      65536 ≤ c
      → c < 1114112
      → Encoded c
          ((240 + c / 262144) ∷ (128 + c / 4096 % 64) ∷ (128 + c / 64 % 64) ∷ (128 + c % 64) ∷ [])

pub encode-Encoded : (c : ℕ) → c < 1114112 → Encoded c (encode c)
encode-Encoded c h = elim (Bool-cases (ltb c 128)) [
  | inl e ↦ rw e (one (ground arith))
  | inr e ↦ elim (Bool-cases (ltb c 2048)) [
    | inl e' ↦ rw (e, e') (two (ground arith) (ground arith))
    | inr e' ↦ elim (Bool-cases (ltb c 65536)) [
      | inl e'' ↦ rw (e, e', e'') (three (ground arith) (ground arith))
      | inr e'' ↦ rw (e, e', e'') (four (ground arith) h)
    ]
  ]
]

-- The lengths that the tables have for the first byte of a character of `n` bytes that stands for
-- `u` units by the table for UTF-16.
pub record Row (b n u : ℕ) : Type 0 where
  pub utf8 : utf8_len_map b ≡ n
  pub utf16 : utf16_len_map b ≡ u

Row-one : (b : ℕ) → b < 128 → Row b 1 1
Row-one b h = let e : b / 128 ≡ 0 = omega arith in record { utf8 = rw e refl; utf16 = rw e refl }

Row-two : (b : ℕ) → 192 ≤ b → b < 224 → Row b 2 1
Row-two b h h' =
    let e₁ : (b / 128 == 0) ≡ false = ground arith in
    let e₂ : b / 32 ≡ 6 = omega arith in
    record { utf8 = rw (e₁, e₂) refl; utf16 = rw (e₁, e₂) refl }

Row-three : (b : ℕ) → 224 ≤ b → b < 240 → Row b 3 2
Row-three b h h' =
    let e₁ : (b / 128 == 0) ≡ false = ground arith in
    let e₂ : (b / 32 == 6) ≡ false = ground arith in
    let e₃ : b / 16 ≡ 14 = omega arith in
    record { utf8 = rw (e₁, e₂, e₃) refl; utf16 = rw (e₁, e₂, e₃) refl }

Row-four : (b : ℕ) → 240 ≤ b → b < 248 → Row b 4 2
Row-four b h h' =
    let e₁ : (b / 128 == 0) ≡ false = ground arith in
    let e₂ : (b / 32 == 6) ≡ false = ground arith in
    let e₃ : (b / 16 == 14) ≡ false = ground arith in
    let e₄ : b / 8 ≡ 30 = omega arith in
    record { utf8 = rw (e₁, e₂, e₃, e₄) refl; utf16 = rw (e₁, e₂, e₃, e₄) refl }

-- The entries of the two tables for the first byte of an encoding.
pub record Lead (c : ℕ) (bs : List ℕ) : Type 0 where
  pub first : ℕ
  pub rest : List ℕ
  pub split : bs ≡ first ∷ rest
  pub row : Row first (length bs) (units c + surplus c)

pub Encoded-Lead : {c : ℕ} {bs : List ℕ} → Encoded c bs → Lead c bs
Encoded-Lead {c} (one h) =
    let u : units c + surplus c ≡ 1 = ground arith in
    record { first = c; rest = []; split = refl; row = rw u (Row-one c h) }
Encoded-Lead {c} (two l h) =
    let u : units c + surplus c ≡ 1 = ground arith in
    record {
      first = 192 + c / 64;
      rest = (128 + c % 64) ∷ [];
      split = refl;
      row = rw u (Row-two (192 + c / 64) (omega arith) (omega arith));
    }
Encoded-Lead {c} (three l h) =
    let u : units c + surplus c ≡ 2 = ground arith in
    record {
      first = 224 + c / 4096;
      rest = (128 + c / 64 % 64) ∷ (128 + c % 64) ∷ [];
      split = refl;
      row = rw u (Row-three (224 + c / 4096) (omega arith) (omega arith));
    }
Encoded-Lead {c} (four l h) =
    let u : units c + surplus c ≡ 2 = ground arith in
    record {
      first = 240 + c / 262144;
      rest = (128 + c / 4096 % 64) ∷ (128 + c / 64 % 64) ∷ (128 + c % 64) ∷ [];
      split = refl;
      row = rw u (Row-four (240 + c / 262144) (omega arith) (omega arith));
    }

-- If the bytes begin with the encoding of a code point below 0x110000 and the length covers it,
-- cx_utf8_cp gives that code point back, whatever bytes follow.
pub cp-encode :
    (c : ℕ) (rest : List ℕ) (n : ℕ)
    → c < 1114112
    → length (encode c) ≤ n
    → cp (some (encode c ++ rest)) n ≡ some (value c)
unfolding cp
cp-encode c rest n h fits = decoded (encode c) (encode-Encoded c h) fits
  where
    decoded :
        (bs : List ℕ) → Encoded c bs → length bs ≤ n → cp (some (bs ++ rest)) n ≡ some (value c)
    decoded _ (one h) fits = rw ((Row-one c h).utf8, le→not-ltb n 1 fits) refl
    decoded _ (two l h) fits =
        let r = Row-two (192 + c / 64) (omega arith) (omega arith) in
        let same : (192 + c / 64) % 32 * 64 + (128 + c % 64) % 64 ≡ c = omega arith in
        rw (r.utf8, le→not-ltb n 2 fits, same) refl
    decoded _ (three l h) fits =
        let r = Row-three (224 + c / 4096) (omega arith) (omega arith) in
        let same : (224 + c / 4096) % 16 * 4096
              + (128 + c / 64 % 64) % 64 * 64
              + (128 + c % 64) % 64
            ≡ c =
          omega arith in
        rw (r.utf8, le→not-ltb n 3 fits, same) refl
    decoded _ (four l h') fits =
        let r = Row-four (240 + c / 262144) (omega arith) (omega arith) in
        let same : (240 + c / 262144) % 8 * 262144
              + (128 + c / 4096 % 64) % 64 * 4096
              + (128 + c / 64 % 64) % 64 * 64
              + (128 + c % 64) % 64
            ≡ c =
          omega arith in
        rw (r.utf8, le→not-ltb n 4 fits, same) refl
