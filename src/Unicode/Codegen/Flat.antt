-- ===== src/Unicode/Codegen/Flat.antt =====
-- The flat table: which code points the ranges of the data file cover.
use cextras.Base.{
  ℕ, zero, suc, ◌+◌, ◌-◌, ◌^◌, ◌%◌, ◌≤◌, ◌<◌, ◌≡◌, refl, ap, ◌∙◌, Bool, true, false, Option, none,
  some, List, [], ◌∷◌, arith, length, get_or, set, replicate, ltb, leb, ◌&&◌, ◌||◌, ◌==◌,
  Bool-cases, inl, inr, length-set, get_or-set_self, get_or-set_ne, length-replicate, not,
}
use cextras.Unicode.Width.{Table, table_lookup, cp_width, to_nat, to_int}
use cextras.Unicode.Codegen.{
  Range, widen, max_from, find_max, mark, mark_line, mark_lines, generate_flat_table,
  print_radix_table,
}
use cextras.Unicode.Codegen.Lookup.{row_count, table_lookup-print_radix_table}

-- The range of a line has the code point.
abbrev pub is_in : Option Range → ℕ → Bool
is_in none c = false
is_in (some r) c = leb r.start c && leb c r.end

-- A range of the lines has the code point.
abbrev pub covers : List (Option Range) → ℕ → Bool
covers [] c = false
covers (line ∷ lines) c = is_in line c || covers lines c

-- `table'` is `table`, with the code points that `f` says set.
record Marked (f : ℕ → Bool) (table table' : List Bool) : Type 0 where
  pub size : length table' ≡ length table
  pub entries : (c : ℕ) → get_or table' c false ≡ (f c || get_or table c false)

mark-Marked :
    (n i : ℕ) (table : List Bool)
    → (0 < n → i + n ≤ length table)
    → length table < 2 ^ 31
    → (table' : List Bool) × (mark n i table ≡ some table')
      × Marked (λ c. leb i c && ltb c (i + n)) table table'
unfolding mark
mark-Marked zero i table h small =
    (table, refl, record { size = refl; entries = λ c. ground arith })
mark-Marked (suc n) i table h small =
    let fits = h (omega arith) in
    let (table', r, m) =
      mark-Marked n (i + 1) (set table i true) (λ p. omega (arith, length-set table i true))
        (omega (arith, length-set table i true)) in
    let inside : ltb i (length table) ≡ true = ground arith in
    let next : (i + 1) % 2 ^ 32 ≡ i + 1 = omega arith in
    (
      table',
      rw (inside, next) r,
      record {
        size = m.size ∙ length-set table i true;
        entries = λ c. m.entries c ∙ elim (Bool-cases (i == c)) [
          | inl here ↦
              let same : i ≡ c = ground arith in
              rw (← same, get_or-set_self table i true false (ground arith)) (ground arith)
          | inr other ↦ rw (get_or-set_ne table i c true false (ground arith)) (ground arith)
        ];
      },
    )

mark_line-Marked :
    (line : Option Range) (table : List Bool) (n : ℕ)
    → widen line n < length table
    → length table < 2 ^ 31
    → (table' : List Bool) × (mark_line line table ≡ some table') × Marked (is_in line) table table'
mark_line-Marked none table n h small = (table, refl, record { size = refl; entries = λ c. refl })
mark_line-Marked (some r) table n h small =
    let (table', e, m) =
      mark-Marked (r.end + 1 - r.start) r.start table (λ p. ground arith) small in
    (
      table',
      e,
      record {
        size = m.size;
        entries = λ c.
            let same : (leb r.start c && ltb c (r.start + (r.end + 1 - r.start)))
                ≡ (leb r.start c && leb c r.end) =
              ground arith in
            m.entries c ∙ ap (λ b. b || get_or table c false) same;
      },
    )

max_from-ge : (lines : List (Option Range)) (n : ℕ) → n ≤ max_from lines n
max_from-ge [] n = omega arith
max_from-ge (line ∷ lines) n =
    let wider : n ≤ widen line n = widen-ge line in omega (arith, max_from-ge lines (widen line n))
  where
    widen-ge : (line : Option Range) → n ≤ widen line n
    widen-ge none = omega arith
    widen-ge (some r) = ground arith

either-either : (a b c : Bool) → (b || (a || c)) ≡ ((a || b) || c)
either-either true true c = refl
either-either true false c = refl
either-either false b c = refl

mark_lines-Marked :
    (lines : List (Option Range)) (table : List Bool) (n : ℕ)
    → max_from lines n < length table
    → length table < 2 ^ 31
    → (table' : List Bool) × (mark_lines lines table ≡ some table')
      × Marked (covers lines) table table'
unfolding mark_lines
mark_lines-Marked [] table n h small = (table, refl, record { size = refl; entries = λ c. refl })
mark_lines-Marked (line ∷ lines) table n h small =
    let (t₁, e₁, m₁) =
      mark_line-Marked line table n (omega (arith, max_from-ge lines (widen line n))) small in
    let (t₂, e₂, m₂) =
      mark_lines-Marked lines t₁ (widen line n) (omega (arith, m₁.size)) (omega (arith, m₁.size)) in
    (
      t₂,
      rw e₁ e₂,
      record {
        size = m₂.size ∙ m₁.size;
        entries = λ c.
            m₂.entries c
            ∙ ap (λ b. covers lines c || b) (m₁.entries c)
            ∙ either-either (is_in line c) (covers lines c) (get_or table c false);
      },
    )

get_or-replicate : (n i : ℕ) → get_or (replicate n false) i false ≡ false
get_or-replicate zero i = refl
get_or-replicate (suc n) zero = refl
get_or-replicate (suc n) (suc i) = get_or-replicate n i

or-false : (a : Bool) → (a || false) ≡ a
or-false true = refl
or-false false = refl

-- What the flat table of a data file is.
pub record Flat (lines : List (Option Range)) (size : ℕ) (table : List Bool) : Type 0 where
  pub filled : length table ≡ size
  pub entries : (c : ℕ) → get_or table c false ≡ covers lines c

to_int-some : (n m : ℕ) → to_int n ≡ some m → (n ≡ m) × (n < 2 ^ 31)
to_int-some n m h = elim (Bool-cases (ltb n (2 ^ 31))) [
  | inl small ↦ let same : n ≡ m = cc (rw small at h) in (same, ground (arith, small))
  | inr big ↦ absurd (cc (rw big at h))
]

-- generate_flat_table with the size that find_max found writes within the table, and sets exactly
-- the code points that a range covers.
pub generate_flat_table-Flat :
    (lines : List (Option Range)) (size : ℕ)
    → find_max lines ≡ some size
    → (table : List Bool) × (generate_flat_table lines size ≡ some table) × Flat lines size table
unfolding generate_flat_table
generate_flat_table-Flat lines size found =
    let (same, small) = to_int-some (max_from lines 0 + 1) size found in
    let (table, e, m) =
      mark_lines-Marked lines (replicate size false) 0 (omega (arith, length-replicate size false))
        (omega (arith, length-replicate size false)) in
    (
      table,
      e,
      record {
        filled = m.size ∙ length-replicate size false;
        entries = λ c.
            m.entries c
            ∙ ap (λ b. covers lines c || b) (get_or-replicate size c)
            ∙ or-false (covers lines c);
      },
    )

-- The two programs together: a data file goes through find_max, generate_flat_table and
-- print_radix_table.
abbrev pub Generated : List (Option Range) → (radix : ℕ) → Table → Type 0
Generated lines radix t =
    (size : ℕ) × (table : List Bool) × (find_max lines ≡ some size)
    × (generate_flat_table lines size ≡ some table)
    × (row_count table radix < 255)
    × (print_radix_table table size radix ≡ some t)

Generated-lookup :
    (lines : List (Option Range)) {radix : ℕ} {t : Table}
    → 3 ≤ radix
    → radix ≤ 23
    → Generated lines radix t
    → (cp : ℕ) → table_lookup t cp ≡ some (covers lines cp)
Generated-lookup lines {radix} {t} h h' (size, table, found, e, few, printed) cp =
    let (table', e', f) = generate_flat_table-Flat lines size found in
    let one : table' ≡ table = cc in
    let filled : length table ≡ size = rw (← one) f.filled in
    let (t', printed', looked) = table_lookup-print_radix_table table radix cp h h' few in
    let one_table : t' ≡ t = cc (rw filled at printed') in
    rw (← one_table) (looked ∙ ap some (rw (← one) (f.entries cp)))

-- With tables that the generator makes of two data files, for radixes from 3 to 23 and with less
-- than 255 chunks that are not uniform, cx_cp_width of any code point is 1, and 1 more if a range
-- of the first file covers it, and 1 less if a range of the second file covers it.
pub cp_width-covers :
    (wide zero_wide : List (Option Range)) {r s : ℕ} {t u : Table}
    → 3 ≤ r
    → r ≤ 23
    → 3 ≤ s
    → s ≤ 23
    → Generated wide r t
    → Generated zero_wide s u
    → (cp : ℕ)
    → cp_width t u cp ≡ some (to_nat (covers wide cp) + to_nat (not (covers zero_wide cp)))
unfolding cp_width
cp_width-covers wide zero_wide h i h' i' g g' cp =
    rw (Generated-lookup wide h i g cp, Generated-lookup zero_wide h' i' g' cp) refl
