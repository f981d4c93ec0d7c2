-- ===== src/Unicode/Codegen/Lookup.antt =====
-- table_lookup over a generated table.
use cextras.Base.{
  ℕ, zero, suc, ◌+◌, ◌*◌, ◌/◌, ◌%◌, ◌^◌, ◌≤◌, ◌<◌, ◌≡◌, refl, ap, ◌∙◌, sym, Bool, true, false, some,
  List, [], ◌∷◌, ◌++◌, arith, length, get_elem?, get_or, replicate, ltb, leb, if◌then◌else◌,
  Bool-cases, inl, inr, get_elem?-append_left, get_elem?-append_right, get_elem?-replicate,
  get_elem?→lt, lt→ltb,
}
use native.Mathlib.Nat.{one-le-pow, pow-suc, pow-le-pow_right, mul-le-mul}
use cextras.Unicode.Width.{Table, table_lookup, has_bit}
use cextras.Unicode.Codegen.{
  Entry, tbl_full, tbl_null, tbl, is_full, is_null, row, chunks, concat, if_needed, index_of,
  indices, divide_ceil, radix_table, print_radix_table,
}
use cextras.Unicode.Codegen.Rows.{is_set, byte_of, byte_of-has_bit, row-byte_of}
use cextras.Unicode.Codegen.Blocks.{get_elem?-concat, all_blocks, all_blocks-AreBlocks}
use cextras.Unicode.Codegen.Chunks.{Describes, full, null, own, AreChunks, chunks-AreChunks}

is_full-get_elem? : (es : List Entry) (t : ℕ) → get_elem? es t ≡ some tbl_full → is_full es ≡ true
is_full-get_elem? [] t e = cc
is_full-get_elem? (tbl_full ∷ es) t e = refl
is_full-get_elem? (tbl_null ∷ es) zero e = cc
is_full-get_elem? (tbl k ∷ es) zero e = cc
is_full-get_elem? (tbl_null ∷ es) (suc t) e = is_full-get_elem? es t e
is_full-get_elem? (tbl k ∷ es) (suc t) e = is_full-get_elem? es t e

is_null-get_elem? : (es : List Entry) (t : ℕ) → get_elem? es t ≡ some tbl_null → is_null es ≡ true
is_null-get_elem? [] t e = cc
is_null-get_elem? (tbl_null ∷ es) t e = refl
is_null-get_elem? (tbl_full ∷ es) zero e = cc
is_null-get_elem? (tbl k ∷ es) zero e = cc
is_null-get_elem? (tbl_full ∷ es) (suc t) e = is_null-get_elem? es t e
is_null-get_elem? (tbl k ∷ es) (suc t) e = is_null-get_elem? es t e

get_elem?-indices :
    (last : ℕ) (need_full : Bool) (es : List Entry) (t : ℕ) (e : Entry)
    → get_elem? es t ≡ some e
    → get_elem? (indices last need_full es) t ≡ some (index_of last need_full e)
get_elem?-indices last b [] t e h = cc
get_elem?-indices last b (x ∷ es) zero e h =
    let same : x ≡ e = cc in ap (λ e. some (index_of last b e)) same
get_elem?-indices last b (x ∷ es) (suc t) e h = get_elem?-indices last b es t e h

null_block :
    (n last : ℕ) (rows : List (List ℕ)) (b : Bool)
    → last ≡ length rows
    → last < 255
    → get_elem? (all_blocks rows b true n) ((if b then last + 1 else last) % 256)
      ≡ some (replicate n 0)
null_block n last rows true c small =
    let index : (last + 1) % 256 ≡ length rows + 1 = omega arith in
    rw index (get_elem?-append_right rows (replicate n 255 ∷ replicate n 0 ∷ []) 1)
null_block n last rows false c small =
    let index : last % 256 ≡ length rows + 0 = omega arith in
    rw index (get_elem?-append_right rows (replicate n 0 ∷ []) 0)

module _ (table : List Bool) (size radix_num n : ℕ) (wide : radix_num ≡ 8 * n) where
  -- The byte `q` of the block that an entry stands for has the bits of the chunk `i`.
  record Shows (blocks : List (List ℕ)) (index i q : ℕ) : Type 0 where
    pub block : List ℕ
    pub found : get_elem? blocks index ≡ some block
    pub f : ℕ → Bool
    pub byte : get_elem? block q ≡ some (byte_of f)
    pub bits :
        (p : ℕ)
        → p < 8
        → i * radix_num + (8 * q + p) < size
        → f p ≡ is_set table size radix_num i (8 * q + p)

  Describes-Shows :
      (rows : List (List ℕ)) (es : List Entry) (t i q last : ℕ) (e : Entry)
      → get_elem? es t ≡ some e
      → last ≡ length rows
      → last < 255
      → q < n
      → Describes table size radix_num i 0 rows e
      → Shows (all_blocks rows (is_full es) (is_null es) n) (index_of last (is_full es) e) i q
  Describes-Shows rows es t i q last _ at c small h (full f) =
      let need = is_full-get_elem? es t at in
      let index : last % 256 ≡ length rows + 0 = omega arith in
      record {
        block = replicate n 255;
        found =
            rw (need, index)
              (get_elem?-append_right rows ((replicate n 255 ∷ []) ++ if_needed (is_null es) n 0)
                0);
        f = λ p. true;
        byte = get_elem?-replicate n q 255 h;
        bits = λ p small inside. sym (f (8 * q + p) (omega arith) inside);
      }
  Describes-Shows rows es t i q last _ at c small h (null f) =
      let need = is_null-get_elem? es t at in
      record {
        block = replicate n 0;
        found = rw need (null_block n last rows (is_full es) c small);
        f = λ p. false;
        byte = get_elem?-replicate n q 0 h;
        bits = λ p small inside. sym (f (8 * q + p) (omega arith) inside);
      }
  Describes-Shows rows es t i q last _ at c small h (own d e) =
      let index : (0 + d) % 256 ≡ d =
        omega (arith, get_elem?→lt rows d (row table size radix_num radix_num i 0 0) e) in
      record {
        block = row table size radix_num radix_num i 0 0;
        found = rw index (
            get_elem?-append_left rows (if_needed (is_full es) n 255 ++ if_needed (is_null es) n 0)
              d (get_elem?→lt rows d (row table size radix_num radix_num i 0 0) e)
            ∙ e);
        f = λ p. is_set table size radix_num i (8 * q + p);
        byte = rw wide (row-byte_of table size (8 * n) i n q h);
        bits = λ p small inside. refl;
      }

get_or-beyond : (xs : List Bool) (i : ℕ) → length xs ≤ i → get_or xs i false ≡ false
get_or-beyond [] i h = refl
get_or-beyond (x ∷ xs) zero h = absurd (omega arith)
get_or-beyond (x ∷ xs) (suc i) h = get_or-beyond xs i (omega arith)

chunk-lt : (cp size n : ℕ) → 0 < n → cp < size → cp / n < divide_ceil size n
chunk-lt cp size n pos h = grind arith

table_lookup-has_bit :
    (t : Table) (cp index byte : ℕ)
    → cp < t.size
    → 2 ^ t.radix < 2 ^ 31
    → get_elem? t.lookup (cp / 2 ^ t.radix) ≡ some index
    → index * 2 ^ t.radix < 2 ^ 31
    → get_elem? t.tbl (index * 2 ^ t.radix / 8 + cp % 2 ^ t.radix / 8) ≡ some byte
    → table_lookup t cp ≡ some (has_bit byte (cp % 8))
unfolding table_lookup
table_lookup-has_bit t cp index byte h shift e offset e' =
    let near : leb t.size cp ≡ false = ground arith in
    rw (near, lt→ltb (2 ^ t.radix) (2 ^ 31) shift, e)
      (rw (lt→ltb (index * 2 ^ t.radix) (2 ^ 31) offset, e') refl)

table_lookup-beyond : (t : Table) (cp : ℕ) → t.size ≤ cp → table_lookup t cp ≡ some false
unfolding table_lookup
table_lookup-beyond t cp h = let far : leb t.size cp ≡ true = ground arith in rw far refl

index_of-lt : (last : ℕ) (need_full : Bool) (e : Entry) → index_of last need_full e < 256
index_of-lt last b tbl_full = omega arith
index_of-lt last true tbl_null = omega arith
index_of-lt last false tbl_null = omega arith
index_of-lt last b (tbl k) = omega arith

offset-lt : (index radix_num : ℕ) → index < 256 → radix_num ≤ 2 ^ 23 → index * radix_num < 2 ^ 31
offset-lt index radix_num h h' =
    let small : index ≤ 255 = omega arith in
    let product : index * radix_num ≤ 255 * 2 ^ 23 = mul-le-mul small h' in omega (arith, product)

small_pow : (radix : ℕ) → radix ≤ 23 → 2 ^ radix ≤ 2 ^ 23
small_pow radix h = pow-le-pow_right (omega arith) h

-- The number of rows that the generator prints for the chunks that are not uniform.
abbrev pub row_count : List Bool → (radix : ℕ) → ℕ
row_count table radix =
    (chunks table (length table) (2 ^ radix) (divide_ceil (length table) (2 ^ radix)) 0 0).2

module _ (table : List Bool) (radix n : ℕ) (wide : 2 ^ radix ≡ 8 * n) where
  index-shift : (m : ℕ) → m * 2 ^ radix / 8 ≡ m * n
  index-shift m = rw wide (grind arith)

  placing : (cp : ℕ) → 8 * (cp % 2 ^ radix / 8) + cp % 8 ≡ cp % 2 ^ radix
  placing cp = rw wide (grind arith)

  quotient-lt : (cp : ℕ) → 0 < 2 ^ radix → cp % 2 ^ radix / 8 < n
  quotient-lt cp pos = rw wide (grind (arith, rw wide at pos))

  splitting : (cp : ℕ) → cp / 2 ^ radix * 2 ^ radix + cp % 2 ^ radix ≡ cp
  splitting cp = grind arith

module _ (table : List Bool) (radix : ℕ) (wide : 2 ^ radix ≡ 8 * (2 ^ radix / 8))
    (few : row_count table radix < 255) (small_radix : 2 ^ radix ≤ 2 ^ 23) where
  abbrev printed : List Entry × List (List ℕ) × ℕ
  printed = chunks table (length table) (2 ^ radix) (divide_ceil (length table) (2 ^ radix)) 0 0

  pieces :
      AreChunks table
        (length table)
        (divide_ceil (length table) (2 ^ radix))
        (2 ^ radix)
        0
        0
        printed.0
        printed.1
        printed.2
  pieces =
      chunks-AreChunks table (length table) (2 ^ radix) (divide_ceil (length table) (2 ^ radix)) 0 0

  -- A code point in range.
  lookup-inside :
      (cp : ℕ)
      → cp < length table
      → table_lookup (radix_table table (length table) (2 ^ radix) radix) cp
        ≡ some (get_or table cp false)
  unfolding radix_table
  lookup-inside cp inside =
      let pos : 0 < 2 ^ radix = one-le-pow radix 2 (omega arith) in
      let i = cp / 2 ^ radix in
      let q = cp % 2 ^ radix / 8 in
      let (e, at, d) = pieces.described i (chunk-lt cp (length table) (2 ^ radix) pos inside) in
      let first : 0 + i ≡ i = omega arith in
      let below : q < 2 ^ radix / 8 = quotient-lt table radix (2 ^ radix / 8) wide cp pos in
      let s =
        Describes-Shows table (length table) (2 ^ radix) (2 ^ radix / 8) wide printed.1 printed.0 i
          i q printed.2 e at (omega (arith, pieces.counted)) few below (rw first at d) in
      let p_small : cp % 8 < 8 = omega arith in
      let entry = get_elem?-indices printed.2 (is_full printed.0) printed.0 i e at in
      let byte =
        get_elem?-concat (2 ^ radix / 8) (index_of printed.2 (is_full printed.0) e) q
          (all_blocks printed.1 (is_full printed.0) (is_null printed.0) (2 ^ radix / 8)) s.block
          (all_blocks-AreBlocks (is_full printed.0) (is_null printed.0)
            (pieces.blocks (2 ^ radix / 8) wide))
          s.found below
        ∙ s.byte in
      let blocks = all_blocks printed.1 (is_full printed.0) (is_null printed.0) (2 ^ radix / 8) in
      let in_chunk : i * 2 ^ radix + (8 * q + cp % 8) ≡ cp =
        ap (λ j. i * 2 ^ radix + j) (placing table radix (2 ^ radix / 8) wide cp)
        ∙ splitting table radix (2 ^ radix / 8) wide cp in
      let said : s.f (cp % 8) ≡ get_or table cp false =
        s.bits (cp % 8) p_small (rw in_chunk inside)
        ∙ rw (in_chunk, lt→ltb cp (length table) inside) refl in
      let index = index_of printed.2 (is_full printed.0) e in
      table_lookup-has_bit (radix_table table (length table) (2 ^ radix) radix) cp index
        (byte_of s.f) inside (omega arith) entry
        (offset-lt index (2 ^ radix) (index_of-lt printed.2 (is_full printed.0) e) small_radix)
        (ap (λ k. get_elem? (concat blocks) (k + q))
            (index-shift table radix (2 ^ radix / 8) wide index)
          ∙ byte)
      ∙ ap some (byte_of-has_bit s.f (cp % 8) p_small ∙ said)

wide_radix : (radix : ℕ) → 3 ≤ radix → 2 ^ radix ≡ 8 * (2 ^ radix / 8)
wide_radix zero h = absurd (omega arith)
wide_radix (suc zero) h = absurd (omega arith)
wide_radix (suc (suc zero)) h = absurd (omega arith)
wide_radix (suc (suc (suc r))) h =
    let e : 2 ^ suc (suc (suc r)) ≡ 8 * 2 ^ r =
      omega (arith, pow-suc 2 r, pow-suc 2 (suc r), pow-suc 2 (suc (suc r))) in
    omega arith

lookup-radix_table :
    (table : List Bool) (radix cp : ℕ)
    → 3 ≤ radix
    → radix ≤ 23
    → row_count table radix < 255
    → table_lookup (radix_table table (length table) (2 ^ radix) radix) cp
      ≡ some (get_or table cp false)
unfolding radix_table
lookup-radix_table table radix cp h h' few = elim (Bool-cases (ltb cp (length table))) [
  | inl inside ↦
      lookup-inside table radix (wide_radix radix h) few (small_pow radix h') cp (ground arith)
  | inr beyond ↦
      table_lookup-beyond (radix_table table (length table) (2 ^ radix) radix) cp (ground arith)
      ∙ ap some (sym (get_or-beyond table cp (ground arith)))
]

-- With a radix from 3 to 23, with which no shift and no product of table_lookup overflows, and with less than 255 chunks that are not uniform, table_lookup in
-- the table that print_radix_table prints reads within it and gives the entry of the flat table,
-- and false behind its end.
pub table_lookup-print_radix_table :
    (table : List Bool) (radix cp : ℕ)
    → 3 ≤ radix
    → radix ≤ 23
    → row_count table radix < 255
    → (t : Table) × (print_radix_table table (length table) radix ≡ some t)
      × (table_lookup t cp ≡ some (get_or table cp false))
unfolding print_radix_table
table_lookup-print_radix_table table radix cp h h' few =
    let shift : ltb (2 ^ radix) (2 ^ 31) ≡ true =
      lt→ltb (2 ^ radix) (2 ^ 31) (omega (arith, small_pow radix h')) in
    (
      radix_table table (length table) (2 ^ radix) radix,
      rw shift refl,
      lookup-radix_table table radix cp h h' few,
    )
