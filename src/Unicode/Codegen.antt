-- ===== src/Unicode/Codegen.antt =====
-- lib/unicode/codegen/char_width.c: the generator of the tables that unicode-width.c looks up.
--
-- The lines of the data file come as the ranges that parse_range reads from them, `none` for a line
-- that it rejects; Codegen/Parse says how. Instead of C text, the result is the arrays and constants
-- that the text defines. `none` is undefined behaviour: a write past the end, or a number that its
-- type cannot hold.
pub mod Blocks
pub mod Rows
pub mod Chunks
pub mod Lookup
pub mod Flat
pub mod Parse
mod Tests
use cextras.Base.{
  ℕ, zero, suc, ◌+◌, ◌-◌, ◌*◌, ◌/◌, ◌%◌, ◌^◌, Bool, true, false, Option, none, some, List, [], ◌∷◌,
  ◌++◌, not, ltb, leb, ◌==◌, ◌&&◌, ◌||◌, if◌then◌else◌, get_elem?, get_or, set, replicate, length,
}
use cextras.Unicode.Utf8.{◌>>=◌}
use cextras.Unicode.Width.{Table, to_int}

-- `struct Range`, with numbers below 2 ^ 32.
pub record Range : Type 0 where
  pub start : ℕ
  pub end : ℕ

abbrev pub widen : Option Range → ℕ → ℕ
widen none codepoint_size = codepoint_size
widen (some r) codepoint_size =
    if ltb codepoint_size r.end
    then r.end
    else (if ltb codepoint_size r.start then r.start else codepoint_size)

-- The loop of find_max.
abbrev pub max_from : List (Option Range) → ℕ → ℕ
max_from [] codepoint_size = codepoint_size
max_from (line ∷ lines) codepoint_size = max_from lines (widen line codepoint_size)

-- find_max. Its result is an int: a size that an int cannot hold becomes 0 or a negative number,
-- and main then uses a table that calloc could not make or that is empty, which is `none`.
abbrev pub find_max : List (Option Range) → Option ℕ
find_max lines = to_int (max_from lines 0 + 1)

-- The loop over a range, with the number of its rounds; `none` is a write past the end. The table
-- has less than 2 ^ 31 entries, so that the loop never goes on with an index that wrapped.
pub mark : (rounds i : ℕ) → List Bool → Option (List Bool)
mark zero i table = some table
mark (suc n) i table =
    if ltb i (length table) then mark n ((i + 1) % 2 ^ 32) (set table i true) else none

abbrev pub mark_line : Option Range → List Bool → Option (List Bool)
mark_line none table = some table
mark_line (some r) table = mark (r.end + 1 - r.start) r.start table

-- The loop of generate_flat_table over the lines.
pub mark_lines : List (Option Range) → List Bool → Option (List Bool)
mark_lines [] table = some table
mark_lines (line ∷ lines) table = mark_line line table >>= mark_lines lines

-- generate_flat_table, where `calloc` does not fail.
pub generate_flat_table : List (Option Range) → (codepoint_size : ℕ) → Option (List Bool)
unfolding mark_lines
generate_flat_table lines codepoint_size = mark_lines lines (replicate codepoint_size false)

-- DIVIDE_CEIL
abbrev pub divide_ceil : ℕ → ℕ → ℕ
divide_ceil x y = x / y + (if x % y == 0 then 0 else 1)

-- What the lookup table says of a chunk: TBL_FULL, TBL_NULL, or a row of its own.
pub data Entry : Type 0 where
  tbl_full : Entry
  tbl_null : Entry
  tbl : ℕ → Entry

abbrev pub is_full : List Entry → Bool
is_full [] = false
is_full (tbl_full ∷ es) = true
is_full (_ ∷ es) = is_full es

abbrev pub is_null : List Entry → Bool
is_null [] = false
is_null (tbl_null ∷ es) = true
is_null (_ ∷ es) = is_null es

module _ (table : List Bool) (codepoint_size radix_num : ℕ) where
  -- The loop for `all_set`, with the rounds that are left and `j`.
  pub all_set : (rounds i j : ℕ) → Bool
  all_set zero i j = true
  all_set (suc n) i j =
      (leb codepoint_size (i * radix_num + j) || get_or table (i * radix_num + j) false)
      && all_set n i (j + 1)

  -- The loop for `all_unset`.
  pub all_unset : (rounds i j : ℕ) → Bool
  all_unset zero i j = true
  all_unset (suc n) i j =
      (leb codepoint_size (i * radix_num + j) || not (get_or table (i * radix_num + j) false))
      && all_unset n i (j + 1)

  abbrev pub bit : ℕ → ℕ → ℕ
  bit i j =
      if ltb (i * radix_num + j) codepoint_size
      then (if get_or table (i * radix_num + j) false then 2 ^ (j % 8) else 0)
      else 0

  -- The loop that prints the bytes of a chunk. The bits of a byte come one by one, so `|` is a sum.
  pub row : (rounds i j current_byte : ℕ) → List ℕ
  row zero i j current_byte = []
  row (suc n) i j current_byte =
      let byte = current_byte + bit i j in
      let rest = row n i (j + 1) (if j % 8 == 7 then 0 else byte) in
      if j % 8 == 7 then byte ∷ rest else rest

  -- The loop over the chunks, each of which has a code point below `codepoint_size`: what it notes for each, the rows that it prints, and `table_index`.
  pub chunks : (rounds i table_index : ℕ) → List Entry × List (List ℕ) × ℕ
  unfolding all_set all_unset row
  chunks zero i table_index = ([], [], table_index)
  chunks (suc n) i table_index =
      let set_here = all_set radix_num i 0 in
      let own = not (set_here || all_unset radix_num i 0) in
      let (es, rows, last) = chunks n (i + 1) (if own then table_index + 1 else table_index) in
      if own
      then (tbl table_index ∷ es, row radix_num i 0 0 ∷ rows, last)
      else ((if set_here then tbl_full else tbl_null) ∷ es, rows, last)

abbrev pub concat : List (List ℕ) → List ℕ
concat [] = []
concat (xs ∷ xss) = xs ++ concat xss

abbrev pub if_needed : Bool → ℕ → ℕ → List (List ℕ)
if_needed b n byte = if b then (replicate n byte ∷ []) else []

-- The initialiser of an element of the lookup table, which is a `uint8_t`.
abbrev pub index_of : (last : ℕ) → (need_full : Bool) → Entry → ℕ
index_of last need_full tbl_full = last % 256
index_of last need_full tbl_null = (if need_full then last + 1 else last) % 256
index_of last need_full (tbl k) = k % 256

abbrev pub indices : (last : ℕ) → (need_full : Bool) → List Entry → List ℕ
indices last need_full [] = []
indices last need_full (e ∷ es) = index_of last need_full e ∷ indices last need_full es

-- print_radix_table behind the shift.
pub radix_table : List Bool → (codepoint_size radix_num radix : ℕ) → Table
unfolding chunks
radix_table table codepoint_size radix_num radix =
    let level_1_size = divide_ceil codepoint_size radix_num in
    let level_2_size = radix_num / 8 in
    let (es, rows, last) = chunks table codepoint_size radix_num level_1_size 0 0 in
    record {
      lookup = indices last (is_full es) es;
      tbl = concat (
          rows
          ++ (if_needed (is_full es) level_2_size 255 ++ if_needed (is_null es) level_2_size 0));
      size = codepoint_size;
      radix = radix;
    }

-- print_radix_table, where `1 << radix` is a shift of an int.
pub print_radix_table : List Bool → (codepoint_size radix : ℕ) → Option Table
unfolding radix_table
print_radix_table table codepoint_size radix =
    to_int (2 ^ radix) >>= λ radix_num. some (radix_table table codepoint_size radix_num radix)
