-- ===== src/Unicode/Width.antt =====
-- lib/unicode/unicode-width.c: the columns that characters take.
--
-- The tables are generated by lib/unicode/codegen/char_width.c, which Unicode/Codegen models; here
-- they are parameters. As in Unicode/Utf8, `none` is a read past the end of a list, an overflow of an int,
-- or fuel that is used up.
pub mod Cols
pub mod Tabs
mod Tests
use cextras.Base.{
  ℕ, zero, suc, ◌+◌, ◌-◌, ◌*◌, ◌/◌, ◌%◌, ◌^◌, Bool, true, false, Option, none, some, List, [], ◌∷◌,
  not, ltb, leb, ◌==◌, if◌then◌else◌, get_elem?, drop, word,
}
use cextras.Unicode.Utf8.{Signed, value, minus_one, ◌>>=◌, csize, cp}

-- `_lookup`, `_tbl`, `_size` and `_radix` of a generated file.
pub record Table : Type 0 where
  pub lookup : List ℕ
  pub tbl : List ℕ
  pub size : ℕ
  pub radix : ℕ

-- A result of the type int, which has 32 bits; `none` is an overflow, which is undefined.
abbrev pub to_int : ℕ → Option ℕ
to_int n = if ltb n (2 ^ 31) then some n else none

-- `byte & (1 << bit)`, as a truth value.
abbrev pub has_bit : ℕ → ℕ → Bool
has_bit byte bit = not (byte / 2 ^ bit % 2 == 0)

-- table_lookup
unfoldable pub table_lookup : Table → ℕ → Option Bool
table_lookup t cp =
    if leb t.size cp
    then some false
    else (to_int (2 ^ t.radix) >>= λ radix_num. get_elem? t.lookup (cp / 2 ^ t.radix) >>= λ index.
        to_int (index * radix_num) >>= λ offset.
        get_elem? t.tbl (offset / 8 + cp % radix_num / 8) >>= λ byte. some (has_bit byte (cp % 8)))

abbrev pub to_nat : Bool → ℕ
to_nat true = 1
to_nat false = 0

module _ (double_width zero_width : Table) where
  -- cx_cp_width
  unfoldable pub cp_width : ℕ → Option ℕ
  cp_width cp = table_lookup double_width cp >>= λ d.
      table_lookup zero_width cp >>= λ z. some (to_nat d + to_nat (not z))

  -- The character at `i`: its size and its code point.
  abbrev pub char_at : List ℕ → (length i : ℕ) → Option (ℕ × Signed)
  char_at str length i = csize (drop i str) (length - i) >>= λ char_size.
      cp (some (drop i str)) char_size >>= λ c. some (char_size, c)

  -- The loop of cx_utf8_cols.
  pub cols_from : ℕ → List ℕ → (length i columns : ℕ) → Option Signed
  cols_from zero str length i columns = none
  cols_from (suc f) str length i columns =
      let round = char_at str length i >>= λ (char_size, c). elim c [
        | minus_one ↦ some minus_one
        | value cp ↦ cp_width cp >>= λ w. cols_from f str length (i + char_size) (columns + w)
      ] in
      if ltb i length then round else some (value columns)

  -- cx_utf8_cols
  pub cols : List ℕ → ℕ → Option Signed
  unfolding cols_from
  cols str length = cols_from (length + 1) str length 0 0

  -- The loop of cx_utf8_colidx. The result `none` is also a division by a tab size of 0.
  pub colidx_from : ℕ → List ℕ → (length column tab_size byte_index : ℕ) → Option Signed
  colidx_from zero str length column tab_size byte_index = none
  colidx_from (suc f) str length column tab_size byte_index =
      let next_tab =
        if tab_size == 0 then none else some ((column / tab_size + 1) * tab_size % word) in
      let tab =
        next_tab >>= λ column'. colidx_from f str length column' tab_size (byte_index + 1) in
      let char = char_at str length byte_index >>= λ (char_size, c). elim c [
        | minus_one ↦ some minus_one
        | value cp ↦ cp_width cp >>= λ char_width.
            let rest =
              colidx_from f str length (column - char_width) tab_size (byte_index + char_size) in
            if ltb column char_width then some (value byte_index) else rest
      ] in
      let round = get_elem? str byte_index >>= λ b. if b == 9 then tab else char in
      if ltb byte_index length then round else some (value byte_index)

  -- cx_utf8_colidx
  pub colidx : List ℕ → (length column tab_size : ℕ) → Option Signed
  unfolding colidx_from
  colidx str length column tab_size = colidx_from (length + 1) str length column tab_size 0
