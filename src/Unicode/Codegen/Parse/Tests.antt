-- ===== src/Unicode/Codegen/Parse/Tests.antt =====
-- Two small data files: 9 to 12 are wide, 3 has no width.
use cextras.Base.{
  ℕ, ◌+◌, ◌≡◌, refl, true, false, Bool, Option, none, some, List, [], ◌∷◌, arith, not,
  if◌then◌else◌,
}
use cextras.Unicode.Width.{Table, cp_width, to_nat}
use cextras.Unicode.Codegen.{Range, mark, generate_flat_table, chunks}
use cextras.Unicode.Codegen.Lookup.{row_count}
use cextras.Unicode.Codegen.Flat.{covers}
use cextras.Unicode.Codegen.Parse.{parse_range, parse_lines, main, is_wanted}
use cextras.Unicode.Codegen.Parse.Lines.{first_text, range_of, line_of, parse_range-line_of}
use cextras.Unicode.Codegen.Parse.Main.{FewRows, cp_width-main}

-- "9..C ; W  #"
abbrev wide_line : List ℕ
wide_line = line_of (first_text (9 ∷ []) (some (12 ∷ [])) 1) [] (32 ∷ 87 ∷ 32 ∷ 32 ∷ []) 35 []

parse_range-line_of_example :
    parse_range wide_line 1
    ≡ some (
        if is_wanted (32 ∷ 87 ∷ 32 ∷ 32 ∷ [])
        then some (range_of (9 ∷ []) (some (12 ∷ [])))
        else none)
parse_range-line_of_example =
    parse_range-line_of (9 ∷ []) (some (12 ∷ [])) 1 [] (32 ∷ 87 ∷ 32 ∷ 32 ∷ []) 35 []
      (omega arith, (omega arith, tt), omega arith) (omega arith, (omega arith, tt), omega arith) tt
      (omega arith, refl) refl

-- A comment, and that line.
abbrev wide_file : List (List ℕ)
wide_file = (35 ∷ 32 ∷ 87 ∷ []) ∷ wide_line ∷ []

-- "3;A;Me;"
abbrev zero_file : List (List ℕ)
zero_file = (51 ∷ 59 ∷ 65 ∷ 59 ∷ 77 ∷ 101 ∷ 59 ∷ []) ∷ []

abbrev wide_ranges : List (Option Range)
wide_ranges = none ∷ some (record { start = 9; end = 12 }) ∷ []

abbrev zero_ranges : List (Option Range)
zero_ranges = some (record { start = 3; end = 3 }) ∷ []

wide_parsed : parse_lines wide_file 1 ≡ some wide_ranges
unfolding parse_lines
wide_parsed = refl

zero_parsed : parse_lines zero_file 2 ≡ some zero_ranges
unfolding parse_lines
zero_parsed = refl

abbrev wide_table : List Bool
wide_table =
    false ∷ false ∷ false ∷ false ∷ false ∷ false ∷ false ∷ false ∷ false ∷ true ∷ true ∷ true
    ∷ true ∷ []

abbrev zero_table : List Bool
zero_table = false ∷ false ∷ false ∷ true ∷ []

wide_rows : row_count wide_table 3 ≡ 1
unfolding chunks
wide_rows = refl

zero_rows : row_count zero_table 3 ≡ 1
unfolding chunks
zero_rows = refl

wide-FewRows : FewRows wide_ranges 13 3
unfolding generate_flat_table mark
wide-FewRows table e = let one : wide_table ≡ table = cc in rw (← one) (omega (arith, wide_rows))

zero-FewRows : FewRows zero_ranges 4 3
unfolding generate_flat_table mark
zero-FewRows table e = let one : zero_table ≡ table = cc in rw (← one) (omega (arith, zero_rows))

cp_width-main_example :
    (t u : Table) × (main wide_file 1 3 ≡ some t)
    × (main zero_file 2 3 ≡ some u)
    × ((cp : ℕ)
        → cp_width t u cp
          ≡ some (to_nat (covers wide_ranges cp) + to_nat (not (covers zero_ranges cp))))
cp_width-main_example =
    cp_width-main wide_file zero_file 1 2 3 3 wide_parsed zero_parsed refl refl
      (omega arith, omega arith) (omega arith, omega arith) wide-FewRows zero-FewRows
