-- ===== src/Unicode/Codegen/Tests.antt =====
-- The table of a data file in which 9 to 12 are wide.
use cextras.Base.{◌≡◌, refl, true, false, Bool, some, List, [], ◌∷◌, arith, get_or}
use cextras.Unicode.Width.{Table, table_lookup}
use cextras.Unicode.Codegen.{chunks, print_radix_table}
use cextras.Unicode.Codegen.Lookup.{row_count, table_lookup-print_radix_table}

abbrev wide_table : List Bool
wide_table =
    false ∷ false ∷ false ∷ false ∷ false ∷ false ∷ false ∷ false ∷ false ∷ true ∷ true ∷ true
    ∷ true ∷ []

wide_rows : row_count wide_table 3 ≡ 1
unfolding chunks
wide_rows = refl

wide_printed :
    print_radix_table wide_table 13 3
    ≡ some (record { lookup = 1 ∷ 0 ∷ []; tbl = 30 ∷ 0 ∷ []; size = 13; radix = 3 })
unfolding print_radix_table
wide_printed = refl

table_lookup-print_radix_table_example :
    (t : Table) × (print_radix_table wide_table 13 3 ≡ some t)
    × (table_lookup t 10 ≡ some (get_or wide_table 10 false))
table_lookup-print_radix_table_example =
    table_lookup-print_radix_table wide_table 3 10 (omega arith) (omega arith)
      (omega (arith, wide_rows))
