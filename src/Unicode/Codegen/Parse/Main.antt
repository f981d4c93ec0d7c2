-- ===== src/Unicode/Codegen/Parse/Main.antt =====
-- The generator from the lines of a data file to the tables, and cx_cp_width over its tables.
use cextras.Base.{ℕ, ◌+◌, ◌≤◌, ◌<◌, ◌≡◌, ap, sym, ◌∙◌, Bool, some, List, Option, not}
use cextras.Unicode.Width.{Table, cp_width, to_nat}
use cextras.Unicode.Codegen.{Range, find_max, generate_flat_table, print_radix_table}
use cextras.Unicode.Codegen.Lookup.{row_count, table_lookup-print_radix_table}
use cextras.Unicode.Codegen.Flat.{covers, Generated, generate_flat_table-Flat, cp_width-covers}
use cextras.Unicode.Codegen.Parse.{parse_lines, main}

-- The chunks that are not uniform have numbers that fit the lookup table.
abbrev pub FewRows : List (Option Range) → (size radix : ℕ) → Type 0
FewRows ranges size radix =
    (table : List Bool) → generate_flat_table ranges size ≡ some table → row_count table radix < 255

main-Generated :
    (lines : List (List ℕ)) (field_nbr radix size : ℕ) (ranges : List (Option Range))
    → parse_lines lines field_nbr ≡ some ranges
    → find_max ranges ≡ some size
    → 3 ≤ radix
    → radix ≤ 23
    → FewRows ranges size radix
    → (t : Table) × (main lines field_nbr radix ≡ some t) × Generated ranges radix t
unfolding main
main-Generated lines field_nbr radix size ranges e found h h' few =
    let (table, made, f) = generate_flat_table-Flat ranges size found in
    let (t, whole, looked) = table_lookup-print_radix_table table radix 0 h h' (few table made) in
    let printed : print_radix_table table size radix ≡ some t =
      ap (λ n. print_radix_table table n radix) (sym f.filled) ∙ whole in
    (t, rw (e, found, made) printed, (size, table, found, made, few table made, printed))

-- For two data files whose lines parse_range reads and whose largest code point plus 1 is an int, with radixes from 3 to 23 and less than 255
-- chunks that are not uniform, main of the generator prints a table for each, and in these cx_cp_width
-- of any code point is 1, and 1 more if a range of the first file covers it, and 1 less if a range of
-- the second file covers it.
pub cp_width-main :
    (wide zero_wide : List (List ℕ)) (f g r s : ℕ) {size zero_size : ℕ}
    {ranges zero_ranges : List (Option Range)}
    → parse_lines wide f ≡ some ranges
    → parse_lines zero_wide g ≡ some zero_ranges
    → find_max ranges ≡ some size
    → find_max zero_ranges ≡ some zero_size
    → (3 ≤ r) × (r ≤ 23)
    → (3 ≤ s) × (s ≤ 23)
    → FewRows ranges size r
    → FewRows zero_ranges zero_size s
    → (t u : Table) × (main wide f r ≡ some t)
      × (main zero_wide g s ≡ some u)
      × ((cp : ℕ)
          → cp_width t u cp
            ≡ some (to_nat (covers ranges cp) + to_nat (not (covers zero_ranges cp))))
cp_width-main wide zero_wide f g r s {size} {zero_size} {ranges} {zero_ranges} e e' m m' h h' few
      few' =
    let (t, printed, made) = main-Generated wide f r size ranges e m h.0 h.1 few in
    let (u, printed', made') =
      main-Generated zero_wide g s zero_size zero_ranges e' m' h'.0 h'.1 few' in
    (t, u, printed, printed', cp_width-covers ranges zero_ranges h.0 h.1 h'.0 h'.1 made made')
