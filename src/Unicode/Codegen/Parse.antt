-- ===== src/Unicode/Codegen/Parse.antt =====
-- lib/unicode/codegen/char_width.c: parse_range and main.
--
-- A line is the list of its characters, as numbers. strtok and sscanf are as the C standard describes
-- them, the latter for the two formats that are used; the sign and the prefix 0x that `%x` also reads
-- are left out. An outer `none` is undefined: a call with a null pointer, or a number that is
-- converted and that the uint32_t of the range cannot hold.
pub mod Fields
pub mod Lines
pub mod Main
mod Tests
use cextras.Base.{
  ℕ, zero, suc, ◌+◌, ◌-◌, ◌*◌, ◌^◌, ltb, Bool, true, false, Option, none, some, List, [], ◌∷◌, leb,
  ◌==◌, ◌&&◌, ◌||◌, if◌then◌else◌,
}
use cextras.Unicode.Utf8.{◌>>=◌}
use cextras.Unicode.Width.{Table}
use cextras.Unicode.Codegen.{Range, find_max, generate_flat_table, print_radix_table}

abbrev pub skip : (ℕ → Bool) → List ℕ → List ℕ
skip is_delimiter [] = []
skip is_delimiter (c ∷ cs) = if is_delimiter c then skip is_delimiter cs else c ∷ cs

abbrev pub token : (ℕ → Bool) → List ℕ → List ℕ × List ℕ
token is_delimiter [] = ([], [])
token is_delimiter (c ∷ cs) =
    let (t, rest) = token is_delimiter cs in if is_delimiter c then ([], cs) else (c ∷ t, rest)

abbrev pub token_of : (ℕ → Bool) → List ℕ → Option (List ℕ) × List ℕ
token_of is_delimiter [] = (none, [])
token_of is_delimiter (c ∷ cs) = let (t, rest) = token is_delimiter (c ∷ cs) in (some t, rest)

-- strtok: the token, and where the next call goes on.
abbrev pub strtok : (ℕ → Bool) → List ℕ → Option (List ℕ) × List ℕ
strtok is_delimiter cs = token_of is_delimiter (skip is_delimiter cs)

abbrev pub is_semicolon : ℕ → Bool
is_semicolon c = c == 59

abbrev pub ends_field : ℕ → Bool
ends_field c = (c == 59) || (c == 35)

abbrev pub is_space : ℕ → Bool
is_space c = (c == 32) || (leb 9 c && leb c 13)

abbrev pub hex_digit : ℕ → Option ℕ
hex_digit c =
    if leb 48 c && leb c 57
    then some (c - 48)
    else (if leb 65 c && leb c 70
        then some (c - 55)
        else (if leb 97 c && leb c 102 then some (c - 87) else none))

abbrev pub scan_digits : List ℕ → ℕ → ℕ × List ℕ
scan_digits [] n = (n, [])
scan_digits (c ∷ cs) n = elim (hex_digit c) [
  | none ↦ (n, c ∷ cs)
  | some d ↦ scan_digits cs (16 * n + d)
]

abbrev pub scan_number : List ℕ → Option (ℕ × List ℕ)
scan_number [] = none
scan_number (c ∷ cs) = hex_digit c >>= λ d. some (scan_digits cs d)

abbrev pub to_uint32 : Option (ℕ × List ℕ) → Option (Option (ℕ × List ℕ))
to_uint32 none = some none
to_uint32 (some (n, rest)) = if ltb n (2 ^ 32) then some (some (n, rest)) else none

-- The conversion `%x` into a uint32_t; an inner `none` is that there is no number.
abbrev pub scan_hex : List ℕ → Option (Option (ℕ × List ℕ))
scan_hex cs = to_uint32 (scan_number (skip is_space cs))

-- The characters `..` of the format.
abbrev pub scan_dots : List ℕ → Option (List ℕ)
scan_dots (c ∷ (d ∷ cs)) = if (c == 46) && (d == 46) then some cs else none
scan_dots cs = none

abbrev pub range_from : ℕ → Option (ℕ × List ℕ) → Range
range_from start none = record { start = start; end = start }
range_from start (some (end, rest)) = record { start = start; end = end }

abbrev pub scan_end : Option (List ℕ) → Option (Option (ℕ × List ℕ))
scan_end none = some none
scan_end (some cs) = scan_hex cs

abbrev pub scan_start : Option (ℕ × List ℕ) → Option (Option Range)
scan_start none = some none
scan_start (some (start, rest)) =
    scan_end (scan_dots rest) >>= λ end. some (some (range_from start end))

-- The part of parse_range that reads the range.
abbrev pub scan_range : List ℕ → Option (Option Range)
scan_range line = scan_hex line >>= scan_start

-- The loop of parse_range over the fields.
abbrev pub field_at : ℕ → Option (List ℕ) × List ℕ → Option (List ℕ)
field_at zero (line, rest) = line
field_at (suc n) (line, rest) = field_at n (strtok ends_field rest)

abbrev pub same : List ℕ → List ℕ → Bool
same [] [] = true
same (x ∷ xs) (y ∷ ys) = (x == y) && same xs ys
same xs ys = false

-- The comparisons with " W  ", "Cc", "Cf", "Mn" and "Me".
abbrev pub is_wanted : List ℕ → Bool
is_wanted field =
    same field (32 ∷ 87 ∷ 32 ∷ 32 ∷ [])
    || (same field (67 ∷ 99 ∷ [])
        || (same field (67 ∷ 102 ∷ [])
            || (same field (77 ∷ 110 ∷ []) || same field (77 ∷ 101 ∷ []))))

abbrev pub by_field : Range → Option (List ℕ) → Option (Option Range)
by_field r none = none
by_field r (some field) = some (if is_wanted field then some r else none)

-- parse_range behind the range.
abbrev pub by_range : Option Range → Option (List ℕ) → Option (Option Range)
by_range none field = some none
by_range (some r) field = by_field r field

abbrev pub parse_first : ℕ → Option (List ℕ) × List ℕ → Option (Option Range)
parse_first field_nbr (none, rest) = none
parse_first field_nbr (some line, rest) =
    scan_range line >>= λ r. by_range r (field_at field_nbr (some line, rest))

-- parse_range; an inner `none` is -1.
pub parse_range : List ℕ → (field_nbr : ℕ) → Option (Option Range)
parse_range line field_nbr = parse_first field_nbr (strtok is_semicolon line)

-- parse_range of all lines, as both find_max and generate_flat_table call it.
pub parse_lines : List (List ℕ) → (field_nbr : ℕ) → Option (List (Option Range))
unfolding parse_range
parse_lines [] field_nbr = some []
parse_lines (line ∷ lines) field_nbr =
    parse_range line field_nbr >>= λ r. parse_lines lines field_nbr >>= λ rs. some (r ∷ rs)

-- main of the generator, for a file of these lines that can be read.
pub main : List (List ℕ) → (field_nbr radix : ℕ) → Option Table
unfolding parse_lines
main lines field_nbr radix = parse_lines lines field_nbr >>= λ ranges.
    find_max ranges >>= λ codepoint_size.
    generate_flat_table ranges codepoint_size >>= λ flat_table.
    print_radix_table flat_table codepoint_size radix
