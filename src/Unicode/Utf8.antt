-- ===== src/Unicode/Utf8.antt =====
-- lib/unicode/utf8.c and lib/unicode/utf16.c, with the tables of lib/unicode/codegen/byte_size.c.
--
-- A string is the list of the bytes from the pointer on. On bytes, `&` with a mask of high bits is
-- a division, `&` with a mask of low bits a remainder, and `|` of values with no common bit a sum.
-- The result `none` is a read past the end of the list, or fuel that is used up.
pub mod Encode
pub mod Bytes
pub mod Loops
pub mod Total
mod Tests
use cextras.Base.{
  ℕ, zero, suc, ◌+◌, ◌*◌, ◌/◌, ◌%◌, Bool, true, false, Option, none, some, List, [], ◌∷◌, ◌&&◌, ltb,
  ◌==◌, if◌then◌else◌, get_elem?,
}

-- A result of type `ssize_t` or `int32_t`, where `minus_one` is -1.
pub data Signed : Type 0 where
  value : ℕ → Signed
  minus_one : Signed

infixl 5 ◌>>=◌
abbrev pub ◌>>=◌ {ℓ κ} : {A : Type ℓ} {B : Type κ} → Option A → (A → Option B) → Option B
none >>= f = none
some a >>= f = f a

-- The entry `i` of the table that `main` of byte_size.c prints.
abbrev pub table : Bool → ℕ → ℕ
table utf16_table i =
    if i / 128 == 0
    then 1
    else (if i / 32 == 6
        then (if utf16_table then 1 else 2)
        else (if i / 16 == 14
            then (if utf16_table then 2 else 3)
            else (if i / 8 == 30 then (if utf16_table then 2 else 4) else 0)))

abbrev pub utf8_len_map : ℕ → ℕ
utf8_len_map i = table false i

abbrev pub utf16_len_map : ℕ → ℕ
utf16_len_map i = table true i

-- cx_utf8_csize
abbrev pub csize : List ℕ → ℕ → Option ℕ
csize chr length =
    get_elem? chr 0 >>= λ b. some (if ltb length (utf8_len_map b) then 0 else utf8_len_map b)

-- The loop of cx_utf8_clen.
pub clen_from : ℕ → List ℕ → (length i count : ℕ) → Option Signed
clen_from zero str length i count = none
clen_from (suc f) str length i count =
    let round = get_elem? str i >>= λ b.
    let rest = clen_from f str length (i + utf8_len_map b) (count + 1) in
    if utf8_len_map b == 0 then some minus_one else rest in
    if ltb i length then round else some (value count)

-- cx_utf8_clen
pub clen : List ℕ → ℕ → Option Signed
unfolding clen_from
clen str length = clen_from (length + 1) str length 0 0

-- The loop of cx_utf8_bidx, and the test behind it.
pub bidx_from : ℕ → List ℕ → (length char_index byte_index i : ℕ) → Option Signed
bidx_from zero str length char_index byte_index i = none
bidx_from (suc f) str length char_index byte_index i =
    let round = get_elem? str byte_index >>= λ b.
    let rest = bidx_from f str length char_index (byte_index + utf8_len_map b) (i + 1) in
    if utf8_len_map b == 0 then some minus_one else rest in
    if ltb byte_index length && ltb i char_index
    then round
    else some (if ltb length byte_index then minus_one else value byte_index)

-- cx_utf8_bidx
pub bidx : List ℕ → (length char_index : ℕ) → Option Signed
unfolding bidx_from
bidx str length char_index = bidx_from (length + 1) str length char_index 0 0

-- The loop of cx_utf8_16len.
pub len16_from : ℕ → List ℕ → (length i len16 : ℕ) → Option Signed
len16_from zero str length i len16 = none
len16_from (suc f) str length i len16 =
    let round = get_elem? str i >>= λ b.
    let rest = len16_from f str length (i + utf8_len_map b) (len16 + utf16_len_map b) in
    if utf8_len_map b == 0 then some minus_one else rest in
    if ltb i length then round else some (value len16)

-- cx_utf8_16len
pub len16 : List ℕ → ℕ → Option Signed
unfolding len16_from
len16 str length = len16_from (length + 1) str length 0 0

-- The cases of the switch of cx_utf8_cp for two bytes and more.
abbrev pub decode_two : List ℕ → Option Signed
decode_two chr =
    get_elem? chr 0 >>= λ a. get_elem? chr 1 >>= λ b. some (value (a % 32 * 64 + b % 64))

abbrev pub decode_three : List ℕ → Option Signed
decode_three chr = get_elem? chr 0 >>= λ a. get_elem? chr 1 >>= λ b.
    get_elem? chr 2 >>= λ c. some (value (a % 16 * 4096 + b % 64 * 64 + c % 64))

abbrev pub decode_four : List ℕ → Option Signed
decode_four chr = get_elem? chr 0 >>= λ a. get_elem? chr 1 >>= λ b. get_elem? chr 2 >>= λ c.
    get_elem? chr 3 >>= λ d. some (value (a % 8 * 262144 + b % 64 * 4096 + c % 64 * 64 + d % 64))

-- The switch of cx_utf8_cp over `char_len`.
abbrev pub decode : List ℕ → ℕ → Option Signed
decode chr char_len =
    if char_len == 1
    then (get_elem? chr 0 >>= λ a. some (value a))
    else (if char_len == 2
        then decode_two chr
        else (if char_len == 3
            then decode_three chr
            else (if char_len == 4 then decode_four chr else some minus_one)))

-- cx_utf8_cp, where `none` is the null pointer.
unfoldable pub cp : Option (List ℕ) → ℕ → Option Signed
cp none length = some (value 0)
cp (some chr) length = csize chr length >>= decode chr
