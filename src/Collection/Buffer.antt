-- ===== src/Collection/Buffer.antt =====
-- lib/collection/buffer.c: a growing buffer of bytes.
--
-- `block` is `data`, the block of memory, byte by byte, or `none` for NULL. `realloc` and the compiler's
-- `__builtin_clzll` are parameters. A function that frees a block returns it. The result `none` of
-- `append` is a write outside of the block.
pub mod Pow2
pub mod Inv
pub mod Append
pub mod Sample
mod Tests
use cextras.Base.{
  ℕ, zero, suc, ◌+◌, ◌-◌, ◌%◌, ◌^◌, Bool, true, false, Option, none, some, List, [], ◌∷◌, ltb, leb,
  ◌==◌, if◌then◌else◌, length, word, add_overflow,
}

-- `struct CxBuffer`
pub record Buffer : Type 0 where
  pub block : Option (List ℕ)
  pub size : ℕ
  pub capacity : ℕ

-- The return values 0, -CX_ERR_ALLOC and -CX_ERR_INTEGER_OVERFLOW.
pub data Status : Type 0 where
  success : Status
  err_alloc : Status
  err_overflow : Status

-- The parameters: `realloc` of a block to a number of bytes, and `__builtin_clzll`.
pub record Machine : Type 0 where
  pub realloc : Option (List ℕ) → ℕ → Option (List ℕ)
  pub clz : ℕ → ℕ

-- cx_buffer_init
abbrev pub init : Buffer
init = record { block = none; size = 0; capacity = 0 }

-- memcpy of `ys` to the offset `i` of a block.
abbrev pub memcpy : List ℕ → ℕ → List ℕ → List ℕ
memcpy [] i ys = []
memcpy (x ∷ xs) (suc i) ys = x ∷ memcpy xs i ys
memcpy (x ∷ xs) zero [] = x ∷ xs
memcpy (x ∷ xs) zero (y ∷ ys) = y ∷ memcpy xs zero ys

-- `additional_buffer`, as an offset into the block, which is left unset on an error.
abbrev pub with_pointer : ℕ → Status × Buffer → Option ℕ × Status × Buffer
with_pointer buffer_size (success, b) = (some buffer_size, success, b)
with_pointer buffer_size (err_alloc, b) = (none, err_alloc, b)
with_pointer buffer_size (err_overflow, b) = (none, err_overflow, b)

-- The rest of resize_buffer_exact after `realloc`.
abbrev pub with_block : Buffer → ℕ → Option (List ℕ) → Status × Buffer
with_block b n none = (err_alloc, b)
with_block b n (some new_data) = (success, record b { block = some new_data; capacity = n })

abbrev pub sized : Buffer → Option ℕ → Status × Buffer
sized b none = (err_overflow, b)
sized b (some size) = (success, record b { size = size })

-- cx_buffer_add_size
abbrev pub add_size : Buffer → ℕ → Status × Buffer
add_size b n = sized b (add_overflow b.size n)

abbrev pub write_to : Option (List ℕ) → ℕ → List ℕ → Option (List ℕ)
write_to none i ys = none
write_to (some xs) i ys = if leb (i + length ys) (length xs) then some (memcpy xs i ys) else none

abbrev pub written : Buffer → ℕ → Option (List ℕ) → Option (Status × Buffer)
written b n none = none
written b n (some xs) = some (add_size (record b { block = some xs }) n)

-- The rest of cx_buffer_append after cx_buffer_add_capacity.
abbrev pub copy_in : List ℕ → Option ℕ × Status × Buffer → Option (Status × Buffer)
copy_in source (none, status, b) = some (status, b)
copy_in source (some p, status, b) = written b (length source) (write_to b.block p source)

module _ (m : Machine) where
  -- The new value of `*val`, or `none` for -CX_ERR_INTEGER_OVERFLOW.
  pub round_to_next_pow2 : ℕ → Option ℕ
  round_to_next_pow2 n =
      if leb n 1
      then some 1
      else (if m.clz (n - 1) == 0 then none else some (2 ^ (64 - m.clz (n - 1)) % word))

  abbrev pub resize_buffer_exact : Buffer → ℕ → Status × Buffer
  resize_buffer_exact b n = with_block b n (m.realloc b.block n)

  abbrev pub resize_rounded : Buffer → Option ℕ → Status × Buffer
  resize_rounded b none = (err_overflow, b)
  resize_rounded b (some n) = resize_buffer_exact b n

  -- The rest of cx_buffer_add_capacity for its `new_capacity`.
  abbrev pub reach : Buffer → Option ℕ → Option ℕ × Status × Buffer
  reach b none = (none, err_overflow, b)
  reach b (some new_capacity) = with_pointer b.size (
      if ltb b.capacity new_capacity
      then resize_rounded b (round_to_next_pow2 new_capacity)
      else (success, b))

  -- cx_buffer_add_capacity
  pub add_capacity : Buffer → ℕ → Option ℕ × Status × Buffer
  unfolding round_to_next_pow2
  add_capacity b n = reach b (add_overflow b.size n)

  -- The rest of cx_buffer_add_capacity_exact for its `new_capacity`.
  abbrev pub reach_exact : Buffer → Option ℕ → Option ℕ × Status × Buffer
  reach_exact b none = (none, err_overflow, b)
  reach_exact b (some new_capacity) =
      with_pointer b.size
        (if ltb b.capacity new_capacity then resize_buffer_exact b new_capacity else (success, b))

  -- cx_buffer_add_capacity_exact
  pub add_capacity_exact : Buffer → ℕ → Option ℕ × Status × Buffer
  add_capacity_exact b n = reach_exact b (add_overflow b.size n)

  -- cx_buffer_append
  pub append : Buffer → List ℕ → Option (Status × Buffer)
  unfolding add_capacity
  append b source =
      if leb (length source) 0
      then some (success, b)
      else copy_in source (add_capacity b (length source))

-- cx_buffer_cleanup, with the block that it frees.
abbrev pub cleanup : Buffer → Option (List ℕ) × Buffer
cleanup b = (b.block, record { block = none; size = 0; capacity = 0 })

-- cx_buffer_move: the block that is freed, the buffer and the source.
abbrev pub move : Buffer → Buffer → Option (List ℕ) × Buffer × Buffer
move b source = ((cleanup b).0, source, record { block = none; size = 0; capacity = 0 })

-- cx_buffer_drain
abbrev pub drain : Buffer → Buffer
drain b = record b { size = 0 }

-- cx_buffer_unwrap: the data, the block that is freed and the buffer.
abbrev pub unwrap : Buffer → Option (List ℕ) × Option (List ℕ) × Buffer
unwrap b = let (freed, b') = cleanup (record b { block = none }) in (b.block, freed, b')
