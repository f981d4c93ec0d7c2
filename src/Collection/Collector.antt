-- ===== src/Collection/Collector.antt =====
-- lib/collection/collector.c: the values of an iterator as an array of strings.
--
-- The callback `next` and its iterator are a parameter: a function on the iterator's state. The
-- buffers are those of Collection/Buffer. A pointer and a `uintptr_t` are eight bytes of a
-- little-endian machine, and `at` is the address of the block that is returned. The result `none` is
-- an access outside of a block, or fuel that is used up before the iterator ends.
pub mod Layout
pub mod Values
pub mod Collect
mod Tests
use cextras.Base.{
  ℕ, zero, suc, ◌+◌, ◌*◌, ◌%◌, Option, none, some, List, [], ◌∷◌, leb, if◌then◌else◌, length, take,
  drop, word, le_bytes, of_le_bytes,
}
use cextras.Collection.Buffer
use cextras.Collection.Buffer.Inv.{bytes}
use cextras.Collection.Buffer.{Buffer, Machine, Status, success, err_alloc, err_overflow, memcpy}

-- What the callback answers: a negative result, no value, or a value.
pub data Answer : Type 0 where
  refused : (rv : ℕ) → Answer
  ended : Answer
  item : List ℕ → Answer

-- The return values of handle_next: 1, 0, the callback's and those of cx_buffer_append.
pub data Code : Type 0 where
  added : Code
  no_more : Code
  next_failed : (rv : ℕ) → Code
  append_failed : Status → Code

-- `list` and `list_values`
pub record Lists : Type 0 where
  pub offsets : Buffer
  pub values : Buffer

infixl 5 ◌>>=◌
abbrev pub ◌>>=◌ {ℓ κ} : {A : Type ℓ} {B : Type κ} → Option A → (A → Option B) → Option B
none >>= f = none
some a >>= f = f a

-- The word at an offset into a block.
abbrev pub load : List ℕ → ℕ → Option ℕ
load block i =
    if leb (i + 8) (length block) then some (of_le_bytes (take 8 (drop i block))) else none

-- A write of a word there.
abbrev pub store : List ℕ → ℕ → ℕ → Option (List ℕ)
store block i v = if leb (i + 8) (length block) then some (memcpy block i (le_bytes 8 v)) else none

-- `result[i] += n` for all elements, with those that are left and `i`.
pub relocate : (left i n : ℕ) → List ℕ → Option (List ℕ)
relocate zero i n result = some result
relocate (suc k) i n result = load result (8 * i) >>= λ offset.
    store result (8 * i) ((offset + n) % word) >>= relocate k (i + 1) n

-- handle_next behind the third append.
abbrev pub terminated : Buffer → Status × Buffer → Code × Lists
terminated offsets (success, values) = (added, record { offsets = offsets; values = values })
terminated offsets (s, values) = (append_failed s, record { offsets = offsets; values = values })

-- The end of a round of the loop of cx_collect.
abbrev pub continue :
    {I : Type 0}
    → (ℕ → Lists → I → Option (Code × Lists × ℕ × I))
    → ℕ
    → Code × Lists × I
    → Option (Code × Lists × ℕ × I)
continue rest elements (added, l, iterator) = rest (elements + 1) l iterator
continue rest elements (c, l, iterator) = some (c, l, elements, iterator)

-- The end of cx_collect: the pointers, in the block that cx_buffer_unwrap gives.
abbrev pub point : (at elements base_size : ℕ) → Option (List ℕ) → Option (Code × Option (List ℕ))
point at elements base_size none = none
point at elements base_size (some result) =
    relocate elements 0 (base_size + at) result >>= λ target. some (no_more, some target)

-- cx_collect behind the values.
abbrev pub finish : (at elements base_size : ℕ) → Status × Buffer → Option (Code × Option (List ℕ))
finish at elements base_size (success, list) = point at elements base_size (Buffer.unwrap list).0
finish at elements base_size (s, list) = some (append_failed s, none)

module _ (m : Machine) where
  -- handle_next behind the second.
  abbrev pub with_value : Buffer → Status × Buffer → Option (Code × Lists)
  with_value offsets (success, values) =
      Buffer.append m values (0 ∷ []) >>= λ r. some (terminated offsets r)
  with_value offsets (s, values) =
      some (append_failed s, record { offsets = offsets; values = values })

  -- handle_next behind the first.
  abbrev pub with_offset : List ℕ → Buffer → Status × Buffer → Option (Code × Lists)
  with_offset value values (success, offsets) = Buffer.append m values value >>= with_value offsets
  with_offset value values (s, offsets) =
      some (append_failed s, record { offsets = offsets; values = values })

  abbrev pub handle_answer : Answer → Lists → Option (Code × Lists)
  handle_answer (refused rv) l = some (next_failed rv, l)
  handle_answer ended l = some (no_more, l)
  handle_answer (item value) l =
      Buffer.append m l.offsets (le_bytes 8 l.values.size) >>= with_offset value l.values

  module _ {I : Type 0} (next : I → Answer × I) where
    -- handle_next
    abbrev pub handle_next : I → Lists → Option (Code × Lists × I)
    handle_next iterator l =
        let (answer, iterator') = next iterator in
        handle_answer answer l >>= λ (c, l'). some (c, l', iterator')

    -- The loop of cx_collect, and how it ends.
    pub collect_from : (fuel elements : ℕ) → Lists → I → Option (Code × Lists × ℕ × I)
    collect_from zero elements l iterator = none
    collect_from (suc f) elements l iterator =
        handle_next iterator l >>= continue (collect_from f) elements

  -- cx_collect behind the terminating NULL.
  abbrev pub with_null :
      (at elements : ℕ) → Buffer → Status × Buffer → Option (Code × Option (List ℕ))
  with_null at elements values (success, list) =
      Buffer.append m list (take values.size (bytes values.block)) >>= finish at elements list.size
  with_null at elements values (s, list) = some (append_failed s, none)

  -- cx_collect behind its loop.
  abbrev pub join : (at : ℕ) → {I : Type 0} → Code × Lists × ℕ × I → Option (Code × Option (List ℕ))
  join at (no_more, l, elements, iterator) =
      Buffer.append m l.offsets (le_bytes 8 0) >>= with_null at elements l.values
  join at (c, l, elements, iterator) = some (c, none)

  -- cx_collect: its result, `no_more` for 0, and `*target` where it is written.
  pub collect :
      {I : Type 0} → (I → Answer × I) → (fuel at : ℕ) → I → Option (Code × Option (List ℕ))
  unfolding relocate collect_from
  collect next fuel at iterator =
      collect_from next fuel 0 (record { offsets = Buffer.init; values = Buffer.init }) iterator
      >>= join at
