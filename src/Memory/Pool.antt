-- ===== src/Memory/Pool.antt =====
-- lib/memory/prealloc_pool.c: elements of one size, carved out of chunks that double in size, with
-- the recycled elements in a list that is linked through their own first words.
--
-- An address is a chunk's number and an offset. Chunks are numbered from 1 in the order in which
-- they are asked for; number 0 stands for the null pointer. What `realloc` and `calloc` do is a
-- parameter: whether a request of a given size succeeds. No size is asked for twice by one pool.
pub mod Inv
pub mod Valid
pub mod Fresh
pub mod Recycle
pub mod Supply
pub mod Failure
mod Tests
use mathlib.Core.Option
use cextras.Base.{
  true, false, zero, suc, ◌∷◌, ℕ, ◌+◌, ◌-◌, ◌*◌, ◌%◌, Bool, ◌&&◌, ◌||◌, not, Option, none, some,
  List, [], ◌++◌, ltb, leb, ◌==◌, is_some, if◌then◌else◌, length, set, replicate, word,
}

pub record Ptr : Type 0 where
  pub chunk : ℕ
  pub offset : ℕ

abbrev pub ptr : ℕ → ℕ → Ptr
ptr c o = record { chunk = c; offset = o }

abbrev pub ptr_eq : Ptr → Ptr → Bool
ptr_eq a b = (a.chunk == b.chunk) && (a.offset == b.offset)

-- The allocator's answers, by the size of the request.
pub record Allocator : Type 0 where
  pub realloc_ok : ℕ → Bool
  pub calloc_ok : ℕ → Bool

-- `struct CxPreallocPool`. An entry of `pools` is a chunk's size, `none` while it is uninitialised;
-- `memory` is the first word of each element, which holds `union ReuseList` while it is recycled.
pub record Pool : Type 0 where
  pub pools : Option (List (Option ℕ))
  pub chunk_size : ℕ
  pub element_size : ℕ
  pub next_offset : ℕ
  pub pool_count : ℕ
  pub current_pool : ℕ
  pub reuse_pool : Option Ptr
  pub memory : Ptr → Option Ptr

abbrev pub write : (Ptr → Option Ptr) → Ptr → Option Ptr → Ptr → Option Ptr
write m e v a = if ptr_eq a e then v else m a

-- cx_prealloc_pool_init2 behind its assertions.
abbrev pub zeroed : ℕ → ℕ → Pool
zeroed element_count element_size = record {
  pools = none;
  chunk_size = (element_count * element_size) % word;
  element_size = element_size;
  next_offset = 0;
  pool_count = 0;
  current_pool = 0;
  reuse_pool = none;
  memory = λ a. none;
}

-- cx_prealloc_pool_init2; `none` is a failed assertion. An element has room for a pointer.
abbrev pub init2 : ℕ → ℕ → Option Pool
init2 element_count element_size =
    if leb 8 element_size && ltb 0 element_count
    then some (zeroed element_count element_size)
    else none

-- cx_prealloc_pool_init, with its eight elements.
abbrev pub init : ℕ → Option Pool
init element_size = init2 8 element_size

-- The element at the head of the list, which is there when this is called; its first word is zeroed.
abbrev pub reuse_node : Ptr → Pool → Option Ptr × Pool
reuse_node e p = (some e, record p { reuse_pool = p.memory e; memory = write p.memory e none })

-- `realloc` of the array of chunks: the old entries, and uninitialised ones behind them.
abbrev pub grow : ℕ → Option (List (Option ℕ)) → List (Option ℕ)
grow n none = replicate n none
grow n (some xs) = xs ++ replicate (n - length xs) none

-- The result is true for 0 and false for -1.
pub add_chunk : Allocator → Pool → Bool × Pool
add_chunk h p =
    let count = (p.pool_count + 1) % word in
    let size = (p.chunk_size * 2) % word in
    let p' = record p { pool_count = count; chunk_size = size } in
    let pools = grow count p.pools in
    if h.realloc_ok ((count * 8) % word)
    then (if h.calloc_ok size
        then (
          true,
          record p' {
            current_pool = count;
            pools = some (set pools (count - 1) (some size));
            next_offset = 0;
          },
        )
        else (false, record p' { pools = some pools }))
    else (false, record p' { pools = none })

-- `&current_pool[next_offset]`, which is the null pointer at offset 0 of a null chunk.
abbrev pub element_at : ℕ → ℕ → Option Ptr
element_at c o = if (c == 0) && (o == 0) then none else some (ptr c o)

abbrev pub carve : Pool → Option Ptr × Pool
carve p = (
  element_at p.current_pool p.next_offset,
  record p { next_offset = (p.next_offset + p.element_size) % word },
)

-- The test for a new chunk.
abbrev pub is_full : Pool → Bool
is_full p = not (is_some p.pools) || ltb p.chunk_size ((p.next_offset + p.element_size) % word)

abbrev pub carve_if : Bool × Pool → Option Ptr × Pool
carve_if (ok, p) = if ok then carve p else (none, p)

-- cx_prealloc_pool_get, without the list of recycled elements.
pub fresh : Allocator → Pool → Option Ptr × Pool
fresh h p = if is_full p then carve_if (add_chunk h p) else carve p

-- cx_prealloc_pool_get
unfoldable pub get : Allocator → Pool → Option Ptr × Pool
unfolding fresh add_chunk
get h p = elim p.reuse_pool [ none ↦ fresh h p | some e ↦ reuse_node e p ]

-- cx_prealloc_pool_recycle
pub recycle : Pool → Option Ptr → Pool
recycle p none = p
recycle p (some e) = record p { memory = write p.memory e p.reuse_pool; reuse_pool = some e }

-- What a cleanup frees: the numbers of the chunks, in order, and whether there is an array of chunks,
-- which is freed after them.
pub record Freed : Type 0 where
  pub freed_chunks : List ℕ
  pub freed_array : Bool

-- The loop of cx_prealloc_pool_cleanup.
free_chunks : ℕ → List (Option ℕ) → ℕ → Option (List ℕ)
free_chunks zero xs c = some []
free_chunks (suc n) [] c = none
free_chunks (suc n) (none ∷ xs) c = none
free_chunks (suc n) (some size ∷ xs) c = Option.map (λ l. c ∷ l) (free_chunks n xs (c + 1))

-- cx_prealloc_pool_cleanup; `none` where it reads the array of chunks through the null pointer or
-- frees an uninitialised entry.
pub cleanup : Pool → Option Freed
unfolding free_chunks
cleanup p = elim p.pools [
  | none ↦
      if p.pool_count == 0 then some (record { freed_chunks = []; freed_array = false }) else none
  | some xs ↦
      Option.map (λ l. record { freed_chunks = l; freed_array = true })
        (free_chunks p.pool_count xs 1)
]
