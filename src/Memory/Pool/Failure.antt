-- ===== src/Memory/Pool/Failure.antt =====
-- A pool from its initialisation to its cleanup, and what a failed `calloc` leaves behind.
use cextras.Base.{
  ℕ, zero, suc, ◌+◌, ◌*◌, ◌%◌, ◌<◌, ◌≡◌, refl, ◌≢◌, Bool, true, false, Option, none, some, List, [],
  ◌∷◌, arith, word, if◌then◌else◌, ◌==◌, lt→ltb, le→leb, ◌≤◌, le→not-ltb, is_some, length, ap,
}
use mathlib.Core.Option
use cextras.Memory.Pool.{
  Ptr, ptr, Allocator, Pool, Freed, zeroed, init2, grow, add_chunk, is_full, fresh, get,
  free_chunks, cleanup,
}
use cextras.Memory.Pool.Inv.{All, size_of, Chunks, IsValid}
use cextras.Memory.Pool.Recycle.{get-fresh}
use cextras.Memory.Pool.Fresh.{size_of-current}

-- A pool whose first chunk has a size that fits a `size_t` is valid, and nobody holds an element.
pub zeroed-IsValid :
    (element_count element_size : ℕ)
    → 0 < element_count
    → 0 < element_size
    → element_count * element_size < word
    → IsValid (zeroed element_count element_size) (λ e. false) []
zeroed-IsValid n s hn hs small =
    let product : (n * s) % word ≡ n * s = omega arith in
    record {
      element_pos = hs;
      element_fits = rw product (grind arith);
      count_small = omega arith;
      size_small = omega arith;
      chunks = (refl, refl);
      chain = refl;
      held_carved = λ e h. cc;
      recycled_carved = tt;
      held_apart = λ a b h. cc;
      recycled_apart = tt;
      cross = λ a h. tt;
    }

-- cx_prealloc_pool_init2 with arguments that pass its assertions and whose product fits a `size_t`
-- gives a valid pool that nobody holds an element of.
init2-IsValid :
    (element_count element_size : ℕ)
    → 0 < element_count
    → 8 ≤ element_size
    → element_count * element_size < word
    → (p : Pool) × (init2 element_count element_size ≡ some p) × IsValid p (λ e. false) []
init2-IsValid n s hn hs small =
    (zeroed n s, rw (le→leb 8 s hs, lt→ltb 0 n hn) refl, zeroed-IsValid n s hn (omega arith) small)

-- The numbers of `n` chunks from `c` on.
abbrev pub numbers : ℕ → ℕ → List ℕ
numbers zero c = []
numbers (suc n) c = c ∷ numbers n (c + 1)

free_chunks-numbers :
    (n : ℕ) (xs : List (Option ℕ)) (c : ℕ)
    → n ≡ length xs
    → All (λ x. x ≢ none) xs
    → free_chunks n xs c ≡ some (numbers n c)
unfolding free_chunks
free_chunks-numbers zero xs c e h = refl
free_chunks-numbers (suc n) [] c e h = absurd (omega arith)
free_chunks-numbers (suc n) (none ∷ xs) c e h = absurd (h.0 refl)
free_chunks-numbers (suc n) (some s ∷ xs) c e h =
    rw (free_chunks-numbers n xs (c + 1) (omega arith) h.1)

free_all : Option (List (Option ℕ)) → ℕ → Option Freed
free_all ps n = elim ps [
  | none ↦ if n == 0 then some (record { freed_chunks = []; freed_array = false }) else none
  | some xs ↦ Option.map (λ l. record { freed_chunks = l; freed_array = true }) (free_chunks n xs 1)
]

free_all-numbers :
    (ps : Option (List (Option ℕ))) (p : Pool)
    → Chunks ps p
    → free_all ps p.pool_count
      ≡ some (record { freed_chunks = numbers p.pool_count 1; freed_array = is_some ps })
unfolding free_all
free_all-numbers none p c = rw (c.0)
free_all-numbers (some xs) p c = rw (free_chunks-numbers p.pool_count xs 1 c.0 c.5) refl

-- cx_prealloc_pool_cleanup of a valid pool frees each of its chunks exactly once and then the array of
-- chunks, if it has one, whatever clients still hold, and reads no null or uninitialised pointer.
pub cleanup-numbers :
    {p : Pool} {held : Ptr → Bool} {recycled : List Ptr}
    → IsValid p held recycled
    → cleanup p
      ≡ some (record { freed_chunks = numbers p.pool_count 1; freed_array = is_some p.pools })
unfolding cleanup free_all
cleanup-numbers {p} v = free_all-numbers p.pools p v.chunks

-- The pool after `calloc` has failed for a new chunk.
abbrev stuck : Pool → Pool
stuck p = record p {
  pool_count = p.pool_count + 1;
  chunk_size = p.chunk_size * 2;
  pools = some (grow (p.pool_count + 1) p.pools);
}

module _ {h : Allocator} {p : Pool} {held : Ptr → Bool} {recycled : List Ptr}
    (v : IsValid p held recycled) (room : p.chunk_size * 2 < word)
    (realloc_ok : (n : ℕ) → h.realloc_ok n ≡ true)
    (calloc_fails : (n : ℕ) → h.calloc_ok n ≡ false) where
  add_chunk-stuck : add_chunk h p ≡ (false, stuck p)
  unfolding add_chunk
  add_chunk-stuck =
      let count : (p.pool_count + 1) % word ≡ p.pool_count + 1 =
        omega (arith, v.count_small, v.size_small) in
      let size : (p.chunk_size * 2) % word ≡ p.chunk_size * 2 = omega arith in
      rw (
        realloc_ok ((p.pool_count + 1) % word * 8 % word),
        calloc_fails (p.chunk_size * 2 % word),
        count,
        size,
      )

  get-stuck : is_full p ≡ true → p.reuse_pool ≡ none → get h p ≡ (none, stuck p)
  unfolding fresh
  get-stuck full idle = rw (get-fresh h p idle, full, add_chunk-stuck)

-- When the chunk of a valid pool is full, nothing is recycled, and `calloc` fails for the next
-- chunk, cx_prealloc_pool_get returns NULL, but the call after it, which asks the allocator for
-- nothing, returns an element that reaches past the end of its chunk.
pub get_after_failed_calloc :
    {h : Allocator} {p : Pool} {held : Ptr → Bool} {recycled : List Ptr} (h' : Allocator)
    → IsValid p held recycled
    → p.chunk_size * 2 < word
    → ((n : ℕ) → h.realloc_ok n ≡ true)
    → ((n : ℕ) → h.calloc_ok n ≡ false)
    → is_some p.pools ≡ true
    → p.reuse_pool ≡ none
    → p.chunk_size < p.next_offset + p.element_size
    → ((get h p).0 ≡ none)
      × ((e : Ptr) × ((get h' (get h p).1).0 ≡ some e)
          × (size_of p.pools e.chunk < e.offset + p.element_size))
unfolding fresh
get_after_failed_calloc {h} {p} h' v room ok fails started idle full =
    let c = size_of-current p.pools p v.chunks started in
    let small : (p.next_offset + p.element_size) % word ≡ p.next_offset + p.element_size =
      omega (arith, c.2, v.element_fits) in
    let test : is_full p ≡ true = rw (small, started, lt→ltb _ _ full) in
    let again : is_full (stuck p) ≡ false = rw (
      small,
      le→not-ltb (p.chunk_size * 2) (p.next_offset + p.element_size)
          (omega (arith, c.2, v.element_fits)),
    ) in
    let first = get-stuck v room ok fails test idle in
    (
      ap (λ r. r.0) first,
      (
        ptr p.current_pool p.next_offset,
        rw (first, get-fresh h' (stuck p) idle, again) (ground (arith, c.1)),
        rw (c.0) full,
      ),
    )
