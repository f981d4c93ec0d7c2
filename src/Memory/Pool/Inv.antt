-- ===== src/Memory/Pool/Inv.antt =====
-- The invariant of a pool: which elements the clients hold, which are recycled, and that no two of
-- them overlap.
use cextras.Base.{
  ℕ, ◌+◌, ◌-◌, ◌≤◌, ◌<◌, ◌≡◌, ◌≢◌, ◌⊎◌, Bool, true, Option, none, some, List, [], ◌∷◌, get_or,
  length, word,
}
use cextras.Memory.Pool.{Ptr, Allocator, Pool}

-- Both calls of the allocator succeed.
pub record Succeeds (h : Allocator) : Type 0 where
  pub realloc : (n : ℕ) → h.realloc_ok n ≡ true
  pub calloc : (n : ℕ) → h.calloc_ok n ≡ true

abbrev pub All {ℓ κ} : {A : Type ℓ} → (A → Type κ) → List A → Type κ
All P [] = Unit
All P (x ∷ xs) = P x × All P xs

-- The recycled elements, in the order in which they will be handed out.
abbrev pub Chain : (Ptr → Option Ptr) → Option Ptr → List Ptr → Type 0
Chain m r [] = r ≡ none
Chain m r (e ∷ es) = (r ≡ some e) × Chain m (m e) es

-- Two elements of `n` bytes share no byte.
abbrev pub Apart : ℕ → Ptr → Ptr → Type 0
Apart n a b = (a.chunk ≢ b.chunk) ⊎ ((a.offset + n ≤ b.offset) ⊎ (b.offset + n ≤ a.offset))

abbrev pub AllApart : ℕ → List Ptr → Type 0
AllApart n [] = Unit
AllApart n (e ∷ es) = All (Apart n e) es × AllApart n es

abbrev pub entry_size : Option ℕ → ℕ
entry_size none = 0
entry_size (some n) = n

-- The size of chunk `c`, 0 if there is none.
abbrev pub size_of : Option (List (Option ℕ)) → ℕ → ℕ
size_of none c = 0
size_of (some xs) c = entry_size (get_or xs (c - 1) none)

-- An element that was carved out of a chunk, and lies inside it.
pub record Carved (p : Pool) (e : Ptr) : Type 0 where
  pub real : e.chunk ≢ 0
  pub inside : e.offset + p.element_size ≤ size_of p.pools e.chunk
  pub old : e.chunk ≤ p.current_pool
  pub below : e.chunk ≡ p.current_pool → e.offset + p.element_size ≤ p.next_offset

-- How the array of chunks and its counters hang together.
abbrev pub Chunks : Option (List (Option ℕ)) → Pool → Type 0
Chunks none p = (p.pool_count ≡ 0) × (p.current_pool ≡ 0)
Chunks (some xs) p =
    (p.pool_count ≡ length xs)
    × (p.current_pool ≡ p.pool_count)
    × (0 < p.pool_count)
    × (get_or xs (p.current_pool - 1) none ≡ some p.chunk_size)
    × (p.next_offset ≤ p.chunk_size)
    × All (λ x. x ≢ none) xs

-- `held` are the elements that clients have got and not given back.
pub record IsValid (p : Pool) (held : Ptr → Bool) (recycled : List Ptr) : Type 0 where
  pub element_pos : 0 < p.element_size
  pub element_fits : p.element_size ≤ p.chunk_size
  pub count_small : p.pool_count ≤ p.chunk_size
  pub size_small : p.chunk_size < word
  pub chunks : Chunks p.pools p
  pub chain : Chain p.memory p.reuse_pool recycled
  pub held_carved : (e : Ptr) → held e ≡ true → Carved p e
  pub recycled_carved : All (Carved p) recycled
  pub held_apart : (a b : Ptr) → held a ≡ true → held b ≡ true → a ≢ b → Apart p.element_size a b
  pub recycled_apart : AllApart p.element_size recycled
  pub cross : (a : Ptr) → held a ≡ true → All (Apart p.element_size a) recycled
