-- ===== src/Memory/Pool/Valid.antt =====
-- cx_prealloc_pool_get keeps the invariant, and what it returns overlaps nothing in use.
use cextras.Base.{
  ℕ, zero, suc, ◌+◌, ◌-◌, ◌*◌, ◌%◌, ◌≤◌, ◌<◌, ◌≡◌, refl, ◌≢◌, Bool, true, Option, none, some, List,
  [], ◌∷◌, ◌++◌, arith, get_or, set, length, length-append, word, ap,
}
use cextras.Memory.Pool.{Ptr, Allocator, Pool, grow, add_chunk}
use cextras.Memory.Pool.Inv.{Succeeds, All, size_of, Carved, Chunks, IsValid}

set-append :
    {A : Type 0} (xs : List A) (a b : A) → set (xs ++ (a ∷ [])) (length xs) b ≡ xs ++ (b ∷ [])
set-append [] a b = refl
set-append (x ∷ xs) a b = ap (λ l. x ∷ l) (set-append xs a b)

-- The array of chunks with a chunk of `n` bytes behind the old ones.
abbrev pub push_chunk : Option (List (Option ℕ)) → ℕ → List (Option ℕ)
push_chunk none n = some n ∷ []
push_chunk (some xs) n = xs ++ (some n ∷ [])

-- The pool after a new chunk, of twice the size of the last.
abbrev pub extended : Pool → Pool
extended p = record p {
  pool_count = p.pool_count + 1;
  chunk_size = p.chunk_size * 2;
  current_pool = p.pool_count + 1;
  pools = some (push_chunk p.pools (p.chunk_size * 2));
  next_offset = 0;
}

set-grow :
    (ps : Option (List (Option ℕ))) (n s : ℕ) (p : Pool)
    → Chunks ps p
    → n ≡ p.pool_count
    → set (grow (n + 1) ps) (n + 1 - 1) (some s) ≡ push_chunk ps s
set-grow none n s p c e = let z : n ≡ 0 = omega arith in rw z
set-grow (some xs) n s p c e =
    let one : n + 1 - length xs ≡ 1 = omega arith in
    let last : n + 1 - 1 ≡ length xs = omega arith in rw (one, last) (set-append xs none (some s))

pub add_chunk-extended :
    {h : Allocator} {p : Pool} {held : Ptr → Bool} {recycled : List Ptr}
    → Succeeds h
    → IsValid p held recycled
    → p.chunk_size * 2 < word
    → add_chunk h p ≡ (true, extended p)
unfolding add_chunk
add_chunk-extended {h} {p} s v room =
    let count : (p.pool_count + 1) % word ≡ p.pool_count + 1 = omega arith in
    let size : (p.chunk_size * 2) % word ≡ p.chunk_size * 2 = omega arith in
    rw (
      s.realloc ((p.pool_count + 1) % word * 8 % word),
      s.calloc (p.chunk_size * 2 % word),
      count,
      size,
      set-grow p.pools p.pool_count (p.chunk_size * 2) p v.chunks refl,
    )

get_or-append :
    {A : Type 0} (xs ys : List A) (i : ℕ) (d : A)
    → i < length xs
    → get_or (xs ++ ys) i d ≡ get_or xs i d
get_or-append [] ys i d h = absurd (omega arith)
get_or-append (x ∷ xs) ys zero d h = refl
get_or-append (x ∷ xs) ys (suc i) d h = get_or-append xs ys i d (omega arith)

get_or-last : {A : Type 0} (xs : List A) (a d : A) → get_or (xs ++ (a ∷ [])) (length xs) d ≡ a
get_or-last [] a d = refl
get_or-last (x ∷ xs) a d = get_or-last xs a d

All-push :
    {A : Type 0} (P : A → Type 0) (xs : List A) (a : A) → All P xs → P a → All P (xs ++ (a ∷ []))
All-push P [] a h p = (p, tt)
All-push P (x ∷ xs) a h p = (h.0, All-push P xs a h.1 p)

pub All-map :
    {A : Type 0} {P Q : A → Type 0} (xs : List A) → ((a : A) → P a → Q a) → All P xs → All Q xs
All-map [] f h = tt
All-map (x ∷ xs) f h = (f x h.0, All-map xs f h.1)

-- A new chunk changes no other chunk's size.
size_of-push :
    (ps : Option (List (Option ℕ))) (n c : ℕ) (p : Pool)
    → Chunks ps p
    → c ≢ 0
    → c ≤ p.current_pool
    → size_of (some (push_chunk ps n)) c ≡ size_of ps c
size_of-push none n c p h ne le = absurd (omega arith)
size_of-push (some xs) n c p h ne le =
    rw (get_or-append xs (some n ∷ []) (c - 1) none (omega arith))

Chunks-push :
    (ps : Option (List (Option ℕ))) (p : Pool)
    → Chunks ps p
    → Chunks (some (push_chunk ps (p.chunk_size * 2))) (extended p)
Chunks-push none p c = (omega arith, refl, omega arith, rw (c.0), omega arith, (λ e. cc, tt))
Chunks-push (some xs) p c = (
  omega (arith, length-append xs (some (p.chunk_size * 2) ∷ [])),
  refl,
  omega arith,
  let last : p.pool_count + 1 - 1 ≡ length xs = omega arith in
      rw last (get_or-last xs (some (p.chunk_size * 2)) none),
  omega arith,
  All-push (λ x. x ≢ none) xs (some (p.chunk_size * 2)) c.5 (λ e. cc),
)

current-le :
    (ps : Option (List (Option ℕ))) (p : Pool) → Chunks ps p → p.current_pool ≤ p.pool_count
current-le none p c = omega arith
current-le (some xs) p c = omega arith

Carved-extended : {p : Pool} (e : Ptr) → Chunks p.pools p → Carved p e → Carved (extended p) e
Carved-extended {p} e c k = record {
  real = k.real;
  inside = rw (size_of-push p.pools (p.chunk_size * 2) e.chunk p c k.real k.old) k.inside;
  old = ground (arith, current-le p.pools p c, k.old);
  below = λ q. absurd (ground (arith, current-le p.pools p c, k.old));
}

pub extended-IsValid :
    {p : Pool} {held : Ptr → Bool} {recycled : List Ptr}
    → IsValid p held recycled
    → p.chunk_size * 2 < word
    → IsValid (extended p) held recycled
extended-IsValid {p} {recycled} v room = record {
  element_pos = v.element_pos;
  element_fits = omega arith;
  count_small = omega (arith, current-le p.pools p v.chunks);
  size_small = room;
  chunks = Chunks-push p.pools p v.chunks;
  chain = v.chain;
  held_carved = λ e h. Carved-extended e v.chunks (v.held_carved e h);
  recycled_carved = All-map recycled (λ e. Carved-extended e v.chunks) v.recycled_carved;
  held_apart = v.held_apart;
  recycled_apart = v.recycled_apart;
  cross = v.cross;
}
