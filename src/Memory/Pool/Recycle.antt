-- ===== src/Memory/Pool/Recycle.antt =====
-- cx_prealloc_pool_get and cx_prealloc_pool_recycle against the invariant of the pool.
use cextras.Base.{
  ℕ, ◌+◌, ◌*◌, ◌%◌, ◌≤◌, ◌<◌, ◌≡◌, refl, inl, inr, Bool, true, false, Option, none, some, List, [],
  ◌∷◌, arith, word, Bool-cases, ap, is_some,
}
use cextras.Memory.Pool.{
  Ptr, ptr_eq, Allocator, Pool, write, carve, reuse_node, is_full, fresh, get, recycle,
}
use cextras.Memory.Pool.Inv.{Succeeds, All, Chain, Apart, Carved, Chunks, IsValid}
use cextras.Memory.Pool.Valid.{All-map, extended, add_chunk-extended, extended-IsValid}
use cextras.Memory.Pool.Fresh.{
  add, remove, ptr_eq_refl, Apart-sym, add-cases, add-Apart, next, carved, size_of-current,
  carve-Apart, carve-IsValid,
}

abbrev pub rest : List Ptr → List Ptr
rest [] = []
rest (e ∷ es) = es

-- The element that is handed out next if one was recycled.
abbrev pub LastRecycled : List Ptr → Ptr → Type 0
LastRecycled [] e = Unit
LastRecycled (x ∷ es) e = e ≡ x

-- What a client is promised of the element that it gets: it is apart from all that is held, it is
-- the one recycled last if there is one, and the pool accounts for it.
pub record Handed (p : Pool) (held : Ptr → Bool) (recycled : List Ptr) (out : Option Ptr × Pool)
    (e : Ptr) : Type 0 where
  pub got : out.0 ≡ some e
  pub apart : (a : Ptr) → held a ≡ true → Apart p.element_size e a
  pub last : LastRecycled recycled e
  pub valid : IsValid out.1 (add e held) (rest recycled)
  pub same_size : out.1.element_size ≡ p.element_size
  pub growth : out.1.chunk_size ≤ p.chunk_size * 2

carve-carved :
    {p : Pool} {held : Ptr → Bool} {recycled : List Ptr}
    → IsValid p held recycled
    → is_some p.pools ≡ true
    → p.next_offset + p.element_size ≤ p.chunk_size
    → carve p ≡ (some (next p), carved p)
carve-carved {p} v started room =
    let c = size_of-current p.pools p v.chunks started in
    let small : (p.next_offset + p.element_size) % word ≡ p.next_offset + p.element_size =
      omega (arith, v.size_small) in
    rw small (ground (arith, c.1))

carve-Handed :
    {p : Pool} {held : Ptr → Bool}
    → IsValid p held []
    → is_some p.pools ≡ true
    → p.next_offset + p.element_size ≤ p.chunk_size
    → Handed p held [] (carve p) (next p)
carve-Handed {p} {held} v started room = rw (carve-carved v started room) (record {
  got = refl;
  apart = carve-Apart v;
  last = tt;
  valid = carve-IsValid v started room;
  same_size = refl;
  growth = omega arith;
})

not_full :
    (p : Pool)
    → Chunks p.pools p
    → p.chunk_size * 2 < word
    → p.element_size ≤ p.chunk_size
    → is_full p ≡ false
    → (is_some p.pools ≡ true) × (p.next_offset + p.element_size ≤ p.chunk_size)
not_full p c room fits h =
    let started : is_some p.pools ≡ true = ground arith in
    let c' = size_of-current p.pools p c started in
    let le : (p.next_offset + p.element_size) % word ≤ p.chunk_size = ground arith in
    (started, omega (arith, c'.2))

fresh-Handed :
    {h : Allocator} {p : Pool} {held : Ptr → Bool}
    → Succeeds h
    → IsValid p held []
    → p.chunk_size * 2 < word
    → (e : Ptr) × Handed p held [] (fresh h p) e
unfolding fresh
fresh-Handed {h} {p} s v room = elim (Bool-cases (is_full p)) [
  | inl full ↦ (
    next (extended p),
    rw (full, add_chunk-extended s v room)
        (let c = carve-Handed (extended-IsValid v room) refl (omega (arith, v.element_fits)) in
          record {
            got = c.got;
            apart = c.apart;
            last = tt;
            valid = c.valid;
            same_size = c.same_size;
            growth = omega arith;
          }),
  )
  | inr more ↦ (
    next p,
    rw more (
        carve-Handed v (not_full p v.chunks room v.element_fits more).0
          (not_full p v.chunks room v.element_fits more).1),
  )
]

Chain-write :
    (m : Ptr → Option Ptr) (e : Ptr) (v r : Option Ptr) (xs : List Ptr)
    → Chain m r xs
    → All (λ x. ptr_eq x e ≡ false) xs
    → Chain (write m e v) r xs
Chain-write m e v r [] c ne = c
Chain-write m e v r (x ∷ xs) c ne = (c.0, rw (ne.0) (Chain-write m e v (m x) xs c.1 ne.1))

pub Apart→ne : (n : ℕ) (a b : Ptr) → 0 < n → Apart n a b → ptr_eq b a ≡ false
Apart→ne n a b pos h = ground arith

-- The list of recycled elements and the first words say nothing of the chunks.
abbrev touch : Pool → Option Ptr → (Ptr → Option Ptr) → Pool
touch p r m = record p { reuse_pool = r; memory = m }

module _ (p : Pool) (r : Option Ptr) (m : Ptr → Option Ptr) where
  Carved-touch : (e : Ptr) → Carved p e → Carved (touch p r m) e
  Carved-touch e k = record { real = k.real; inside = k.inside; old = k.old; below = k.below }

  Chunks-touch : (ps : Option (List (Option ℕ))) → Chunks ps p → Chunks ps (touch p r m)
  Chunks-touch none c = c
  Chunks-touch (some xs) c = c

module _ {p : Pool} {held : Ptr → Bool} where
  -- The invariant with its list of recycled elements taken apart.
  reuse-Handed :
      (e : Ptr) (es : List Ptr)
      → IsValid p held (e ∷ es)
      → Handed p held (e ∷ es) (reuse_node e p) e
  reuse-Handed e es v = record {
    got = refl;
    apart = λ a h. Apart-sym _ a e (v.cross a h).0;
    last = refl;
    same_size = refl;
    growth = omega arith;
    valid = record {
      element_pos = v.element_pos;
      element_fits = v.element_fits;
      count_small = v.count_small;
      size_small = v.size_small;
      chunks = Chunks-touch p (p.memory e) (write p.memory e none) p.pools v.chunks;
      chain =
          Chain-write p.memory e none (p.memory e) es v.chain.1
            (All-map es (λ x. Apart→ne p.element_size e x v.element_pos) v.recycled_apart.0);
      held_carved = λ a h. elim (add-cases e held a h) [
        | inl q ↦ rw q (Carved-touch p (p.memory e) (write p.memory e none) e v.recycled_carved.0)
        | inr g ↦ Carved-touch p (p.memory e) (write p.memory e none) a (v.held_carved a g)
      ];
      recycled_carved =
          All-map es (Carved-touch p (p.memory e) (write p.memory e none)) v.recycled_carved.1;
      held_apart =
          add-Apart p.element_size e held (λ a h. Apart-sym _ a e (v.cross a h).0) v.held_apart;
      recycled_apart = v.recycled_apart.1;
      cross = λ a h. elim (add-cases e held a h) [
        | inl q ↦ rw q (v.recycled_apart.0)
        | inr g ↦ (v.cross a g).1
      ];
    };
  }

get_from : Option Ptr → Allocator → Pool → Option Ptr × Pool
get_from r h p = elim r [ none ↦ fresh h p | some e ↦ reuse_node e p ]

get-get_from :
    (h : Allocator) (p : Pool) (r : Option Ptr) → p.reuse_pool ≡ r → get h p ≡ get_from r h p
unfolding get get_from
get-get_from h p r e = ap (λ r. get_from r h p) e

pub get-fresh : (h : Allocator) (p : Pool) → p.reuse_pool ≡ none → get h p ≡ fresh h p
unfolding get_from
get-fresh h p e = get-get_from h p none e

-- cx_prealloc_pool_get in a valid pool, where the allocator does not fail and the size of the next
-- chunk fits a `size_t`: it returns an element that overlaps none of those held, the one recycled
-- last if there is one, and the invariant holds with that element held.
pub get-Handed :
    {h : Allocator} {p : Pool} {held : Ptr → Bool} (recycled : List Ptr)
    → Succeeds h
    → IsValid p held recycled
    → p.chunk_size * 2 < word
    → (e : Ptr) × Handed p held recycled (get h p) e
unfolding get_from
get-Handed {h} {p} [] s v room = rw (get-get_from h p none v.chain) (fresh-Handed s v room)
get-Handed {h} {p} (e ∷ es) s v room =
    (e, rw (get-get_from h p (some e) v.chain.0) (reuse-Handed e es v))

remove→held :
    (e : Ptr) (held : Ptr → Bool) (a : Ptr)
    → remove e held a ≡ true
    → (held a ≡ true) × (ptr_eq a e ≡ false)
remove→held e held a h = elim (Bool-cases (ptr_eq a e)) [
  | inl q ↦ absurd (ground arith)
  | inr q ↦ (rw q at h, q)
]

-- cx_prealloc_pool_recycle of an element that a client holds: the client holds it no more, and it
-- becomes the first of the recycled ones.
pub recycle-IsValid :
    {p : Pool} {held : Ptr → Bool} {recycled : List Ptr} (e : Ptr)
    → IsValid p held recycled
    → held e ≡ true
    → IsValid (recycle p (some e)) (remove e held) (e ∷ recycled)
unfolding recycle
recycle-IsValid {p} {held} {recycled} e v own =
    let m = write p.memory e p.reuse_pool in
    record {
      element_pos = v.element_pos;
      element_fits = v.element_fits;
      count_small = v.count_small;
      size_small = v.size_small;
      chunks = Chunks-touch p (some e) m p.pools v.chunks;
      chain = (
        refl,
        rw (ptr_eq_refl e) (
            Chain-write p.memory e p.reuse_pool p.reuse_pool recycled v.chain
              (All-map recycled (λ x. Apart→ne p.element_size e x v.element_pos) (v.cross e own))),
      );
      held_carved = λ a h. Carved-touch p (some e) m a (v.held_carved a (remove→held e held a h).0);
      recycled_carved = (
        Carved-touch p (some e) m e (v.held_carved e own),
        All-map recycled (Carved-touch p (some e) m) v.recycled_carved,
      );
      held_apart =
          λ a b h k. v.held_apart a b (remove→held e held a h).0 (remove→held e held b k).0;
      recycled_apart = (v.cross e own, v.recycled_apart);
      cross = λ a h. (
        v.held_apart a e (remove→held e held a h).0 own
            (λ q. ground (arith, remove→held e held a h)),
        v.cross a (remove→held e held a h).0,
      );
    }
