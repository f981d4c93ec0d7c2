-- ===== src/Memory/Pool/Fresh.antt =====
-- Carving the next element off the current chunk keeps the invariant.
use cextras.Base.{
  ℕ, ◌+◌, ◌≤◌, ◌≡◌, ◌≢◌, inl, inr, Bool, true, false, Option, none, some, List, arith,
  if◌then◌else◌, Bool-cases, ◌∙◌, sym, ◌==◌, ◌⊎◌, is_some, not-==→ne, ==→eq,
}
use cextras.Memory.Pool.{Ptr, ptr, ptr_eq, Pool}
use cextras.Memory.Pool.Inv.{Apart, size_of, Carved, Chunks, IsValid}
use cextras.Memory.Pool.Valid.{All-map}

-- The set with one more element, and with one less.
abbrev pub add : Ptr → (Ptr → Bool) → Ptr → Bool
add e held a = if ptr_eq a e then true else held a

abbrev pub remove : Ptr → (Ptr → Bool) → Ptr → Bool
remove e held a = if ptr_eq a e then false else held a

pub ptr_eq→eq : (a b : Ptr) → ptr_eq a b ≡ true → a ≡ b
ptr_eq→eq a b h = ground arith

pub ptr_eq_refl : (a : Ptr) → ptr_eq a a ≡ true
ptr_eq_refl a = ground arith

pub Apart-sym : (n : ℕ) (a b : Ptr) → Apart n a b → Apart n b a
Apart-sym n a b (inl h) = inl (λ e. h (omega arith))
Apart-sym n a b (inr (inl h)) = inr (inr h)
Apart-sym n a b (inr (inr h)) = inr (inl h)

abbrev pub next : Pool → Ptr
next p = ptr p.current_pool p.next_offset

abbrev pub carved : Pool → Pool
carved p = record p { next_offset = p.next_offset + p.element_size }

module _ {p : Pool} where
  Apart-next : (b : Ptr) → Carved p b → Apart p.element_size (next p) b
  Apart-next b k = elim (Bool-cases (b.chunk == p.current_pool)) [
    | inl e ↦ inr (inr (k.below (==→eq _ _ e)))
    | inr ne ↦ inl (λ q. not-==→ne b.chunk p.current_pool ne (omega arith))
  ]

  Carved-next-old : (b : Ptr) → Carved p b → Carved (carved p) b
  Carved-next-old b k = record {
    real = k.real;
    inside = k.inside;
    old = k.old;
    below = λ e. omega (arith, k.below e);
  }

-- The current chunk, where there is one.
pub size_of-current :
    (ps : Option (List (Option ℕ))) (p : Pool)
    → Chunks ps p
    → is_some ps ≡ true
    → (size_of ps p.current_pool ≡ p.chunk_size)
      × (p.current_pool ≢ 0)
      × (p.next_offset ≤ p.chunk_size)
size_of-current none p c h = cc
size_of-current (some xs) p c h = (rw (c.3), omega arith, c.4)

pub add-cases :
    (e : Ptr) (held : Ptr → Bool) (a : Ptr) → add e held a ≡ true → (a ≡ e) ⊎ (held a ≡ true)
add-cases e held a h = elim (Bool-cases (ptr_eq a e)) [
  | inl q ↦ inl (ptr_eq→eq a e q)
  | inr q ↦ inr (rw q at h)
]

-- Adding an element that lies apart from those held keeps them apart.
pub add-Apart :
    (n : ℕ) (e : Ptr) (held : Ptr → Bool)
    → ((a : Ptr) → held a ≡ true → Apart n e a)
    → ((a b : Ptr) → held a ≡ true → held b ≡ true → a ≢ b → Apart n a b)
    → (a b : Ptr) → add e held a ≡ true
    → add e held b ≡ true
    → a ≢ b
    → Apart n a b
add-Apart n e held new old a b ha hb ne = elim (add-cases e held a ha) [
  | inl p ↦ elim (add-cases e held b hb) [
    | inl q ↦ absurd (ne (p ∙ sym q))
    | inr h ↦ rw p (new b h)
  ]
  | inr g ↦ elim (add-cases e held b hb) [
    | inl q ↦ rw q (Apart-sym n e a (new a g))
    | inr h ↦ old a b g h ne
  ]
]

Chunks-carved :
    (ps : Option (List (Option ℕ))) (p : Pool)
    → Chunks ps p
    → p.next_offset + p.element_size ≤ p.chunk_size
    → Chunks ps (carved p)
Chunks-carved none p c h = c
Chunks-carved (some xs) p c h = (c.0, c.1, c.2, c.3, h, c.5)

module _ {p : Pool} {held : Ptr → Bool} {recycled : List Ptr} (v : IsValid p held recycled) where
  Carved-next :
      is_some p.pools ≡ true
      → p.next_offset + p.element_size ≤ p.chunk_size
      → Carved (carved p) (next p)
  Carved-next started room =
      let c = size_of-current p.pools p v.chunks started in
      record { real = c.1; inside = rw (c.0) room; old = omega arith; below = λ e. omega arith }

  -- The carved element overlaps nothing in use.
  pub carve-Apart : (a : Ptr) → held a ≡ true → Apart p.element_size (next p) a
  carve-Apart a h = Apart-next a (v.held_carved a h)

  pub carve-IsValid :
      is_some p.pools ≡ true
      → p.next_offset + p.element_size ≤ p.chunk_size
      → IsValid (carved p) (add (next p) held) recycled
  carve-IsValid started room = record {
    element_pos = v.element_pos;
    element_fits = v.element_fits;
    count_small = v.count_small;
    size_small = v.size_small;
    chunks = Chunks-carved p.pools p v.chunks room;
    chain = v.chain;
    held_carved = λ e h. elim (add-cases (next p) held e h) [
      | inl q ↦ rw q (Carved-next started room)
      | inr g ↦ Carved-next-old e (v.held_carved e g)
    ];
    recycled_carved = All-map recycled Carved-next-old v.recycled_carved;
    held_apart = add-Apart p.element_size (next p) held carve-Apart v.held_apart;
    recycled_apart = v.recycled_apart;
    cross = λ a h. elim (add-cases (next p) held a h) [
      | inl q ↦ rw q (All-map recycled Apart-next v.recycled_carved)
      | inr g ↦ v.cross a g
    ];
  }
