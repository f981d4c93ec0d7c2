-- ===== src/Collection/Lru/Order.antt =====
-- The items of an LRU as a queue, from the oldest to the newest.
use cextras.Base.{
  ℕ, zero, suc, ◌+◌, ◌%◌, ◌<◌, ◌≡◌, refl, sym, ap, ◌∙◌, Bool, false, true, some, List, [], ◌∷◌,
  ◌++◌, arith, append_assoc, if◌then◌else◌, ◌==◌, ◌||◌, length, get_elem?, set, take, drop,
  Bool-cases, inl, inr, ==→eq, append-nil, length-set,
}
use native.Mathlib.Nat.{mod-eq_of_lt}
use cextras.Collection.Lru.{Lru, after}

-- The item after the newest one is the oldest.
abbrev pub queue : Lru → List ℕ
queue l = drop (after l) l.items ++ take (after l) l.items

abbrev pub ends_with : ℕ → List ℕ → Bool
ends_with key [] = false
ends_with key (x ∷ []) = x == key
ends_with key (x ∷ (y ∷ xs)) = ends_with key (y ∷ xs)

-- What a touch does to the queue: a key that is its oldest or its newest leaves it alone, and any other
-- key pushes the oldest out.
abbrev pub push : ℕ → List ℕ → List ℕ
push key [] = []
push key (old ∷ rest) =
    if (old == key) || ends_with key (old ∷ rest) then old ∷ rest else rest ++ (key ∷ [])

ends_with-append : (key x : ℕ) (xs : List ℕ) → ends_with key (xs ++ (x ∷ [])) ≡ (x == key)
ends_with-append key x [] = refl
ends_with-append key x (y ∷ []) = refl
ends_with-append key x (y ∷ (z ∷ xs)) = ends_with-append key x (z ∷ xs)

take-set :
    (xs : List ℕ) (i key : ℕ)
    → i < length xs
    → take (suc i) (set xs i key) ≡ take i xs ++ (key ∷ [])
take-set [] i key h = absurd (omega arith)
take-set (x ∷ xs) zero key h = refl
take-set (x ∷ xs) (suc i) key h = ap (λ ys. x ∷ ys) (take-set xs i key (omega arith))

drop-set : (xs : List ℕ) (i key : ℕ) → drop (suc i) (set xs i key) ≡ drop (suc i) xs
drop-set [] i key = refl
drop-set (x ∷ xs) zero key = refl
drop-set (x ∷ xs) (suc i) key = drop-set xs i key

drop-get_elem? : (xs : List ℕ) (i x : ℕ) → get_elem? xs i ≡ some x → drop i xs ≡ x ∷ drop (suc i) xs
drop-get_elem? [] i x e = cc
drop-get_elem? (y ∷ xs) zero x e = let same : y ≡ x = cc in ap (λ z. z ∷ xs) same
drop-get_elem? (y ∷ xs) (suc i) x e = drop-get_elem? xs i x e

take-get_elem? :
    (xs : List ℕ) (i x : ℕ) → get_elem? xs i ≡ some x → take (suc i) xs ≡ take i xs ++ (x ∷ [])
take-get_elem? [] i x e = cc
take-get_elem? (y ∷ xs) zero x e = let same : y ≡ x = cc in ap (λ z. z ∷ []) same
take-get_elem? (y ∷ xs) (suc i) x e = ap (λ ys. y ∷ ys) (take-get_elem? xs i x e)

take-all : (xs : List ℕ) (n : ℕ) → n ≡ length xs → take n xs ≡ xs
take-all [] n e = rw e refl
take-all (x ∷ xs) zero e = absurd (omega (arith, e))
take-all (x ∷ xs) (suc n) e = ap (λ ys. x ∷ ys) (take-all xs n (omega (arith, e)))

drop-all : (xs : List ℕ) (n : ℕ) → n ≡ length xs → drop n xs ≡ []
drop-all [] n e = rw e refl
drop-all (x ∷ xs) zero e = absurd (omega (arith, e))
drop-all (x ∷ xs) (suc n) e = drop-all xs n (omega (arith, e))

-- A ring that is cut behind a place, also behind its last one.
cut_behind :
    (xs : List ℕ) (size r : ℕ)
    → length xs ≡ size
    → r < size
    → drop ((r + 1) % size) xs ++ take ((r + 1) % size) xs ≡ drop (suc r) xs ++ take (suc r) xs
cut_behind xs size r full below = elim (Bool-cases (r + 1 == size)) [
  | inl end ↦
      let same : r + 1 ≡ size = ==→eq (r + 1) size end in
      let zero_next : (r + 1) % size ≡ 0 = grind (arith, same) in
      rw
        (
          zero_next,
          drop-all xs (suc r) (omega (arith, same, full)),
          take-all xs (suc r) (omega (arith, same, full)),
        )
        (append-nil xs)
  | inr more ↦
      let next : (r + 1) % size ≡ suc r = mod-eq_of_lt (ground arith) ∙ omega arith in rw next refl
]

module _ (l : Lru) (full : length l.items ≡ l.size) (key : ℕ) where
  abbrev pub pushed : Lru
  pushed = record l { items = set l.items (after l) key; ring_index = after l }

  queue-oldest :
      (old : ℕ)
      → get_elem? l.items (after l) ≡ some old
      → queue l ≡ old ∷ (drop (suc (after l)) l.items ++ take (after l) l.items)
  queue-oldest old e =
      ap (λ ys. ys ++ take (after l) l.items) (drop-get_elem? l.items (after l) old e)

  queue-newest :
      (last : ℕ)
      → l.ring_index < l.size
      → get_elem? l.items l.ring_index ≡ some last
      → ends_with key (queue l) ≡ (last == key)
  queue-newest last below e =
      let parts : queue l
          ≡ (drop (suc l.ring_index) l.items ++ take l.ring_index l.items) ++ (last ∷ []) =
        cut_behind l.items l.size l.ring_index full below
        ∙ (ap (λ ys. drop (suc l.ring_index) l.items ++ ys)
              (take-get_elem? l.items l.ring_index last e)
            ∙ sym (
                append_assoc (drop (suc l.ring_index) l.items) (take l.ring_index l.items)
                  (last ∷ []))) in
      rw parts
        (ends_with-append key last (drop (suc l.ring_index) l.items ++ take l.ring_index l.items))

  queue-pushed :
      after l < l.size
      → queue pushed ≡ (drop (suc (after l)) l.items ++ take (after l) l.items) ++ (key ∷ [])
  queue-pushed below =
      cut_behind (set l.items (after l) key) l.size (after l)
        (length-set l.items (after l) key ∙ full) below
      ∙ (ap (λ ys. ys ++ take (suc (after l)) (set l.items (after l) key))
            (drop-set l.items (after l) key)
          ∙ (ap (λ ys. drop (suc (after l)) l.items ++ ys)
                (take-set l.items (after l) key (omega (arith, full, below)))
              ∙ sym (
                  append_assoc (drop (suc (after l)) l.items) (take (after l) l.items) (key ∷ []))))

  module _ (last old : ℕ) (r : l.ring_index < l.size) (i : after l < l.size)
      (e₁ : get_elem? l.items l.ring_index ≡ some last)
      (e₂ : get_elem? l.items (after l) ≡ some old) where
    -- The test of try_touch is that of the queue.
    abbrev kept : Bool
    kept =
        (old == key)
        || ends_with key (old ∷ (drop (suc (after l)) l.items ++ take (after l) l.items))

    kept-is : kept ≡ ((old == key) || (last == key))
    kept-is =
        ap (λ b. (old == key) || b)
          (ap (ends_with key) (sym (queue-oldest old e₂)) ∙ queue-newest last r e₁)

    pub push-keeps : ((old == key) || (last == key)) ≡ true → push key (queue l) ≡ queue l
    push-keeps h = rw (queue-oldest old e₂) (rw (kept-is ∙ h) refl)

    pub push-pushes : ((old == key) || (last == key)) ≡ false → queue pushed ≡ push key (queue l)
    push-pushes h = rw (queue-oldest old e₂) (rw (kept-is ∙ h) (queue-pushed i))

pub push-empty : (l : Lru) (key : ℕ) → length l.items ≡ 0 → queue l ≡ push key (queue l)
push-empty l key none_here =
    let parts : queue l ≡ [] = rw (length-nil l.items none_here) (drop-nil (after l)) in
    rw parts refl
  where
    length-nil : (xs : List ℕ) → length xs ≡ 0 → xs ≡ []
    length-nil [] e = refl
    length-nil (x ∷ xs) e = absurd (omega (arith, e))

    drop-nil : (n : ℕ) → drop {A = ℕ} n [] ++ take n [] ≡ []
    drop-nil zero = refl
    drop-nil (suc n) = refl
