-- ===== src/Collection/Lru/Refs.antt =====
-- The references that an LRU holds in its backend: one for each of its items.
use cextras.Base.{
  ℕ, zero, suc, ◌+◌, ◌-◌, ◌<◌, ◌≡◌, refl, sym, ◌≢◌, ◌∙◌, false, some, List, [], ◌∷◌, ◌==◌, ==→eq,
  ◌||◌, arith, if◌then◌else◌, get_elem?, set, length, count, count-le-length, length-set,
  get_elem?-lt, Bool-cases, inl, inr, not-==→ne,
}
use cextras.Collection.Lru.Order.{queue, push, push-keeps, push-pushes, push-empty}
use cextras.Collection.Lru.{Backend, Lru, empty_marker, after, evict, touch, release_all, cleanup}

-- What an LRU needs of a backend in a state that is `Good`: `retain` of a key that has a reference,
-- while its references stay below `limit`, adds one to it, `release` of such a key takes one, and
-- neither touches another key.
pub record Counting {V S : Type 0} (b : Backend V S) (Good : S → Type 0) (refs : S → ℕ → ℕ)
    (limit : ℕ) : Type 0 where
  pub retain_adds :
      (s : S) (k : ℕ)
      → Good s
      → 0 < refs s k
      → refs s k + 1 < limit
      → (s' : S) × (b.retain s k ≡ some s')
        × Good s'
        × ((j : ℕ) → refs s' j ≡ (if j == k then refs s k + 1 else refs s j))
  pub release_takes :
      (s : S) (k : ℕ)
      → Good s
      → 0 < refs s k
      → (s' : S) × (b.release s k ≡ some s')
        × Good s'
        × ((j : ℕ) → refs s' j ≡ (if j == k then refs s k - 1 else refs s j))

count-set :
    (xs : List ℕ) (i old new k : ℕ)
    → get_elem? xs i ≡ some old
    → count k (set xs i new) + (if old == k then 1 else 0)
      ≡ count k xs + (if new == k then 1 else 0)
count-set [] i old new k e = cc
count-set (x ∷ xs) zero old new k e = ground arith
count-set (x ∷ xs) (suc i) old new k e = omega (arith, count-set xs i old new k e)

count-get_elem? : (xs : List ℕ) (i k : ℕ) → get_elem? xs i ≡ some k → 0 < count k xs
count-get_elem? [] i k e = cc
count-get_elem? (x ∷ xs) zero k e = ground arith
count-get_elem? (x ∷ xs) (suc i) k e = omega (arith, count-get_elem? xs i k e)

-- The ring has `size` items, and the index points at one of them if there is one.
pub record IsRing (l : Lru) : Type 0 where
  pub items : length l.items ≡ l.size
  pub index : 0 < l.size → l.ring_index < l.size

after-lt : (l : Lru) → 0 < l.size → after l < l.size
after-lt l h = omega arith

module _ {V S : Type 0} {b : Backend V S} {Good : S → Type 0} {refs : S → ℕ → ℕ} {limit : ℕ}
    (c : Counting b Good refs limit) where
  -- Every key has the references `others` that are not the LRU's, and one for each item.
  pub record Owns (others : ℕ → ℕ) (items : List ℕ) (s : S) : Type 0 where
    pub good : Good s
    pub balance : (k : ℕ) → k ≢ empty_marker → refs s k ≡ others k + count k items

  evict-Owns :
      (others : ℕ → ℕ) (key : ℕ) (keys : List ℕ) (s : S)
      → Owns others (key ∷ keys) s
      → (s' : S) × (evict b s key ≡ some s') × Owns others keys s'
  evict-Owns others key keys s o = elim (Bool-cases (key == empty_marker)) [
    | inl none_here ↦ (
      s,
      rw none_here,
      record { good = o.good; balance = λ k ne. ground (arith, o.balance k ne) },
    )
    | inr some_here ↦
        let (s', r, g, step) =
          c.release_takes s key o.good (ground (arith, o.balance key (not-==→ne _ _ some_here))) in
        (
          s',
          rw some_here r,
          record {
            good = g;
            balance = λ k ne.
                ground (arith, step k, o.balance k ne, o.balance key (not-==→ne _ _ some_here));
          },
        )
  ]

  -- The loop of cx_lru_cleanup.
  release_all-Owns :
      (others : ℕ → ℕ) (items : List ℕ) (s : S)
      → Owns others items s
      → (s' : S) × (release_all b items s ≡ some s') × Owns others [] s'
  unfolding release_all
  release_all-Owns others [] s o = (s, refl, o)
  release_all-Owns others (key ∷ keys) s o =
      let (s', r, o') = evict-Owns others key keys s o in
      let (s'', r', o'') = release_all-Owns others keys s' o' in (s'', rw r r', o'')

  -- One reference less for `old`, unless it is the marker.
  record Freed (s : S) (old : ℕ) (s' : S) : Type 0 where
    pub good : Good s'
    pub less : (k : ℕ) → k ≢ empty_marker → refs s' k + (if old == k then 1 else 0) ≡ refs s k

  evict-Freed :
      (s : S) (old : ℕ)
      → Good s
      → (old ≢ empty_marker → 0 < refs s old)
      → (s' : S) × (evict b s old ≡ some s') × Freed s old s'
  evict-Freed s old g held = elim (Bool-cases (old == empty_marker)) [
    | inl none_here ↦ (s, rw none_here, record { good = g; less = λ k ne. ground arith })
    | inr some_here ↦
        let pos = held (not-==→ne _ _ some_here) in
        let (s', r, g', step) = c.release_takes s old g pos in
        (s', rw some_here r, record { good = g'; less = λ k ne. ground (arith, step k, pos) })
  ]

  abbrev replaced : Lru → ℕ → Lru
  replaced l key = record l { items = set l.items (after l) key; ring_index = after l }

  -- The two calls of the backend, and the new item.
  exchange :
      (others : ℕ → ℕ) (l : Lru) (key old : ℕ) (s : S)
      → Owns others l.items s
      → get_elem? l.items (after l) ≡ some old
      → key ≢ empty_marker
      → old ≢ key
      → 0 < others key
      → others key + length l.items + 1 < limit
      → (s₁ s₂ : S) × (evict b s old ≡ some s₁)
        × (b.retain s₁ key ≡ some s₂)
        × Owns others (set l.items (after l) key) s₂
  exchange others l key old s o at_old ne other held room =
      let pos = count-get_elem? l.items (after l) old at_old in
      let (s₁, e, f) = evict-Freed s old o.good (λ n. omega (arith, o.balance old n)) in
      let has : 0 < refs s₁ key = ground (arith, f.less key ne, o.balance key ne) in
      let below : refs s₁ key + 1 < limit =
        omega (arith, f.less key ne, o.balance key ne, count-le-length key l.items, room) in
      let (s₂, r, g, step) = c.retain_adds s₁ key f.good has below in
      (
        s₁,
        s₂,
        e,
        r,
        record {
          good = g;
          balance = λ k n. ground (
            arith,
            step k,
            f.less k n,
            o.balance k n,
            count-set l.items (after l) old key k at_old,
          );
        },
      )

  -- The touch goes through and keeps the balance.
  abbrev pub HasTouched : (others : ℕ → ℕ) → Lru → ℕ → S → Type 0
  HasTouched others l key s =
      (l' : Lru) × (s' : S) × (touch b l s key ≡ some (l', s'))
      × IsRing l'
      × (l'.size ≡ l.size)
      × (queue l' ≡ push key (queue l))
      × Owns others l'.items s'

  replaced-IsRing : (l : Lru) (key : ℕ) → IsRing l → 0 < l.size → IsRing (replaced l key)
  replaced-IsRing l key ring pos = record {
    items = length-set l.items (after l) key ∙ ring.items;
    index = λ p. after-lt l pos;
  }

  touch-fresh :
      (others : ℕ → ℕ) (l : Lru) (key last old : ℕ) (s : S)
      → IsRing l
      → Owns others l.items s
      → key ≢ empty_marker
      → 0 < others key
      → others key + length l.items + 1 < limit
      → 0 < l.size
      → get_elem? l.items l.ring_index ≡ some last
      → get_elem? l.items (after l) ≡ some old
      → ((old == key) || (last == key)) ≡ false
      → HasTouched others l key s
  unfolding touch
  touch-fresh others l key last old s ring o ne held room pos e₁ e₂ fresh =
      let (s₁, s₂, e, r, o') = exchange others l key old s o e₂ ne (ground arith) held room in
      let nz : (l.size == 0) ≡ false = ground arith in
      let index = ring.index pos in
      let pushes = push-pushes l ring.items key last old index (after-lt l pos) e₁ e₂ fresh in
      (
        replaced l key,
        s₂,
        rw (nz, e₁, e₂, fresh, e, r),
        replaced-IsRing l key ring pos,
        refl,
        pushes,
        o',
      )

  -- Over a backend that counts references, where a valid LRU holds one for each of its items,
  -- cx_lru_touch of a key that is not the marker and has a reference of somebody else, with room for
  -- more below the limit, goes through. A key that is the oldest or the newest item changes nothing, and
  -- any other key becomes the newest and pushes the oldest out, which the others follow in their order.
  -- The LRU is valid, of the same size, and holds one for each of its items again, and the references
  -- of others are unchanged.
  pub touch-Owns :
      (others : ℕ → ℕ) (l : Lru) (key : ℕ) (s : S)
      → IsRing l
      → Owns others l.items s
      → key ≢ empty_marker
      → 0 < others key
      → others key + length l.items + 1 < limit
      → HasTouched others l key s
  unfolding touch
  touch-Owns others l key s ring o ne held room = elim (Bool-cases (l.size == 0)) [
    | inl z ↦ (l, s, rw z, ring, refl, push-empty l key (ring.items ∙ ==→eq l.size 0 z), o)
    | inr nz ↦
        let pos : 0 < l.size = ground arith in
        let (last, e₁) = get_elem?-lt l.items l.ring_index (rw ring.items (ring.index pos)) in
        let (old, e₂) = get_elem?-lt l.items (after l) (rw ring.items (after-lt l pos)) in
        elim (Bool-cases ((old == key) || (last == key))) [
          | inl same ↦
              let keeps =
                push-keeps l ring.items key last old (ring.index pos) (after-lt l pos) e₁ e₂ same in
              (l, s, rw (nz, e₁, e₂, same), ring, refl, sym keeps, o)
          | inr fresh ↦ touch-fresh others l key last old s ring o ne held room pos e₁ e₂ fresh
        ]
  ]

  -- Over a backend that counts references, where an LRU holds one for each of its items,
  -- cx_lru_cleanup goes through and gives back every reference that the LRU holds and no other.
  pub cleanup-Owns :
      (others : ℕ → ℕ) (l : Lru) (s : S)
      → Owns others l.items s
      → (l' : Lru) × (s' : S) × (cleanup b l s ≡ some (l', s')) × IsRing l' × Owns others [] s'
  unfolding cleanup
  cleanup-Owns others l s o =
      let (s', r, o') = release_all-Owns others l.items s o in
      (
        record l { items = []; size = 0 },
        s',
        rw r,
        record { items = refl; index = λ p. omega arith },
        o',
      )
