-- ===== src/Collection/Lru/Session.antt =====
-- An LRU from cx_lru_init to cx_lru_cleanup.
use cextras.Base.{
  ℕ, zero, suc, ◌+◌, ◌<◌, ◌≡◌, refl, ◌∙◌, ◌≢◌, true, Option, some, List, [], ◌∷◌, ◌==◌, arith,
  length, replicate, count, length-replicate, Bool-cases, inl, inr,
}
use cextras.Collection.Lru.{Backend, Lru, ◌>>=◌, empty_marker, init, touch, cleanup}
use cextras.Collection.Lru.Refs.{Counting, Owns, IsRing, touch-Owns, cleanup-Owns}

module _ {V S : Type 0} (b : Backend V S) where
  abbrev pub touches : Lru → S → List ℕ → Option (Lru × S)
  touches l s [] = some (l, s)
  touches l s (key ∷ keys) = touch b l s key >>= λ (l', s'). touches l' s' keys

  -- An LRU of `size` items is initialised, touched with all keys and cleaned up.
  abbrev pub session : (size : ℕ) → List ℕ → S → Option S
  session size keys s = init true size >>= λ l.
      touches l s keys >>= λ (l', s'). cleanup b l' s' >>= λ (l'', s''). some s''

-- The keys are not the marker, and have references of somebody else with room for `size` more.
abbrev pub AreHeld : (others : ℕ → ℕ) (size limit : ℕ) → List ℕ → Type 0
AreHeld others size limit [] = Unit
AreHeld others size limit (k ∷ ks) =
    (k ≢ empty_marker)
    × (0 < others k)
    × (others k + size + 1 < limit)
    × AreHeld others size limit ks

count-replicate : (n k a : ℕ) → k ≢ a → count k (replicate n a) ≡ 0
count-replicate zero k a ne = refl
count-replicate (suc n) k a ne = ground (arith, count-replicate n k a ne, ne)

module _ {V S : Type 0} {b : Backend V S} {Good : S → Type 0} {refs : S → ℕ → ℕ} {limit : ℕ}
    (c : Counting b Good refs limit) where
  -- The LRU behind the touches.
  touches-Owns :
      (others : ℕ → ℕ) (size : ℕ) (keys : List ℕ) (l : Lru) (s : S)
      → IsRing l
      → l.size ≡ size
      → Owns c others l.items s
      → AreHeld others size limit keys
      → (l' : Lru) × (s' : S) × (touches b l s keys ≡ some (l', s')) × Owns c others l'.items s'
  touches-Owns others size [] l s ring eq o h = (l, s, refl, o)
  touches-Owns others size (k ∷ ks) l s ring eq o (ne, held, room, rest) =
      let below : others k + length l.items + 1 < limit = omega (arith, ring.items) in
      let (l', s', e, ring', same, order, o') = touch-Owns c others l k s ring o ne held below in
      let (l'', s'', e', o'') = touches-Owns others size ks l' s' ring' (same ∙ eq) o' rest in
      (l'', s'', rw e e', o'')

  start-Owns :
      (size : ℕ) (s : S)
      → Good s
      → (l : Lru) × (init true size ≡ some l)
        × IsRing l
        × (l.size ≡ size)
        × Owns c (refs s) l.items s
  start-Owns size s g = elim (Bool-cases (size == 0)) [
    | inl z ↦ (
      record { items = []; ring_index = 0; size = size },
      rw z refl,
      record { items = ground arith; index = λ h. ground arith },
      refl,
      record { good = g; balance = λ k ne. omega arith },
    )
    | inr nz ↦ (
      record { items = replicate size empty_marker; ring_index = 0; size = size },
      rw nz refl,
      record { items = length-replicate size empty_marker; index = λ h. h },
      refl,
      record { good = g; balance = λ k ne. omega (arith, count-replicate size k empty_marker ne) },
    )
  ]

  -- The session goes through, and every key has the references that it had before.
  abbrev pub LeavesNoTrace : (size : ℕ) → List ℕ → S → Type 0
  LeavesNoTrace size keys s =
      (s' : S) × (session b size keys s ≡ some s')
      × Good s'
      × ((k : ℕ) → k ≢ empty_marker → refs s' k ≡ refs s k)

  -- Over a backend that counts references, an LRU that is initialised with any size, touched with
  -- keys that have references, with room for its own below the limit, and cleaned up, goes through,
  -- and gives back every reference that it took.
  pub session-LeavesNoTrace :
      (size : ℕ) (keys : List ℕ) (s : S)
      → Good s
      → AreHeld (refs s) size limit keys
      → LeavesNoTrace size keys s
  session-LeavesNoTrace size keys s g h =
      let (l, e, ring, eq, o) = start-Owns size s g in
      let (l', s', e', o') = touches-Owns (refs s) size keys l s ring eq o h in
      let (l'', s'', e'', ring'', o'') = cleanup-Owns c (refs s) l' s' o' in
      (s'', rw (e, e', e'') refl, o''.good, λ k ne. omega (arith, o''.balance k ne))
