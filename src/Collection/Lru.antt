-- ===== src/Collection/Lru.antt =====
-- lib/collection/lru.c: a ring of the keys that were touched last, each of which holds a reference in
-- a backend.
--
-- `struct CxLruBackendImpl` is the record `Backend` over the pointers to values and the backend's
-- state; a result `none` is a call that the backend does not survive, such as a failed assertion, or
-- a read outside of `items`. The values that its functions return, which lru.c ignores, are left out.
pub mod Order
pub mod Refs
pub mod Session
pub mod OverMap
pub mod OverTree
pub mod OverHashMap
mod Tests
use cextras.Base.{
  ℕ, ◌+◌, ◌-◌, ◌%◌, ◌^◌, Bool, true, false, Option, none, some, List, [], ◌∷◌, ◌==◌, ◌||◌,
  if◌then◌else◌, get_elem?, set, replicate,
}

pub record Backend (V S : Type 0) : Type 0 where
  pub retain : S → ℕ → Option S
  pub retain_value : S → Option V → Option S
  pub release : S → ℕ → Option S

-- `struct CxLru` without the backend.
pub record Lru : Type 0 where
  pub items : List ℕ
  pub ring_index : ℕ
  pub size : ℕ

infixl 5 ◌>>=◌
abbrev pub ◌>>=◌ {ℓ κ} : {A : Type ℓ} {B : Type κ} → Option A → (A → Option B) → Option B
none >>= f = none
some a >>= f = f a

-- EMPTY_MARKER
abbrev pub empty_marker : ℕ
empty_marker = 2 ^ 64 - 1

-- cx_lru_init; the first argument says whether `calloc` succeeds, and `none` is -CX_ERR_ALLOC.
abbrev pub init : Bool → ℕ → Option Lru
init calloc_ok size =
    if size == 0
    then some (record { items = []; ring_index = 0; size = size })
    else (if calloc_ok
        then some (record { items = replicate size empty_marker; ring_index = 0; size = size })
        else none)

-- The index after `i`.
abbrev pub after : Lru → ℕ
after l = (l.ring_index + 1) % l.size

module _ {V S : Type 0} (b : Backend V S) where
  abbrev pub evict : S → ℕ → Option S
  evict s key = if key == empty_marker then some s else b.release s key

  -- The rest of try_touch after it has read the newest and the oldest key.
  abbrev pub replace : Lru → S → ℕ → ℕ → ℕ → Option (Bool × Lru × S)
  replace l s key last old =
      if (old == key) || (last == key)
      then some (false, l, s)
      else (evict s old >>= λ s'.
          some (true, record l { items = set l.items (after l) key; ring_index = after l }, s'))

  pub try_touch : Lru → S → ℕ → Option (Bool × Lru × S)
  try_touch l s key =
      if l.size == 0
      then some (false, l, s)
      else (get_elem? l.items l.ring_index >>= λ last.
          get_elem? l.items (after l) >>= λ old. replace l s key last old)

  abbrev pub retain_if : (S → Option S) → Bool × Lru × S → Option (Lru × S)
  retain_if retain (touched, l, s) =
      if touched then (retain s >>= λ s'. some (l, s')) else some (l, s)

  -- cx_lru_touch
  pub touch : Lru → S → ℕ → Option (Lru × S)
  unfolding try_touch
  touch l s key = try_touch l s key >>= retain_if (λ s'. b.retain s' key)

  -- cx_lru_touch_value
  pub touch_value : Lru → S → ℕ → Option V → Option (Lru × S)
  unfolding try_touch
  touch_value l s key value = try_touch l s key >>= retain_if (λ s'. b.retain_value s' value)

  -- The loop of cx_lru_cleanup over the items.
  pub release_all : List ℕ → S → Option S
  release_all [] s = some s
  release_all (key ∷ keys) s = evict s key >>= release_all keys

  -- cx_lru_cleanup
  pub cleanup : Lru → S → Option (Lru × S)
  unfolding release_all
  cleanup l s = release_all l.items s >>= λ s'. some (record l { items = []; size = 0 }, s')
