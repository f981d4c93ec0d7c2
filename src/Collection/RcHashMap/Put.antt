-- ===== src/Collection/RcHashMap/Put.antt =====
-- cx_rc_hash_map_put, and cx_rc_hash_map_retain of the same key behind it.
use cextras.Base.{
  ℕ, ◌-◌, ◌<◌, ◌≡◌, refl, Bool, true, false, Option, none, some, [], ◌∷◌, arith, length, min,
  length-append, length-replicate, get_elem?-append_last, set-append_last,
}
use cextras.Collection.RcMap.{◌>>=◌}
use cextras.Collection.RcHashMap.{
  RcHashMap, Memory, has_key, takes_key, key_to_index, with_inner, extend_hash_map, store_last,
  probe, put, put_at, retain, max_collisions,
}
use cextras.Collection.RcHashMap.Inv.{
  IsValid, HasRoom, first_size-IsValid, takes_key-Defined, key_to_index-lt,
}
use cextras.Collection.RcHashMap.Rounds.{probe-Defined, Within}
use cextras.Collection.RcHashMap.Spots.{FirstFree, NoneFree, probe-FirstFree, probe-NoneFree}
use cextras.Collection.RcHashMap.Place.{probe-at, has_key-here, probe-set, probe-extended}
use cextras.Collection.RcHashMap.Slot.{
  Slot, new_inner, placed, target, placed-IsValid, store-Slot, retain-Slot,
}
use cextras.Collection.RcHashMap.Extend.{
  fresh_inner, Gives, extend_hash_map-ok, extended-IsValid, extended-HasRoom,
}

module _ {A : Type 0} where
  -- A retain of the key finds the same element again.
  abbrev pub Again : (key : ℕ) → ℕ → RcHashMap A → Type 0
  Again key target m = (m' : RcHashMap A) × (retain m key ≡ some (some target, m'))

  -- What cx_rc_hash_map_put does: it stores in the first place that is free, or in an inner map that
  -- it adds where none is.
  pub data Kept (h : Memory A) (m : RcHashMap A) (key : ℕ) (value : A)
      : Option (Option ℕ × RcHashMap A) → Type 0 where
    found :
        {i₀ j i : ℕ} (s : Slot key value m j i)
        → key_to_index key m.map_size ≡ some i₀
        → FirstFree key m.hash_maps m.map_size j i (min m.map_size max_collisions) i₀
        → IsValid (placed key value s)
        → Again key (target key value s) (placed key value s)
        → Kept h m key value (some (some (target key value s), placed key value s))
    added :
        {m₁ : RcHashMap A} {i : ℕ}
        → key_to_index key m.map_size ≡ some i
        → NoneFree key m.hash_maps m.map_size (min m.map_size max_collisions) i
        → extend_hash_map h m ≡ some (true, m₁)
        → (s : Slot key value m₁ (length m.hash_maps) i) → IsValid (placed key value s)
        → Again key (target key value s) (placed key value s)
        → Kept h m key value (some (some (target key value s), placed key value s))
    failed :
        {m₁ : RcHashMap A} {i : ℕ}
        → key_to_index key m.map_size ≡ some i
        → NoneFree key m.hash_maps m.map_size (min m.map_size max_collisions) i
        → extend_hash_map h m ≡ some (false, m₁)
        → Kept h m key value (some (none, m₁))
    undefined :
        {i : ℕ}
        → key_to_index key m.map_size ≡ some i
        → NoneFree key m.hash_maps m.map_size (min m.map_size max_collisions) i
        → extend_hash_map h m ≡ none
        → Kept h m key value none

  module _ (h : Memory A) {m : RcHashMap A} (v : IsValid m) (room : HasRoom m) (g : Gives h m)
      (key : ℕ) (value : A) (i₀ : ℕ) (e : key_to_index key m.map_size ≡ some i₀)
      (below : i₀ < m.map_size) where
    stored :
        (j i : ℕ) (s : Slot key value m j i)
        → probe (takes_key key) (min m.map_size max_collisions) i₀ m.map_size m.hash_maps
          ≡ some (some (j, i))
        → probe
            (has_key key)
            (min m.map_size max_collisions)
            i₀
            m.map_size
            (placed key value s).hash_maps
          ≡ some (some (j, i))
    stored j i s pe =
        probe-set key m.hash_maps j i s.inner (new_inner key value s) s.at refl
          (min m.map_size max_collisions) i₀ m.map_size (rw (v.inners j s.inner s.at).keys s.inside)
          pe

    abbrev extended : RcHashMap A
    extended = with_inner m (fresh_inner h m)

    stored_last :
        (s : Slot key value extended (length m.hash_maps) i₀)
        → s.inner ≡ fresh_inner h m
        → probe (takes_key key) (min m.map_size max_collisions) i₀ m.map_size m.hash_maps
          ≡ some none
        → probe
            (has_key key)
            (min m.map_size max_collisions)
            i₀
            m.map_size
            (placed key value s).hash_maps
          ≡ some (some (length m.hash_maps, i₀))
    stored_last s fresh pe =
        let new = new_inner key value s in
        let pos = v.size_pos in
        let inside : i₀ < length s.inner.keys =
          rw (fresh, length-replicate {A = ℕ} m.map_size 0) below in
        rw (set-append_last m.hash_maps (fresh_inner h m) new) (
          probe-extended key m.hash_maps new (min m.map_size max_collisions) i₀ m.map_size
            (omega (arith, pos)) below (has_key-here key s.inner new i₀ refl inside) pe)

    added-Kept :
        probe (takes_key key) (min m.map_size max_collisions) i₀ m.map_size m.hash_maps ≡ some none
        → extend_hash_map h m ≡ some (true, extended)
        → Kept h m key value (store_last key value i₀ (true, extended))
    added-Kept pe ext =
        let v' = extended-IsValid h v g in
        let room' = extended-HasRoom h m room in
        let at = get_elem?-append_last m.hash_maps (fresh_inner h m) in
        let last : length extended.hash_maps - 1 ≡ length m.hash_maps =
          omega (arith, length-append m.hash_maps (fresh_inner h m ∷ [])) in
        let (s, eq) =
          store-Slot key value (length m.hash_maps) i₀ (fresh_inner h m) v' room' at below in
        let same : s.inner ≡ fresh_inner h m = cc (s.at, at) in
        rw (last, eq)
          (added e (probe-NoneFree key m.hash_maps (min m.map_size max_collisions) i₀ m.map_size pe)
            ext s (placed-IsValid key value s v')
            (retain-Slot key value s v' room' i₀ e (stored_last s same pe)))

    by_extend :
        (o : Option (Bool × RcHashMap A))
        → extend_hash_map h m ≡ o
        → probe (takes_key key) (min m.map_size max_collisions) i₀ m.map_size m.hash_maps
          ≡ some none
        → Kept h m key value (o >>= store_last key value i₀)
    by_extend none ext pe =
        undefined e
          (probe-NoneFree key m.hash_maps (min m.map_size max_collisions) i₀ m.map_size pe) ext
    by_extend (some (false, m₁)) ext pe =
        failed e (probe-NoneFree key m.hash_maps (min m.map_size max_collisions) i₀ m.map_size pe)
          ext
    by_extend (some (true, m₁)) ext pe =
        let same = extend_hash_map-ok h m m₁ ext in rw same (added-Kept pe (rw same at ext))

    by_place :
        (r : Option (ℕ × ℕ))
        → probe (takes_key key) (min m.map_size max_collisions) i₀ m.map_size m.hash_maps ≡ some r
        → Within m.map_size r
        → Kept h m key value (put_at h m key value i₀ r)
    by_place (some (j, i)) pe inside =
        let (inner, at) =
          probe-at (takes_key key) m.hash_maps (min m.map_size max_collisions) i₀ m.map_size j i
            pe in
        let (s, eq) = store-Slot key value j i inner v room at inside in
        rw eq (
          found s e
            (probe-FirstFree key m.hash_maps j i (min m.map_size max_collisions) i₀ m.map_size pe)
            (placed-IsValid key value s v) (retain-Slot key value s v room i₀ e (stored j i s pe)))
    by_place none pe inside = by_extend (extend_hash_map h m) refl pe

  -- In a valid map, with room for two references more in every counter, and where `calloc` gives what
  -- it was asked for, cx_rc_hash_map_put inserts the value in the first place, of those that it looks
  -- at from the hash of the key on, that has no references or has the key. Where all of them have
  -- references and another key, it adds an inner map and inserts the value there; only where that
  -- fails it returns NULL, or is undefined. A cx_rc_hash_map_retain of the key behind it returns the
  -- address that it returned.
  pub put-Kept :
      (h : Memory A) {m : RcHashMap A} (key : ℕ) (value : A)
      → IsValid m
      → HasRoom m
      → Gives h m
      → Kept h m key value (put h m key value)
  unfolding put
  put-Kept h {m} key value v room g =
      let (i₀, e, below) = key_to_index-lt key m.map_size v.size_pos in
      let (r, pe, inside) =
        probe-Defined (takes_key key) m.hash_maps (min m.map_size max_collisions) i₀ m.map_size
          v.size_pos
          (λ k i inner lt at. takes_key-Defined key m.map_size i inner (v.inners k inner at) lt) in
      rw (first_size-IsValid v, e, pe) (by_place h v room g key value i₀ e below r pe inside)
