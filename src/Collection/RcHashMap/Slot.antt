-- ===== src/Collection/RcHashMap/Slot.antt =====
-- The place where cx_rc_hash_map_put stores a value.
use cextras.Base.{
  ℕ, ◌+◌, ◌*◌, ◌<◌, ◌≡◌, refl, ◌∙◌, Option, none, some, arith, get_elem?, set, min, get_elem?-lt,
  get_elem?→lt, get_elem?-set_self, length-set,
}
use cextras.Collection.RcMap.{RcMap, max_int}
use cextras.Collection.RcMap.Inv.{view}
use cextras.Collection.RcMap.Ops.{Stepped, counted, rejected, insert-Stepped, retain-full}
use cextras.Collection.RcHashMap.{
  Inner, RcHashMap, has_key, key_to_index, with_values, store, probe, retain, max_collisions,
}
use cextras.Collection.RcHashMap.Inv.{IsInner, IsValid, HasRoom, first_size-IsValid, set-IsValid}

module _ {A : Type 0} (key : ℕ) (value : A) where
  -- `value` was inserted in place `i` of inner map `j` of `m`.
  pub record Slot (m : RcHashMap A) (j i : ℕ) : Type 0 where
    pub inner : Inner A
    pub values : RcMap A
    pub at : get_elem? m.hash_maps j ≡ some inner
    pub inside : i < m.map_size
    pub stepped :
        Stepped inner.values i
          (some (counted (view inner.values i) value))
          (rejected (view inner.values i) value)
          values

  module _ {m : RcHashMap A} {j i : ℕ} (s : Slot m j i) where
    abbrev pub new_inner : Inner A
    new_inner = record s.inner { keys = set s.inner.keys i key; values = s.values }

    abbrev pub placed : RcHashMap A
    placed = record m { hash_maps = set m.hash_maps j new_inner }

    abbrev pub target : ℕ
    target = s.inner.values.data_at + i * s.inner.values.element_size

    new_inner-IsInner : IsValid m → IsInner m.map_size new_inner
    new_inner-IsInner v =
        let w = v.inners j s.inner s.at in
        record {
          keys = length-set s.inner.keys i key ∙ w.keys;
          values = s.stepped.valid;
          size = s.stepped.size ∙ w.size;
        }

    pub placed-IsValid : IsValid m → IsValid placed
    placed-IsValid v = set-IsValid j new_inner v (new_inner-IsInner v)

    -- The key is in the place, with the value that was there or `value`.
    view-placed : view s.values i ≡ some (counted (view s.inner.values i) value)
    view-placed = ground (arith, s.stepped.same i)

  pub store-Slot :
      {m : RcHashMap A} (j i : ℕ) (inner : Inner A)
      → IsValid m
      → HasRoom m
      → get_elem? m.hash_maps j ≡ some inner
      → i < m.map_size
      → (s : Slot m j i) × (store m key value j i ≡ some (some (target s), placed s))
  store-Slot {m} j i inner v room e h =
      let w = v.inners j inner e in
      let (old, e') = get_elem?-lt inner.keys i (rw w.keys h) in
      let (values, eq, st) =
        insert-Stepped i value w.values (rw w.size h)
          (λ n y d. omega (arith, room j i n inner y e d)) in
      (
        record { inner = inner; values = values; at = e; inside = h; stepped = st },
        rw (e, e', eq) refl,
      )

  counted-lt :
      (o : Option (ℕ × A))
      → ((n : ℕ) (y : A) → o ≡ some (n, y) → n + 1 < max_int)
      → (counted o value).0 < max_int
  counted-lt none room = omega arith
  counted-lt (some (n, y)) room = room n y refl

  -- The key that was stored is retained again where probing ends in its place.
  pub retain-Slot :
      {m : RcHashMap A} {j i : ℕ} (s : Slot m j i)
      → IsValid m
      → HasRoom m
      → (i₀ : ℕ) → key_to_index key m.map_size ≡ some i₀
      → probe (has_key key) (min m.map_size max_collisions) i₀ m.map_size (placed s).hash_maps
        ≡ some (some (j, i))
      → (m' : RcHashMap A) × (retain (placed s) key ≡ some (some (target s), m'))
  unfolding retain
  retain-Slot {m} {j} {i} s v room i₀ e end =
      let c = counted (view s.inner.values i) value in
      let w = v.inners j s.inner s.at in
      let (values, eq, st) =
        retain-full i c.0 c.1 s.stepped.valid (rw (s.stepped.size ∙ w.size) s.inside)
          (view-placed s)
          (counted-lt (view s.inner.values i) (λ n y d. room j i n s.inner y s.at d)) in
      let here =
        get_elem?-set_self m.hash_maps j (new_inner s) (get_elem?→lt m.hash_maps j s.inner s.at) in
      let same : s.values.data_at + i * s.values.element_size ≡ target s =
        rw (s.stepped.data_at, s.stepped.element_size) refl in
      (
        with_values (placed s) j (new_inner s) values,
        rw (first_size-IsValid (placed-IsValid s v), e, end, here, eq, same) refl,
      )
